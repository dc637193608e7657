-- ===== src/Channel/Late.antt =====
-- A call that registers its slot after the receiving thread's last `failAllPending`, while the
-- descriptor still takes its bytes.
use kim_rpc.Prelude.{
  ℕ, ◌≡◌, refl, ap, ◌∙◌, Bool, true, false, ◌&&◌, Option, none, some, arith, Bytes, codes, [], ◌∷◌,
  List, bytes_eq, find_byte, if◌then◌else◌, is_nonpos,
}
use kim_rpc.Wire.{HeaderCodec}
use kim_rpc.Channel.{
  KimRpcChannel, Pending, find, deadline_at, is_expired, alive, expired, fail_each, timer_round,
}
use kim_rpc.Channel.Calls.{
  Call, slot, Kernel, register, close_client, join, connect_host, reconnect, ensure_connected,
  is_open,
}
use kim_rpc.Channel.Requests.{find-assign, runs-fail_each}

connect_host-same_pending :
    (k : Kernel) (host : Bytes) (o : Option ℕ) (c : KimRpcChannel)
    → (connect_host k host o c).1.m_pending ≡ c.m_pending
connect_host-same_pending k host none c = refl
connect_host-same_pending k host (some idx) c = ground arith

join_after :
    (parse : ℕ → Bytes → Bool) (c : KimRpcChannel)
    → c.recv_over ≡ true
    → (join parse (close_client c.m_clientfd c)).m_pending ≡ c.m_pending
join_after parse c e = ground (arith, e)

find-alive :
    (id now : ℕ) (p : Pending) (m : List (ℕ × Pending))
    → find id m ≡ some p
    → is_expired now p.deadline ≡ false
    → find id (alive now m) ≡ some p
unfolding find alive
find-alive id now p [] e d = cc
find-alive id now p ((k, q) ∷ m) e d = ground (arith, e, d, find-alive id now p m)

module _ (parse : ℕ → Bytes → Bool) (codec : HeaderCodec) where
  -- A reconnection after the thread's end takes no slot out of the table.
  reconnect-same_pending :
      (k : Kernel) (host : Bytes) (t : Bool) (c : KimRpcChannel)
      → c.recv_over ≡ true
      → (reconnect parse k host t c).1.m_pending ≡ c.m_pending
  reconnect-same_pending k host true c e = refl
  reconnect-same_pending k host false c e =
      let a = close_client c.m_clientfd c in
      connect_host-same_pending k host (find_byte b':' host)
        (record (join parse a) { m_connected_host = [] })
      ∙ join_after parse c e

  swept_or_not :
      (id : ℕ) (p : Pending) (c : KimRpcChannel) (t : Bool) (swept : KimRpcChannel)
      → find id swept.m_pending ≡ some p
      → find id c.m_pending ≡ some p
      → find id (if t then swept else c).m_pending ≡ some p
  swept_or_not id p c true swept h k = h
  swept_or_not id p c false swept h k = k

  timer_round-keeps :
      (id now : ℕ) (p : Pending) (c : KimRpcChannel)
      → find id c.m_pending ≡ some p
      → is_expired now p.deadline ≡ false
      → find id (timer_round parse now c).m_pending ≡ some p
  unfolding timer_round
  timer_round-keeps id now p c e d =
      let swept =
        fail_each parse (codes "rpc timeout") (expired now c.m_pending)
          (record c { m_pending = alive now c.m_pending }) in
      swept_or_not id p c c.m_timer_running swept
        (ap (find id)
            (runs-fail_each parse 0 (codes "rpc timeout") (expired now c.m_pending)
              (record c { m_pending = alive now c.m_pending })).1
          ∙ find-alive id now p c.m_pending e d)
        e

  -- A call whose slot is registered after the receiving thread came to its end, on a channel without a
  -- timeout: the next `ensureConnected` (of the next call), to whatever host and whether or not it
  -- connects, leaves its slot in the table as it was registered, and so does a round of the timer at
  -- whatever time.
  pub late_register_waits :
      (k : Kernel) (host : Bytes) (id now later : ℕ) (call : Call) (c : KimRpcChannel)
      → c.recv_over ≡ true
      → is_nonpos c.m_timeout_ms ≡ true
      → let c' = register parse codec id call now c in
        (find id (ensure_connected parse k host c').1.m_pending ≡ some (slot call none))
        × (find id (timer_round parse later c').m_pending ≡ some (slot call none))
  unfolding register ensure_connected
  late_register_waits k host id now later call c e t =
      let c' = register parse codec id call now c in
      let there : find id c'.m_pending ≡ some (slot call none) =
        ground
          (arith, t, find-assign id (slot call (deadline_at c.m_timeout_ms now)) c.m_pending) in
      (
        ap (find id) (
              reconnect-same_pending k host
                (is_open c.m_clientfd && (c.m_running && bytes_eq c.m_connected_host host)) c' e)
            ∙ there,
        timer_round-keeps id later (slot call none) c' there refl,
      )
