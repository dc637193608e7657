-- ===== src/Channel/Requests.antt =====
-- What one `callAsync` does with its callback.
use kim_rpc.Prelude.{
  ℕ, ◌+◌, ◌≡◌, refl, ap, ◌∙◌, Bool, true, false, ◌&&◌, List, [], ◌∷◌, Option, none, some, arith,
  inl, inr, Bytes, bytes_eq, codes, if◌then◌else◌, drop, find_byte, stoi, to_u16, ℤ, Bool-cases,
  Option-cases, ◌%◌, ◌^◌, take,
}
use kim_rpc.Wire.{HeaderCodec, request_frame}
use kim_rpc.Discovery.{Address, found}
use kim_rpc.Channel.{
  KimRpcChannel, Pending, failure, find, erase, assign, end_call, fail_each, fail_all_pending,
  deadline_at,
}
use kim_rpc.Channel.Receive.{recv_end}
use kim_rpc.Channel.Calls.{
  Connected, ready, refused, throws, close_client, is_open, Kernel, connect_to, connect_host, join,
  connect_port, reconnect, ensure_connected, send_locked, Call, slot, World, Outcome, returned,
  thrown, fail, register, withdraw, call_connected, call_found, header_of, method_path, call_framed,
  call_serialized, call_async,
}
use kim_rpc.Channel.Once.Counts.{one, count, count-erase, count-assign, done_of, runs, runs-end_log}

-- The callbacks that were run, and those that wait in the table.
abbrev pub accounted : ℕ → KimRpcChannel → ℕ
accounted d c = runs d c.log + count done_of d c.m_pending

pub find-assign : (id : ℕ) (p : Pending) (m : List (ℕ × Pending)) → find id (assign id p m) ≡ some p
unfolding find assign
find-assign id p [] = ground arith
find-assign id p ((k, q) ∷ m) = ground (arith, find-assign id p m)

module _ (parse : ℕ → Bytes → Bool) where
  pub runs-fail_each :
      (d : ℕ) (reason : Bytes) (m : List (ℕ × Pending)) (c : KimRpcChannel)
      → (runs d (fail_each parse reason m c).log ≡ count done_of d m + runs d c.log)
        × ((fail_each parse reason m c).m_pending ≡ c.m_pending)
  unfolding fail_each end_call
  runs-fail_each d reason [] c = (omega arith, refl)
  runs-fail_each d reason ((k, p) ∷ m) c =
      let (r, e) = runs-fail_each d reason m (end_call parse p (failure reason) c) in
      (omega (arith, r, runs-end_log parse d p (failure reason) c.log), e)

  -- A step that keeps the account, and the ids that are free.
  Keeps : ℕ → ℕ → KimRpcChannel → KimRpcChannel → Type 0
  Keeps d id c c' =
      (accounted d c' ≡ accounted d c) × (find id c.m_pending ≡ none → find id c'.m_pending ≡ none)

  fail_all_pending-Keeps :
      (d id : ℕ) (reason : Bytes) (c : KimRpcChannel)
      → Keeps d id c (fail_all_pending parse reason c)
  unfolding Keeps fail_all_pending find
  fail_all_pending-Keeps d id reason c =
      let (r, e) = runs-fail_each d reason c.m_pending (record c { m_pending = [] }) in
      (omega (arith, r, ap (count done_of d) e), λ q. ap (find id) e)

  Keeps-refl : (d id : ℕ) (c : KimRpcChannel) → Keeps d id c c
  unfolding Keeps
  Keeps-refl d id c = (refl, λ q. q)

  Keeps-trans :
      (d id : ℕ) (a b c : KimRpcChannel) → Keeps d id a b → Keeps d id b c → Keeps d id a c
  unfolding Keeps
  Keeps-trans d id a b c (e, f) (g, h) = (g ∙ e, λ q. h (f q))

  Keeps-if :
      (d id : ℕ) (t : Bool) (c x y : KimRpcChannel)
      → Keeps d id c x
      → Keeps d id c y
      → Keeps d id c (if t then x else y)
  Keeps-if d id true c x y h k = h
  Keeps-if d id false c x y h k = k

  join-Keeps : (d id : ℕ) (c : KimRpcChannel) → Keeps d id c (join parse c)
  unfolding Keeps recv_end
  join-Keeps d id c =
      Keeps-if d id c.m_recv_thread c
        (record (if c.recv_over then c else recv_end parse c) { m_recv_thread = false }) c
        (Keeps-if d id c.recv_over c c (recv_end parse c) (Keeps-refl d id c) (
          fail_all_pending-Keeps d id (codes "connection closed")
            (record c { m_running = false; recv_over = true })))
        (Keeps-refl d id c)

  close_client-Keeps :
      (d id : ℕ) (o : Option ℕ) (c : KimRpcChannel) → Keeps d id c (close_client o c)
  unfolding Keeps
  close_client-Keeps d id none c = (refl, λ q. q)
  close_client-Keeps d id (some fd) c = (refl, λ q. q)

  Keeps-host : (d id : ℕ) (c : KimRpcChannel) → Keeps d id c (record c { m_connected_host = [] })
  unfolding Keeps
  Keeps-host d id c = (refl, λ q. q)

  connect_to-Keeps :
      (d id : ℕ) (k : Kernel) (host ip : Bytes) (port : ℕ) (c : KimRpcChannel)
      → Keeps d id c (connect_to k host ip port c).1
  unfolding Keeps
  connect_to-Keeps d id k host ip port c = elim (Option-cases k.socket) [
    | inl e ↦ ground (arith, e)
    | inr (fd, e) ↦ ground (arith, e)
  ]

  connect_port-Keeps :
      (d id : ℕ) (k : Kernel) (host ip : Bytes) (o : Option ℤ) (c : KimRpcChannel)
      → Keeps d id c (connect_port k host ip o c).1
  connect_port-Keeps d id k host ip none c = Keeps-refl d id c
  connect_port-Keeps d id k host ip (some port) c = connect_to-Keeps d id k host ip (to_u16 port) c

  connect_host-Keeps :
      (d id : ℕ) (k : Kernel) (host : Bytes) (o : Option ℕ) (c : KimRpcChannel)
      → Keeps d id c (connect_host k host o c).1
  connect_host-Keeps d id k host none c = Keeps-refl d id c
  connect_host-Keeps d id k host (some idx) c =
      connect_port-Keeps d id k host (take idx host) (stoi (drop (idx + 1) host)) c

  reconnect-Keeps :
      (d id : ℕ) (k : Kernel) (host : Bytes) (t : Bool) (c : KimRpcChannel)
      → Keeps d id c (reconnect parse k host t c).1
  reconnect-Keeps d id k host true c = Keeps-refl d id c
  reconnect-Keeps d id k host false c =
      let a = close_client c.m_clientfd c in
      let b = join parse a in
      Keeps-trans d id c a _ (close_client-Keeps d id c.m_clientfd c) (
        Keeps-trans d id a b _ (join-Keeps d id a) (
          Keeps-trans d id b (record b { m_connected_host = [] }) _ (Keeps-host d id b)
            (connect_host-Keeps d id k host (find_byte b':' host)
              (record b { m_connected_host = [] }))))

  ensure_connected-Keeps :
      (d id : ℕ) (k : Kernel) (host : Bytes) (c : KimRpcChannel)
      → Keeps d id c (ensure_connected parse k host c).1
  unfolding ensure_connected
  ensure_connected-Keeps d id k host c =
      reconnect-Keeps d id k host
        (is_open c.m_clientfd && (c.m_running && bytes_eq c.m_connected_host host)) c

-- The callbacks that a call adds: its own, unless `stoi` threw.
abbrev pub added : Outcome → ℕ → ℕ → ℕ
added returned a d = one a d
added thrown a d = 0

module _ (parse : ℕ → Bytes → Bool) (codec : HeaderCodec) (d : ℕ) where
  accounted-fail :
      (call : Call) (reason : Bytes) (c : KimRpcChannel)
      → accounted d (fail parse codec call reason c) ≡ accounted d c + one call.done d
  unfolding end_call
  accounted-fail call reason c =
      omega (arith, runs-end_log parse d (slot call none) (failure reason) c.log)

  accounted-register :
      (id : ℕ) (call : Call) (now : ℕ) (c : KimRpcChannel)
      → find id c.m_pending ≡ none
      → accounted d (register parse codec id call now c) ≡ accounted d c + one call.done d
  unfolding register
  accounted-register id call now c e =
      omega (
        arith,
        count-assign done_of d id (slot call (deadline_at c.m_timeout_ms now)) c.m_pending e,
      )

  accounted-withdraw :
      (id : ℕ) (call : Call) (error : Bytes) (now : ℕ) (c : KimRpcChannel)
      → find id c.m_pending ≡ none
      → accounted d (withdraw parse codec id call error (register parse codec id call now c))
        ≡ accounted d c + one call.done d
  unfolding withdraw register
  accounted-withdraw id call error now c e =
      let p = slot call (deadline_at c.m_timeout_ms now) in
      let m = assign id p c.m_pending in
      let f = find-assign id p c.m_pending in
      rw (f, withdraw)
        (omega (
          arith,
          accounted-fail call error (record c { m_pending = erase id m }),
          count-erase done_of d id m p f,
          count-assign done_of d id p c.m_pending e,
        ))

  accounted-connected :
      (w : World) (id : ℕ) (call : Call) (frame : Bytes) (r : Connected) (c : KimRpcChannel)
      → find id c.m_pending ≡ none
      → accounted d (call_connected parse codec w id call frame (r, c)).1
        ≡ accounted d c + added (call_connected parse codec w id call frame (r, c)).0 call.done d
  accounted-connected w id call frame ready c e = elim (Bool-cases (send_locked w.sends frame).0) [
    | inl h ↦ rw h (accounted-register id call w.now c e)
    | inr h ↦ rw h (accounted-withdraw id call w.send_error w.now c e)
  ]
  accounted-connected w id call frame (refused error) c e = accounted-fail call error c
  accounted-connected w id call frame throws c e = omega arith

  accounted-found :
      (w : World) (id : ℕ) (call : Call) (frame : Bytes) (a : Address) (c : KimRpcChannel)
      → find id c.m_pending ≡ none
      → accounted d (call_found parse codec w id call frame a c).1
        ≡ accounted d c + added (call_found parse codec w id call frame a c).0 call.done d
  unfolding Keeps
  accounted-found w id call frame (found host) c e =
      let (k, f) = ensure_connected-Keeps parse d id w.kernel host c in
      let r = ensure_connected parse w.kernel host c in
      accounted-connected w id call frame r.0 r.1 (f e)
      ∙ ap (λ (n : ℕ). n + added (call_connected parse codec w id call frame r).0 call.done d) k
  accounted-found w id call frame (Address.failed error) c e = accounted-fail call error c

  accounted-framed :
      (w : World) (id : ℕ) (call : Call) (args : Bytes) (o : Option Bytes) (c : KimRpcChannel)
      → find id c.m_pending ≡ none
      → accounted d (call_framed parse codec w id call args o c).1
        ≡ accounted d c + added (call_framed parse codec w id call args o c).0 call.done d
  accounted-framed w id call args none c e =
      accounted-fail call (codes "serialize rpcHeader error!") c
  accounted-framed w id call args (some header) c e =
      accounted-found w id call (request_frame header args)
        (w.address (method_path parse codec call)) c e

  accounted-serialized :
      (w : World) (call : Call) (o : Option Bytes) (c : KimRpcChannel)
      → find c.m_next_id c.m_pending ≡ none
      → accounted d (call_serialized parse codec w call o c).1
        ≡ accounted d c + added (call_serialized parse codec w call o c).0 call.done d
  accounted-serialized w call none c e = accounted-fail call (codes "serialize request error!") c
  accounted-serialized w call (some args) c e =
      accounted-framed w c.m_next_id call args
        (codec.serialize (header_of parse codec call args c.m_next_id))
        (record c { m_next_id = (c.m_next_id + 1) % 2 ^ 64 }) e

-- In every branch of `callAsync` that returns, the callback of the call is accounted for exactly once
-- more than before, as run or as waiting in the table, and no other callback is lost or run twice,
-- even where the call drops an old connection; only where `stoi` throws, over an address whose port is
-- no number, is it not accounted for. The id must be free, as ids are that have not wrapped around.
pub call_async-accounts :
    (parse : ℕ → Bytes → Bool) (codec : HeaderCodec) (d : ℕ) (w : World) (call : Call)
    (c : KimRpcChannel)
    → find c.m_next_id c.m_pending ≡ none
    → accounted d (call_async parse codec w call c).1
      ≡ accounted d c + added (call_async parse codec w call c).0 call.done d
unfolding call_async
call_async-accounts parse codec d w call c e =
    accounted-serialized parse codec d w call call.args c e
