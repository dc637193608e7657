-- ===== src/EndToEnd/Client.antt =====
-- The client's side of a call: what it sends, and what an answer ends.
use kim_rpc.Prelude.{
  ℕ, ◌+◌, ◌%◌, ◌^◌, ◌<◌, ◌≡◌, refl, ap, sym, ◌∙◌, Bool, true, false, ◌&&◌, List, [], ◌∷◌, ◌++◌,
  Option, none, some, arith, Bytes, length, take, drop, append-nil, take-add, take-all, pos_part, ℤ,
  Option-cases, inl, inr, bytes_eq, find_byte, to_u16, stoi,
}
use kim_rpc.Wire.{HeaderCodec, request_frame, response_frame}
use kim_rpc.Discovery.{found}
use kim_rpc.Channel.{KimRpcChannel, answer, erase, end_call, deadline_at}
use kim_rpc.Channel.Receive.{Socket, dispatch, recv_end, recv_loop}
use kim_rpc.Channel.Frames.{Enough, recv_loop-responses}
use kim_rpc.Channel.Calls.{
  ready, Kernel, connect_to, connect_port, connect_host, close_client, join, is_open, reconnect,
  ensure_connected, send_loop, send_locked, Call, slot, World, returned, register, call_connected,
  call_found, header_of, method_path, call_framed, call_serialized, call_async,
}
use kim_rpc.Channel.Requests.{find-assign}

-- Where `sendLocked` succeeds, the bytes went out whole, whatever the kernel took at a time.
send_loop-whole :
    (script : List ℤ) (text out : Bytes) (written : ℕ)
    → out ≡ take written text
    → (send_loop script text written out).0 ≡ true
    → (send_loop script text written out).1 ≡ text
unfolding send_loop
send_loop-whole [] text out written e h = ground (arith, h, e, take-all text written)
send_loop-whole (ret ∷ script) text out written e h =
    let r = pos_part ret in
    let next = out ++ take r (drop written text) in
    let e' : next ≡ take (written + r) text =
      ap (λ (o : Bytes). o ++ take r (drop written text)) e ∙ sym (take-add written r text) in
    ground (arith, h, e, take-all text written, send_loop-whole script text next (written + r) e')

pub send_locked-whole :
    (script : List ℤ) (text : Bytes)
    → (send_locked script text).0 ≡ true
    → (send_locked script text).1 ≡ text
unfolding send_locked
send_locked-whole script text h = send_loop-whole script text [] 0 refl h

-- A channel that `ensureConnected` calls ready receives.
connect_to-running :
    (k : Kernel) (host ip : Bytes) (port : ℕ) (c : KimRpcChannel)
    → (connect_to k host ip port c).0 ≡ ready
    → (connect_to k host ip port c).1.m_running ≡ true
connect_to-running k host ip port c h = ground (arith, h)

connect_host-running :
    (k : Kernel) (host : Bytes) (o : Option ℕ) (c : KimRpcChannel)
    → (connect_host k host o c).0 ≡ ready
    → (connect_host k host o c).1.m_running ≡ true
connect_host-running k host none c h = cc
connect_host-running k host (some idx) c h = elim (Option-cases (stoi (drop (idx + 1) host))) [
  | inl e ↦ ground (arith, e, h)
  | inr (n, e) ↦
      let at = ap (λ o. connect_port k host (take idx host) o c) e in
      ap (λ x. x.1.m_running) at
      ∙ connect_to-running k host (take idx host) (to_u16 n) c (sym (ap (λ x. x.0) at) ∙ h)
]

reconnect-running :
    (parse : ℕ → Bytes → Bool) (k : Kernel) (host : Bytes) (t : Bool) (c : KimRpcChannel)
    → (t ≡ true → c.m_running ≡ true)
    → (reconnect parse k host t c).0 ≡ ready
    → (reconnect parse k host t c).1.m_running ≡ true
reconnect-running parse k host true c r h = r refl
reconnect-running parse k host false c r h =
    connect_host-running k host (find_byte b':' host)
      (record (join parse (close_client c.m_clientfd c)) { m_connected_host = [] }) h

pub ensure_connected-running :
    (parse : ℕ → Bytes → Bool) (k : Kernel) (host : Bytes) (c c' : KimRpcChannel)
    → ensure_connected parse k host c ≡ (ready, c')
    → c'.m_running ≡ true
unfolding ensure_connected
ensure_connected-running parse k host c c' h =
    sym (ap (λ x. x.1.m_running) h)
    ∙ reconnect-running parse k host
        (is_open c.m_clientfd && (c.m_running && bytes_eq c.m_connected_host host)) c
        (λ t. ground (arith, t)) (ap (λ x. x.0) h)

module _ (parse : ℕ → Bytes → Bool) (codec : HeaderCodec) where
  -- `callAsync` in the branch in which all went well.
  pub call_async-sent :
      (w : World) (call : Call) (c c' : KimRpcChannel) (args header host : Bytes)
      → call.args ≡ some args
      → codec.serialize (header_of parse codec call args c.m_next_id) ≡ some header
      → w.address (method_path parse codec call) ≡ found host
      → ensure_connected parse w.kernel host (record c { m_next_id = (c.m_next_id + 1) % 2 ^ 64 })
        ≡ (ready, c')
      → (send_locked w.sends (request_frame header args)).0 ≡ true
      → call_async parse codec w call c ≡ (returned, register parse codec c.m_next_id call w.now c')
  unfolding call_async
  call_async-sent w call c c' args header host a s f e h =
      let id = c.m_next_id in
      let c0 : KimRpcChannel = record c { m_next_id = (id + 1) % 2 ^ 64 } in
      let frame = request_frame header args in
      ap (λ (o : Option Bytes). call_serialized parse codec w call o c) a
      ∙ ap (λ (o : Option Bytes). call_framed parse codec w id call args o c0) s
      ∙ ap (λ x. call_found parse codec w id call frame x c0) f
      ∙ ap (call_connected parse codec w id call frame) e
      ∙ ground (arith, h)

  -- One response on the stream, for a call that is registered.
  pub recv_loop-answer :
      (id now : ℕ) (call : Call) (c : KimRpcChannel) (body : Bytes) (s : Socket)
      → c.m_running ≡ true
      → 8 + length body < 2 ^ 32
      → id < 2 ^ 64
      → s.stream ≡ response_frame id body
      → Enough s
      → let c' = register parse codec id call now c in
        recv_loop parse 2 s c'
        ≡ recv_end parse (
            end_call parse
              (slot call (deadline_at c.m_timeout_ms now))
              (answer body)
              (record c' { m_pending = erase id c'.m_pending }))
  unfolding register dispatch
  recv_loop-answer id now call c body s r b i e n =
      let c' = register parse codec id call now c in
      recv_loop-responses parse (record { id = id; body = body } ∷ []) 2 s c' ((b, i), tt) r
        (omega arith) (e ∙ sym (append-nil (response_frame id body))) n
      ∙ ap (recv_end parse) (
          rw (find-assign id (slot call (deadline_at c.m_timeout_ms now)) c.m_pending, dispatch)
            refl)
