-- ===== src/Channel/Receive.antt =====
-- `recvAll` and `recvLoop` of src/channel.cc. The socket holds the bytes that the peer sends, and the
-- kernel gives each `recv` at most the next of `sizes`; at the end of either, `recv` returns 0.
use kim_rpc.Prelude.{
  ℕ, zero, suc, ◌-◌, Bool, true, false, List, [], ◌∷◌, ◌++◌, Option, none, some, Bytes, codes, ltb,
  ◌==◌, if◌then◌else◌, length, take, drop,
}
use Prim.Native.Nat.{min}
use kim_rpc.Wire.{of_le}
use kim_rpc.Channel.{KimRpcChannel, answer, find, erase, end_call, fail_all_pending}

pub record Socket : Type 0 where
  pub stream : Bytes
  pub sizes : List ℕ

-- The loop of `recvAll`, with the bytes received so far, in `data`.
unfoldable pub recv_loop_all : List ℕ → ℕ → Bytes → Bytes → Option Bytes × Socket
recv_loop_all [] len got stream =
    (if ltb (length got) len then none else some got, record { stream = stream; sizes = [] })
recv_loop_all (n ∷ sizes) len got stream =
    let ret = min n (min (len - length got) (length stream)) in
    let rest = recv_loop_all sizes len (got ++ take ret stream) (drop ret stream) in
    if ltb (length got) len
    then (if ret == 0 then (none, record { stream = stream; sizes = sizes }) else rest)
    else (some got, record { stream = stream; sizes = n ∷ sizes })

unfoldable pub recv_all : ℕ → Socket → Option Bytes × Socket
unfolding recv_loop_all
recv_all len s = recv_loop_all s.sizes len [] s.stream

-- The rest of one round of `recvLoop`: a frame, none where the loop breaks.
pub record Frame : Type 0 where
  pub id : ℕ
  pub body : Bytes

-- After the body, the id and the size were read.
abbrev pub after_body : ℕ → Option Bytes × Socket → Option Frame × Socket
after_body id (none, s) = (none, s)
after_body id (some body, s) = (some (record { id = id; body = body }), s)

abbrev pub after_id : ℕ → Option Bytes × Socket → Option Frame × Socket
after_id size (none, s) = (none, s)
after_id size (some id, s) = after_body (of_le id) (recv_all (size - 8) s)

abbrev pub after_size : Option Bytes × Socket → Option Frame × Socket
after_size (none, s) = (none, s)
after_size (some size, s) =
    if ltb (of_le size) 8 then (none, s) else after_id (of_le size) (recv_all 8 s)

unfoldable pub recv_frame : Socket → Option Frame × Socket
recv_frame s = after_size (recv_all 4 s)

module _ (parse : ℕ → Bytes → Bool) where
  -- A frame goes to the call that waits for its id; a frame that no call waits for is dropped.
  unfoldable pub dispatch : Frame → KimRpcChannel → KimRpcChannel
  dispatch f c = elim (find f.id c.m_pending) [
    | none ↦ c
    | some p ↦ end_call parse p (answer f.body) (record c { m_pending = erase f.id c.m_pending })
  ]

  -- After the loop.
  unfoldable pub recv_end : KimRpcChannel → KimRpcChannel
  recv_end c =
      fail_all_pending parse (codes "connection closed")
        (record c { m_running = false; recv_over = true })

  -- `recvLoop`, at most `fuel` frames; the channel keeps running while it receives.
  unfoldable pub recv_loop : ℕ → Socket → KimRpcChannel → KimRpcChannel
  unfolding dispatch recv_end
  recv_loop zero s c = recv_end c
  recv_loop (suc fuel) s c =
      if c.m_running
      then (let (got, s') = recv_frame s in
          elim got [ none ↦ recv_end c | some f ↦ recv_loop fuel s' (dispatch f c) ])
      else recv_end c
