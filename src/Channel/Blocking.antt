-- ===== src/Channel/Blocking.antt =====
-- The blocking build of src/channel.cc (without KIMRPC_ASYNC_CLIENT): `CallMethod` waits for a promise
-- on its own stack, which the receiving thread sets. A slot is named by its request id. The events of
-- the threads stand in the order in which they hold `m_pendingMtx`.
pub mod Promises
pub mod Futures
use kim_rpc.Prelude.{
  ℕ, ◌+◌, ◌%◌, ◌^◌, ◌≡◌, refl, ap, sym, ◌∙◌, Bool, true, false, List, [], ◌∷◌, ◌++◌, Option, none,
  some, arith, Bytes, codes, take, ◌==◌, if◌then◌else◌, Bool-cases, inl, inr,
}
use kim_rpc.Wire.{HeaderCodec, request_frame}
use kim_rpc.Discovery.{Address, found}
use kim_rpc.Channel.Receive.{Frame}
use kim_rpc.Channel.Calls.{
  Connected, ready, refused, throws, World, Call, send_locked, header_of, method_path,
}

-- The table, the promises that were set (with the body in `response_buf`), latest first, and whether
-- one was set a second time, which throws `std::future_error`.
pub record Slots : Type 0 where
  pub m_pending : List ℕ
  pub promises : List (ℕ × (Bool × Bytes))
  pub set_twice : Bool
  -- The ids that were registered so far.
  pub registered : List ℕ

-- `callAsync`'s counterpart registers a slot; a frame arrives; the connection ends or is torn down; a
-- send failed.
pub data Event : Type 0 where
  registers : ℕ → Event
  receives : Frame → Event
  fails_all : Event
  withdraws : ℕ → Event

unfoldable pub has : ℕ → List ℕ → Bool
has id [] = false
has id (k ∷ ks) = if k == id then true else has id ks

unfoldable pub without : ℕ → List ℕ → List ℕ
without id [] = []
without id (k ∷ ks) = if k == id then ks else k ∷ without id ks

-- `fut.get()` of the call `id`; none while it blocks.
unfoldable pub future : ℕ → List (ℕ × (Bool × Bytes)) → Option (Bool × Bytes)
future id [] = none
future id ((k, v) ∷ ps) = if k == id then some v else future id ps

abbrev pub is_set : Option (Bool × Bytes) → Bool
is_set none = false
is_set (some v) = true

-- `prom.set_value`.
unfoldable pub set_value : ℕ → Bool × Bytes → Slots → Slots
unfolding future
set_value id v s =
    if is_set (future id s.promises)
    then record s { set_twice = true }
    else record s { promises = (id, v) ∷ s.promises }

unfoldable pub fail_each : List ℕ → Slots → Slots
unfolding set_value
fail_each [] s = s
fail_each (id ∷ ids) s = fail_each ids (set_value id (false, []) s)

unfoldable pub step : Event → Slots → Slots
unfolding has without set_value fail_each
step (registers id) s = record s { m_pending = id ∷ s.m_pending; registered = id ∷ s.registered }
step (receives f) s =
    if has f.id s.m_pending
    then set_value f.id (true, f.body) (record s { m_pending = without f.id s.m_pending })
    else s
step fails_all s = fail_each s.m_pending (record s { m_pending = [] })
step (withdraws id) s = record s { m_pending = without id s.m_pending }

unfoldable pub run : List Event → Slots → Slots
unfolding step
run [] s = s
run (e ∷ es) s = run es (step e s)

-- How `CallMethod` ends: `SetFailed`, the parsed response (and `done`, if there is one), `stoi` threw,
-- or it waits.
pub data Result : Type 0 where
  failed : Bytes → Result
  answered : Bytes → Result
  thrown : Result
  blocked : Result

module _ (parse : ℕ → Bytes → Bool) (codec : HeaderCodec) where
  -- The text of a failed parse is cut to its buffer of 2048 bytes.
  abbrev pub after_future : Call → Option (Bool × Bytes) → Result
  after_future call none = blocked
  after_future call (some (false, body)) = failed (codes "connection closed before response")
  after_future call (some (true, body)) =
      if parse call.response body
      then answered body
      else failed (take 2047 (codes "parse error! response_str:" ++ body))

  abbrev pub after_connect : World → Call → Bytes → Option (Bool × Bytes) → Connected → Result
  after_connect w call frame fut ready =
      if (send_locked w.sends frame).0 then after_future call fut else failed w.send_error
  after_connect w call frame fut (refused error) = failed error
  after_connect w call frame fut throws = thrown

  abbrev pub after_address :
      World → Call → Bytes → (Bytes → Connected) → Option (Bool × Bytes) → Address → Result
  after_address w call frame connect fut (found host) =
      after_connect w call frame fut (connect host)
  after_address w call frame connect fut (Address.failed error) = failed error

  abbrev pub after_header :
      World → Call → Bytes → (Bytes → Connected) → Option (Bool × Bytes) → Option Bytes → Result
  after_header w call args connect fut none = failed (codes "serialize rpcHeader error!")
  after_header w call args connect fut (some header) =
      after_address w call (request_frame header args) connect fut
        (w.address (method_path parse codec call))

  abbrev pub after_args :
      World → ℕ → Call → (Bytes → Connected) → Option (Bool × Bytes) → Option Bytes → Result
  after_args w id call connect fut none = failed (codes "serialize request error!")
  after_args w id call connect fut (some args) =
      after_header w call args connect fut (codec.serialize (header_of parse codec call args id))

  -- `CallMethod` with the id `id`; `connect` is the answer of `ensureConnected`, `fut` what comes to
  -- the promise of the call.
  unfoldable pub call_method :
      World → ℕ → Call → (Bytes → Connected) → Option (Bool × Bytes) → Result
  call_method w id call connect fut = after_args w id call connect fut call.args

-- What the first event after the registration makes of the promise.
abbrev pub first_end : ℕ → List Event → Option (Bool × Bytes)
first_end id [] = none
first_end id (registers k ∷ es) = first_end id es
first_end id (receives f ∷ es) = if f.id == id then some (true, f.body) else first_end id es
first_end id (fails_all ∷ es) = some (false, [])
first_end id (withdraws k ∷ es) = if k == id then none else first_end id es

-- `m_nextId` gives each id once.
unfoldable pub fresh_ids : List Event → Slots → Bool
unfolding has step
fresh_ids [] s = true
fresh_ids (registers id ∷ es) s =
    let rest = fresh_ids es (step (registers id) s) in if has id s.registered then false else rest
fresh_ids (e ∷ es) s = fresh_ids es (step e s)
