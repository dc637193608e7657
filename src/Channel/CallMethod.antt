-- ===== src/Channel/CallMethod.antt =====
-- `CallMethod` of src/channel.cc as its header builds it: with a callback it is `callAsync`; without one
-- it waits for a callback of its own.
use kim_rpc.Prelude.{
  ℕ, ◌≡◌, refl, ◌⊎◌, inl, inr, Bool, Option, none, some, arith, Bytes, ◌==◌, if◌then◌else◌,
  Bool-cases,
}
use kim_rpc.Wire.{HeaderCodec}
use kim_rpc.Channel.{KimRpcChannel, find}
use kim_rpc.Channel.Calls.{Call, World, Outcome, returned, thrown, call_async}
use kim_rpc.Channel.Once.Counts.{count, done_of, runs}
use kim_rpc.Channel.Requests.{accounted, added, call_async-accounts}

-- The call returned, it waits for a thread to run its callback, or `stoi` threw out of it.
pub data Called : Type 0 where
  returns waits throws : Called

abbrev pub with_done : ℕ → Call → Call
with_done d call = record call { done = d }

abbrev pub after_async : Outcome × KimRpcChannel → Called × KimRpcChannel
after_async (returned, c) = (returns, c)
after_async (thrown, c) = (throws, c)

-- `fut.wait()` of the callback `sync`, which returns at once where it was run already.
abbrev pub after_wait : ℕ → Outcome × KimRpcChannel → Called × KimRpcChannel
after_wait sync (returned, c) = (if runs sync c.log == 0 then waits else returns, c)
after_wait sync (thrown, c) = (throws, c)

-- `sync` is the callback that `CallMethod` makes where it is given none.
unfoldable pub call_method :
    (ℕ → Bytes → Bool)
    → HeaderCodec
    → World
    → Call
    → Option ℕ
    → ℕ
    → KimRpcChannel
    → Called × KimRpcChannel
call_method parse codec w call (some d) sync c =
    after_async (call_async parse codec w (with_done d call) c)
call_method parse codec w call none sync c =
    after_wait sync (call_async parse codec w (with_done sync call) c)

-- What a wait means for the table, by the way that `callAsync` left.
waits_or_not :
    (sync : ℕ) (r : Outcome × KimRpcChannel)
    → accounted sync r.1 ≡ added r.0 sync sync
    → ((after_wait sync r).0 ≡ throws)
      ⊎ (((after_wait sync r).0 ≡ waits) × (count done_of sync (after_wait sync r).1.m_pending ≡ 1))
      ⊎ (((after_wait sync r).0 ≡ returns) × (runs sync (after_wait sync r).1.log ≡ 1))
waits_or_not sync (thrown, c) e = inl refl
waits_or_not sync (returned, c) e = elim (Bool-cases (runs sync c.log == 0)) [
  | inl z ↦ inr (inl (ground (arith, z), ground (arith, e, z)))
  | inr z ↦ inr (inr (ground (arith, z), ground (arith, e, z)))
]

-- A call without a callback, unless `stoi` threw, either waits, and then exactly one slot of the table
-- has its callback, or returns, and then its callback was run exactly once. Its id is free, and its own
-- callback is new.
pub call_method-waits :
    (parse : ℕ → Bytes → Bool) (codec : HeaderCodec) (w : World) (call : Call) (sync : ℕ)
    (c : KimRpcChannel)
    → find c.m_next_id c.m_pending ≡ none
    → accounted sync c ≡ 0
    → let r = call_method parse codec w call none sync c in
      (r.0 ≡ throws)
      ⊎ ((r.0 ≡ waits) × (count done_of sync r.1.m_pending ≡ 1))
      ⊎ ((r.0 ≡ returns) × (runs sync r.1.log ≡ 1))
unfolding call_method
call_method-waits parse codec w call sync c free new =
    let r = call_async parse codec w (with_done sync call) c in
    waits_or_not sync r
      (omega (arith, call_async-accounts parse codec sync w (with_done sync call) c free, new))
