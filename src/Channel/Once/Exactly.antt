-- ===== src/Channel/Once/Exactly.antt =====
-- How often callbacks are run, over the interleavings of the threads.
use kim_rpc.Prelude.{
  ℕ, suc, ◌+◌, ◌^◌, ◌≡◌, ◌≤◌, ◌<◌, refl, Bool, List, [], ◌∷◌, Option, none, some, arith, inl, inr,
  Bytes, length, Option-cases,
}
use kim_rpc.Wire.{HeaderCodec}
use kim_rpc.Channel.{Pending, Ending, find, end_call}
use kim_rpc.Channel.Receive.{Frame}
use kim_rpc.Channel.Calls.{Call, register}
use kim_rpc.Channel.Once.{
  State, Event, unserializable, begins, aborts, registers, withdraws, receives, expires, fails_all,
  finishes, sets_timeout, step, run, abort, make_slot, take_back, take_slot, finish,
}
use kim_rpc.Channel.Once.Counts.{runs}
use kim_rpc.Channel.Once.Tables.{occurs, under_way, Inv}
use kim_rpc.Channel.Once.Steps.{step-Inv, withdraw-none, withdraw-some}

module _ (parse : ℕ → Bytes → Bool) (codec : HeaderCodec) where
  -- An event moves the next id on by one at the most.
  abbrev next_of : State → ℕ
  next_of s = s.channel.m_next_id

  next-abort :
      (o : Option Call) (id : ℕ) (reason : Bytes) (s : State)
      → next_of (abort parse codec o id reason s) ≡ next_of s
  unfolding end_call
  next-abort none id reason s = refl
  next-abort (some call) id reason s = refl

  next-make_slot :
      (o : Option Call) (id now : ℕ) (s : State)
      → next_of (make_slot parse codec o id now s) ≡ next_of s
  unfolding register
  next-make_slot none id now s = refl
  next-make_slot (some call) id now s = refl

  next-take_slot :
      (o : Option Pending) (f : Frame) (s : State)
      → next_of (take_slot parse codec o f s) ≡ next_of s
  next-take_slot none f s = refl
  next-take_slot (some p) f s = refl

  next-finish :
      (o : Option (Pending × Ending)) (id : ℕ) (s : State)
      → next_of (finish parse codec o id s) ≡ next_of s
  unfolding end_call
  next-finish none id s = refl
  next-finish (some (p, r)) id s = refl

  next-take_back :
      (o : Option Call) (id : ℕ) (error : Bytes) (s : State)
      → next_of (take_back parse codec o id error s) ≡ next_of s
  unfolding end_call
  next-take_back none id error s = refl
  next-take_back (some call) id error s = elim (Option-cases (find id s.channel.m_pending)) [
    | inl e ↦ rw (withdraw-none parse codec id call error s.channel e) refl
    | inr (p, e) ↦ rw (withdraw-some parse codec id call error s.channel p e) refl
  ]

  step-next : (e : Event) (s : State) → next_of (step parse codec e s) ≤ suc (next_of s)
  unfolding step end_call
  step-next (unserializable call) s = omega arith
  step-next (begins call) s = omega arith
  step-next (aborts id reason) s = omega (arith, next-abort (find id s.started) id reason s)
  step-next (registers id now) s = omega (arith, next-make_slot (find id s.started) id now s)
  step-next (withdraws id error) s = omega (arith, next-take_back (find id s.sending) id error s)
  step-next (receives f) s = omega (arith, next-take_slot (find f.id s.channel.m_pending) f s)
  step-next (expires now) s = omega arith
  step-next (fails_all reason) s = omega arith
  step-next (finishes id) s = omega (arith, next-finish (find id s.owned) id s)
  step-next (sets_timeout t) s = omega arith

  next_id-bound : (es : List Event) → next_of (run parse codec es) ≤ suc (length es)
  unfolding run
  next_id-bound [] = omega arith
  next_id-bound (e ∷ es) = omega (arith, next_id-bound es, step-next e (run parse codec es))

  run-Inv : (es : List Event) → length es + 2 < 2 ^ 64 → Inv (run parse codec es)
  unfolding run
  run-Inv [] h = record {
    keys = λ i. omega arith;
    fresh = λ i k. omega arith;
    same = tt;
    conserved = λ d. omega arith;
  }
  run-Inv (e ∷ es) h =
      step-Inv parse codec e (run parse codec es) (omega (arith, next_id-bound es))
        (run-Inv es (omega arith))

-- After any interleaving of fewer than 2^64 - 2 events of the callers, the receiving thread and the
-- timer, a callback has been run at most as often as it was given to `callAsync`, and exactly as often
-- once no call with it is under way: no call is completed twice, by two of the threads, and none is
-- lost between them.
pub runs-exactly :
    (parse : ℕ → Bytes → Bool) (codec : HeaderCodec) (es : List Event) (d : ℕ)
    → length es + 2 < 2 ^ 64
    → (runs d (run parse codec es).channel.log ≤ occurs d (run parse codec es).calls)
      × (under_way d (run parse codec es) ≡ 0
          → runs d (run parse codec es).channel.log ≡ occurs d (run parse codec es).calls)
runs-exactly parse codec es d h =
    let q = (run-Inv parse codec es h).conserved d in (omega (arith, q), λ z. omega (arith, q, z))
