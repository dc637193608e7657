-- ===== src/Channel/Once/Steps.antt =====
-- The invariant of the tables under one event.
use kim_rpc.Prelude.{
  ℕ, ◌+◌, ◌^◌, ◌≡◌, ◌<◌, refl, ap, Bool, Option, none, some, arith, inl, inr, Bytes, codes,
  Option-cases,
}
use kim_rpc.Wire.{HeaderCodec}
use kim_rpc.Channel.{
  KimRpcChannel, Pending, Ending, failure, find, erase, end_call, expired, deadline_at,
}
use kim_rpc.Channel.Receive.{Frame}
use kim_rpc.Channel.Calls.{Call, slot, fail, register, withdraw}
use kim_rpc.Channel.Once.{
  State, Event, unserializable, begins, aborts, registers, withdraws, receives, expires, fails_all,
  finishes, sets_timeout, owned_by, step, abort, make_slot, take_back, take_slot, finish,
}
use kim_rpc.Channel.Once.Counts.{
  one, count-append, count-erase, none-count, count-assign, count-expired, done_of, owned_done,
  count-owned_by, runs-end_log,
}
use kim_rpc.Channel.Once.Tables.{
  call_done, key, SameDone, Inv, one_same, find-All, erase-All, alive-All, assign-same,
}

module _ (parse : ℕ → Bytes → Bool) (codec : HeaderCodec) where
  abort-Inv :
      (o : Option Call) (id : ℕ) (reason : Bytes) (s : State)
      → Inv s
      → find id s.started ≡ o
      → Inv (abort parse codec o id reason s)
  unfolding end_call
  abort-Inv none id reason s v e = v
  abort-Inv (some call) id reason s v e = record {
    keys = λ i. omega (arith, v.keys i, count-erase key i id s.started call e);
    fresh = λ i h. omega (arith, v.fresh i h, count-erase key i id s.started call e);
    same = v.same;
    conserved = λ d. omega (
      arith,
      v.conserved d,
      count-erase call_done d id s.started call e,
      runs-end_log parse d (slot call none) (failure reason) s.channel.log,
    );
  }

  make_slot-Inv :
      (o : Option Call) (id now : ℕ) (s : State)
      → Inv s
      → find id s.started ≡ o
      → Inv (make_slot parse codec o id now s)
  unfolding register
  make_slot-Inv none id now s v e = v
  make_slot-Inv (some call) id now s v e =
      let p = slot call (deadline_at s.channel.m_timeout_ms now) in
      let free : find id s.channel.m_pending ≡ none =
        none-count id s.channel.m_pending
          (omega (arith, v.keys id, count-erase key id id s.started call e, one_same id)) in
      record {
        keys = λ i. omega (
          arith,
          v.keys i,
          count-erase key i id s.started call e,
          count-assign key i id p s.channel.m_pending free,
        );
        fresh = λ i h. omega (
          arith,
          v.fresh i h,
          count-erase key i id s.started call e,
          count-assign key i id p s.channel.m_pending free,
        );
        same =
            assign-same s.sending id call (deadline_at s.channel.m_timeout_ms now)
              s.channel.m_pending v.same free;
        conserved = λ d. omega (
          arith,
          v.conserved d,
          count-erase call_done d id s.started call e,
          count-assign done_of d id p s.channel.m_pending free,
        );
      }

  -- A slot that leaves the table for a thread's hands, or for its end.
  take_slot-Inv :
      (o : Option Pending) (f : Frame) (s : State)
      → Inv s
      → find f.id s.channel.m_pending ≡ o
      → Inv (take_slot parse codec o f s)
  take_slot-Inv none f s v e = v
  take_slot-Inv (some p) f s v e = record {
    keys = λ i. omega (arith, v.keys i, count-erase key i f.id s.channel.m_pending p e);
    fresh = λ i h. omega (arith, v.fresh i h, count-erase key i f.id s.channel.m_pending p e);
    same = erase-All (SameDone s.sending) f.id s.channel.m_pending v.same;
    conserved =
        λ d. omega (arith, v.conserved d, count-erase done_of d f.id s.channel.m_pending p e);
  }

  finish-Inv :
      (o : Option (Pending × Ending)) (id : ℕ) (s : State)
      → Inv s
      → find id s.owned ≡ o
      → Inv (finish parse codec o id s)
  unfolding end_call
  finish-Inv none id s v e = v
  finish-Inv (some (p, r)) id s v e = record {
    keys = v.keys;
    fresh = v.fresh;
    same = v.same;
    conserved = λ d. omega (
      arith,
      v.conserved d,
      count-erase owned_done d id s.owned (p, r) e,
      runs-end_log parse d p r s.channel.log,
    );
  }

  pub withdraw-none :
      (id : ℕ) (call : Call) (error : Bytes) (c : KimRpcChannel)
      → find id c.m_pending ≡ none
      → withdraw parse codec id call error c ≡ c
  unfolding withdraw
  withdraw-none id call error c e = rw (e, withdraw) refl

  pub withdraw-some :
      (id : ℕ) (call : Call) (error : Bytes) (c : KimRpcChannel) (p : Pending)
      → find id c.m_pending ≡ some p
      → withdraw parse codec id call error c
        ≡ fail parse codec call error (record c { m_pending = erase id c.m_pending })
  unfolding withdraw
  withdraw-some id call error c p e = rw (e, withdraw) refl

  withdraw-Inv :
      (o : Option Pending) (id : ℕ) (call : Call) (error : Bytes) (s : State)
      → Inv s
      → find id s.sending ≡ some call
      → find id s.channel.m_pending ≡ o
      → Inv (take_back parse codec (some call) id error s)
  unfolding end_call
  withdraw-Inv none id call error s v f e = rw (withdraw-none id call error s.channel e) v
  withdraw-Inv (some p) id call error s v f e =
      rw (withdraw-some id call error s.channel p e) (record {
        keys = λ i. omega (arith, v.keys i, count-erase key i id s.channel.m_pending p e);
        fresh = λ i h. omega (arith, v.fresh i h, count-erase key i id s.channel.m_pending p e);
        same = erase-All (SameDone s.sending) id s.channel.m_pending v.same;
        conserved = λ d. omega (
          arith,
          v.conserved d,
          count-erase done_of d id s.channel.m_pending p e,
          runs-end_log parse d (slot call none) (failure error) s.channel.log,
          ap (λ (k : ℕ). one k d)
              (find-All (SameDone s.sending) id s.channel.m_pending p v.same e call f),
        );
      })

  pub step-Inv :
      (e : Event) (s : State)
      → s.channel.m_next_id + 1 < 2 ^ 64
      → Inv s
      → Inv (step parse codec e s)
  unfolding step end_call
  step-Inv (unserializable call) s h v = record {
    keys = v.keys;
    fresh = v.fresh;
    same = v.same;
    conserved = λ d. omega (
      arith,
      v.conserved d,
      runs-end_log parse d (slot call none) (failure (codes "serialize request error!"))
          s.channel.log,
    );
  }
  step-Inv (begins call) s h v = record {
    keys = λ i. ground (arith, v.keys i, v.fresh i);
    fresh = λ i k. ground (arith, v.fresh i, h);
    same = v.same;
    conserved = λ d. omega (arith, v.conserved d);
  }
  step-Inv (aborts id reason) s h v = abort-Inv (find id s.started) id reason s v refl
  step-Inv (registers id now) s h v = make_slot-Inv (find id s.started) id now s v refl
  step-Inv (withdraws id error) s h v = elim (Option-cases (find id s.sending)) [
    | inl n ↦ rw n v
    | inr (call, f) ↦ rw f (withdraw-Inv (find id s.channel.m_pending) id call error s v f refl)
  ]
  step-Inv (receives f) s h v = take_slot-Inv (find f.id s.channel.m_pending) f s v refl
  step-Inv (expires now) s h v = record {
    keys = λ i. omega (arith, v.keys i, count-expired key i now s.channel.m_pending);
    fresh = λ i k. omega (arith, v.fresh i k, count-expired key i now s.channel.m_pending);
    same = alive-All (SameDone s.sending) now s.channel.m_pending v.same;
    conserved = λ d. omega (
      arith,
      v.conserved d,
      count-expired done_of d now s.channel.m_pending,
      count-append owned_done d (owned_by (codes "rpc timeout") (expired now s.channel.m_pending))
          s.owned,
      count-owned_by d (codes "rpc timeout") (expired now s.channel.m_pending),
    );
  }
  step-Inv (fails_all reason) s h v = record {
    keys = λ i. omega (arith, v.keys i);
    fresh = λ i k. omega (arith, v.fresh i k);
    same = tt;
    conserved = λ d. omega (
      arith,
      v.conserved d,
      count-append owned_done d (owned_by reason s.channel.m_pending) s.owned,
      count-owned_by d reason s.channel.m_pending,
    );
  }
  step-Inv (finishes id) s h v = finish-Inv (find id s.owned) id s v refl
  step-Inv (sets_timeout t) s h v = record {
    keys = v.keys;
    fresh = v.fresh;
    same = v.same;
    conserved = v.conserved;
  }
