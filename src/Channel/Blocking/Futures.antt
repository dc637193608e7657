-- ===== src/Channel/Blocking/Futures.antt =====
-- Each call of the blocking build gets the first end that the events hold for it.
use kim_rpc.Prelude.{
  ℕ, ◌≡◌, refl, ap, sym, subst, ◌∙◌, Bool, true, false, List, [], ◌∷◌, Option, some, arith, Bytes,
  ◌==◌, ==_iff, Bool-cases, inl, inr,
}
use kim_rpc.Channel.Receive.{Frame}
use kim_rpc.Channel.Blocking.{
  Slots, Event, registers, receives, fails_all, withdraws, has, future, step, run, first_end,
  fresh_ids,
}
use kim_rpc.Channel.Blocking.Promises.{
  Sound, registers-Sound, withdraws-Sound, taken, step-receives, taken-Sound, fail_each-futures,
  has-without, future-cons,
}

fails_all-Sound : (s : Slots) → Sound s → Sound (step fails_all s)
unfolding step has
fails_all-Sound s v =
    let (o, p, r, g) =
      fail_each-futures s.m_pending (record s { m_pending = [] }) v.distinct v.apart in
    record {
      once = o ∙ v.once;
      distinct = rw p tt;
      apart = λ k. ground (arith, p);
      known = λ k. ground (arith, p);
      known_set = λ k. ground (arith, g k, r, v.known k, v.known_set k);
    }

receives-Sound : (f : Frame) (s : Slots) → Sound s → Sound (step (receives f) s)
receives-Sound f s v = elim (Bool-cases (has f.id s.m_pending)) [
  | inl h ↦ rw (step-receives f s v, h) (taken-Sound f s h v)
  | inr h ↦ rw (step-receives f s v, h) v
]

-- The events that go on from a step.
fresh_registers :
    (id : ℕ) (es : List Event) (s : Slots)
    → fresh_ids (registers id ∷ es) s ≡ true
    → (has id s.registered ≡ false) × (fresh_ids es (step (registers id) s) ≡ true)
unfolding fresh_ids
fresh_registers id es s h = ground (arith, h)

registered_known :
    (id : ℕ) (s : Slots) → Sound s → has id s.m_pending ≡ true → has id s.registered ≡ true
registered_known id s v h = ground (arith, h, v.known id)

-- The promise of `id` comes to `v`, and none is set twice.
abbrev pub Comes : ℕ → Option (Bool × Bytes) → Slots → Type 0
Comes id v s = (future id s.promises ≡ v) × (s.set_twice ≡ false)

after :
    (e : Event) (es : List Event) (s s1 : Slots) (id : ℕ) (v : Option (Bool × Bytes))
    → step e s ≡ s1
    → Comes id v (run es s1)
    → Comes id v (run (e ∷ es) s)
unfolding run
after e es s s1 id v q c = subst (λ (x : Slots). Comes id v (run es x)) (sym q) c

fresh_after :
    (e : Event) (es : List Event) (s s1 : Slots)
    → step e s ≡ s1
    → fresh_ids (e ∷ es) s ≡ true
    → fresh_ids es s1 ≡ true
unfolding fresh_ids
fresh_after (registers k) es s s1 q f = ap (fresh_ids es) (sym q) ∙ (fresh_registers k es s f).1
fresh_after (receives g) es s s1 q f = ap (fresh_ids es) (sym q) ∙ f
fresh_after fails_all es s s1 q f = ap (fresh_ids es) (sym q) ∙ f
fresh_after (withdraws k) es s s1 q f = ap (fresh_ids es) (sym q) ∙ f

-- What a step leaves alone, for a call that is over.
record IsOver (id : ℕ) (s : Slots) : Type 0 where
  is_sound : Sound s
  is_known : has id s.registered ≡ true
  is_out : has id s.m_pending ≡ false

receives-IsOver :
    (g : Frame) (id : ℕ) (s : Slots)
    → IsOver id s
    → IsOver id (step (receives g) s)
      × (future id (step (receives g) s).promises ≡ future id s.promises)
receives-IsOver g id s v = elim (Bool-cases (has g.id s.m_pending)) [
  | inl h ↦
      rw (step-receives g s v.is_sound, h)
        (
          record {
            is_sound = taken-Sound g s h v.is_sound;
            is_known = v.is_known;
            is_out = ground (arith, v.is_out, has-without g.id id s.m_pending v.is_sound.distinct);
          },
          ground
              (arith, v.is_out, h, ==_iff g.id id, future-cons id g.id (true, g.body) s.promises),
        )
  | inr h ↦ rw (step-receives g s v.is_sound, h) (v, refl)
]

fails_all-IsOver :
    (id : ℕ) (s : Slots)
    → IsOver id s
    → IsOver id (step fails_all s) × (future id (step fails_all s).promises ≡ future id s.promises)
unfolding step has
fails_all-IsOver id s v =
    let (o, p, r, g) =
      fail_each-futures s.m_pending (record s { m_pending = [] }) v.is_sound.distinct
        v.is_sound.apart in
    (
      record {
        is_sound = fails_all-Sound s v.is_sound;
        is_known = ground (arith, r, v.is_known);
        is_out = ground (arith, p);
      },
      ground (arith, g id, v.is_out),
    )

registers-IsOver :
    (k id : ℕ) (s : Slots)
    → has k s.registered ≡ false
    → IsOver id s
    → IsOver id (step (registers k) s)
unfolding step has
registers-IsOver k id s n v = record {
  is_sound = registers-Sound k s n v.is_sound;
  is_known = ground (arith, v.is_known);
  is_out = ground (arith, v.is_out, v.is_known, n, ==_iff k id);
}

withdraws-IsOver : (k id : ℕ) (s : Slots) → IsOver id s → IsOver id (step (withdraws k) s)
unfolding step
withdraws-IsOver k id s v = record {
  is_sound = withdraws-Sound k s v.is_sound;
  is_known = v.is_known;
  is_out = ground (arith, v.is_out, has-without k id s.m_pending v.is_sound.distinct);
}

-- A promise that was set, or withdrawn, stays as it is.
run_stays :
    (id : ℕ) (es : List Event) (s : Slots)
    → fresh_ids es s ≡ true
    → IsOver id s
    → Comes id (future id s.promises) (run es s)
unfolding run
run_stays id [] s f v = (refl, v.is_sound.once)
run_stays id (registers k ∷ es) s f v =
    let (n, f') = fresh_registers k es s f in
    run_stays id es (step (registers k) s) f' (registers-IsOver k id s n v)
run_stays id (receives g ∷ es) s f v =
    let (w, q) = receives-IsOver g id s v in
    let (a, b) = run_stays id es (step (receives g) s) (fresh_after (receives g) es s _ refl f) w in
    (a ∙ q, b)
run_stays id (fails_all ∷ es) s f v =
    let (w, q) = fails_all-IsOver id s v in
    let (a, b) = run_stays id es (step fails_all s) (fresh_after fails_all es s _ refl f) w in
    (a ∙ q, b)
run_stays id (withdraws k ∷ es) s f v =
    run_stays id es (step (withdraws k) s) (fresh_after (withdraws k) es s _ refl f)
      (withdraws-IsOver k id s v)

receives_other :
    (g : Frame) (id : ℕ) (s : Slots)
    → Sound s
    → (g.id == id) ≡ false
    → has id s.m_pending ≡ true
    → has id (step (receives g) s).m_pending ≡ true
receives_other g id s v e h = elim (Bool-cases (has g.id s.m_pending)) [
  | inl t ↦
      rw (step-receives g s v, t) (ground (arith, e, h, has-without g.id id s.m_pending v.distinct))
  | inr t ↦ rw (step-receives g s v, t) h
]

-- The frame of a pending call, or of another id.
receives_pending :
    (g : Frame) (es : List Event) (id : ℕ) (s : Slots)
    → Sound s
    → fresh_ids (receives g ∷ es) s ≡ true
    → has id s.m_pending ≡ true
    → (fresh_ids es (step (receives g) s) ≡ true
        → has id (step (receives g) s).m_pending ≡ true
        → Comes id (first_end id es) (run es (step (receives g) s)))
    → Comes id (first_end id (receives g ∷ es)) (run (receives g ∷ es) s)
unfolding run
receives_pending g es id s v f h ih =
    let f' = fresh_after (receives g) es s (step (receives g) s) refl f in
    elim (Bool-cases (g.id == id)) [
      | inl e ↦
          let there : has g.id s.m_pending ≡ true = ground (arith, e, h, ==_iff g.id id) in
          let q : step (receives g) s ≡ taken g s = rw (step-receives g s v, there) refl in
          let w : IsOver id (taken g s) = record {
            is_sound = taken-Sound g s there v;
            is_known = registered_known id s v h;
            is_out = ground (arith, e, has-without g.id id s.m_pending v.distinct);
          } in
          let (a, b) =
            run_stays id es (taken g s) (fresh_after (receives g) es s (taken g s) q f) w in
          after (receives g) es s (taken g s) id (first_end id (receives g ∷ es)) q
            (a ∙ ground (arith, e, future-cons id g.id (true, g.body) s.promises), b)
      | inr e ↦
          let same : has id (step (receives g) s).m_pending ≡ true = receives_other g id s v e h in
          let (a, b) = ih f' same in (a ∙ ground (arith, e), b)
    ]

registers_pending :
    (k id : ℕ) (s : Slots)
    → has id s.m_pending ≡ true
    → has id (step (registers k) s).m_pending ≡ true
unfolding step has
registers_pending k id s h = ground (arith, h)

fails_all_ends :
    (id : ℕ) (s : Slots)
    → Sound s
    → has id s.m_pending ≡ true
    → IsOver id (step fails_all s) × (future id (step fails_all s).promises ≡ some (false, []))
unfolding step has
fails_all_ends id s v h =
    let (o, p, r, g) =
      fail_each-futures s.m_pending (record s { m_pending = [] }) v.distinct v.apart in
    (
      record {
        is_sound = fails_all-Sound s v;
        is_known = ground (arith, r, registered_known id s v h);
        is_out = ground (arith, p);
      },
      ground (arith, g id, h),
    )

withdraws_pending :
    (k : ℕ) (es : List Event) (id : ℕ) (s : Slots)
    → Sound s
    → fresh_ids (withdraws k ∷ es) s ≡ true
    → has id s.m_pending ≡ true
    → (fresh_ids es (step (withdraws k) s) ≡ true
        → has id (step (withdraws k) s).m_pending ≡ true
        → Comes id (first_end id es) (run es (step (withdraws k) s)))
    → Comes id (first_end id (withdraws k ∷ es)) (run (withdraws k ∷ es) s)
unfolding run step
withdraws_pending k es id s v f h ih =
    let f' = fresh_after (withdraws k) es s (step (withdraws k) s) refl f in
    let out = has-without k id s.m_pending v.distinct in
    elim (Bool-cases (k == id)) [
      | inl e ↦
          let w : IsOver id (step (withdraws k) s) = record {
            is_sound = withdraws-Sound k s v;
            is_known = registered_known id s v h;
            is_out = ground (arith, e, out);
          } in
          let (a, b) = run_stays id es (step (withdraws k) s) f' w in
          (a ∙ ground (arith, e, h, v.apart id), b)
      | inr e ↦ let (a, b) = ih f' (ground (arith, e, out, h)) in (a ∙ ground (arith, e), b)
    ]

-- The future of a call that is registered, whatever the threads do after: it gets the body of the first
-- frame with the call's id, or the failure of the connection, or stays empty where the call is
-- withdrawn or neither comes, whichever event is first; no promise is set twice. Each id is given once.
pub run-first_end :
    (es : List Event) (id : ℕ) (s : Slots)
    → Sound s
    → fresh_ids es s ≡ true
    → has id s.m_pending ≡ true
    → (future id (run es s).promises ≡ first_end id es) × ((run es s).set_twice ≡ false)
unfolding run
run-first_end [] id s v f h = (ground (arith, h, v.apart id), v.once)
run-first_end (registers k ∷ es) id s v f h =
    let (n, f') = fresh_registers k es s f in
    run-first_end es id (step (registers k) s) (registers-Sound k s n v) f'
      (registers_pending k id s h)
run-first_end (receives g ∷ es) id s v f h =
    receives_pending g es id s v f h
      (λ f' h'. run-first_end es id (step (receives g) s) (receives-Sound g s v) f' h')
run-first_end (fails_all ∷ es) id s v f h =
    let (w, q) = fails_all_ends id s v h in
    let (a, b) = run_stays id es (step fails_all s) (fresh_after fails_all es s _ refl f) w in
    (a ∙ q, b)
run-first_end (withdraws k ∷ es) id s v f h =
    withdraws_pending k es id s v f h
      (λ f' h'. run-first_end es id (step (withdraws k) s) (withdraws-Sound k s v) f' h')
