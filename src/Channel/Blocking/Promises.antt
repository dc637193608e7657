-- ===== src/Channel/Blocking/Promises.antt =====
-- What comes to the promise of a call.
use kim_rpc.Prelude.{
  ℕ, ◌≡◌, refl, Bool, true, false, not, ◌&&◌, List, [], ◌∷◌, some, arith, Bytes, ◌==◌, ==_iff,
  if◌then◌else◌, Bool-cases, inl, inr,
}
use kim_rpc.Channel.Receive.{Frame}
use kim_rpc.Channel.Blocking.{
  Slots, registers, receives, withdraws, has, without, future, is_set, set_value, fail_each, step,
}

has-without_ne : (j k : ℕ) (ks : List ℕ) → (k == j) ≡ false → has j (without k ks) ≡ has j ks
unfolding has without
has-without_ne j k [] d = refl
has-without_ne j k (x ∷ ks) d = ground (arith, d, has-without_ne j k ks d)

abbrev pub Distinct : List ℕ → Type 0
Distinct [] = Unit {0}
Distinct (k ∷ ks) = (has k ks ≡ false) × Distinct ks

has-without_self : (k : ℕ) (ks : List ℕ) → Distinct ks → has k (without k ks) ≡ false
unfolding has without
has-without_self k [] d = refl
has-without_self k (x ∷ ks) (n, d) = ground (arith, n, ==_iff x k, has-without_self k ks d)

pub has-without :
    (k j : ℕ) (ks : List ℕ) → Distinct ks → has j (without k ks) ≡ (has j ks && not (k == j))
has-without k j ks d = elim (Bool-cases (k == j)) [
  | inl e ↦ ground (arith, e, has-without_self k ks d, ==_iff k j)
  | inr e ↦ ground (arith, e, has-without_ne j k ks e)
]

without-Distinct : (k : ℕ) (ks : List ℕ) → Distinct ks → Distinct (without k ks)
unfolding without
without-Distinct k [] d = tt
without-Distinct k (x ∷ ks) (n, d) =
    ground (arith, n, d, without-Distinct k ks d, has-without k x ks d)

-- No id is pending twice, none that is pending was answered, and all are registered ones.
pub record Sound (s : Slots) : Type 0 where
  pub once : s.set_twice ≡ false
  pub distinct : Distinct s.m_pending
  pub apart : (k : ℕ) → (has k s.m_pending && is_set (future k s.promises)) ≡ false
  pub known : (k : ℕ) → (has k s.m_pending && not (has k s.registered)) ≡ false
  pub known_set : (k : ℕ) → (is_set (future k s.promises) && not (has k s.registered)) ≡ false

pub registers-Sound :
    (id : ℕ) (s : Slots) → has id s.registered ≡ false → Sound s → Sound (step (registers id) s)
unfolding step has
registers-Sound id s n v = record {
  once = v.once;
  distinct = (ground (arith, n, v.known id), v.distinct);
  apart = λ k. ground (arith, n, v.apart k, v.known_set id, ==_iff id k);
  known = λ k. ground (arith, v.known k);
  known_set = λ k. ground (arith, v.known_set k);
}

pub withdraws-Sound : (id : ℕ) (s : Slots) → Sound s → Sound (step (withdraws id) s)
unfolding step
withdraws-Sound id s v = record {
  once = v.once;
  distinct = without-Distinct id s.m_pending v.distinct;
  apart = λ k. ground (arith, v.apart k, has-without id k s.m_pending v.distinct);
  known = λ k. ground (arith, v.known k, has-without id k s.m_pending v.distinct);
  known_set = v.known_set;
}

-- A slot that is pending is taken out and its promise set.
abbrev pub taken : Frame → Slots → Slots
taken f s = record s {
  m_pending = without f.id s.m_pending;
  promises = (f.id, (true, f.body)) ∷ s.promises;
}

pub step-receives :
    (f : Frame) (s : Slots)
    → Sound s
    → step (receives f) s ≡ (if has f.id s.m_pending then taken f s else s)
unfolding step set_value
step-receives f s v = ground (arith, v.apart f.id)

pub taken-Sound :
    (f : Frame) (s : Slots) → has f.id s.m_pending ≡ true → Sound s → Sound (taken f s)
unfolding future
taken-Sound f s h v = record {
  once = v.once;
  distinct = without-Distinct f.id s.m_pending v.distinct;
  apart = λ k. ground (arith, v.apart k, has-without f.id k s.m_pending v.distinct);
  known = λ k. ground (arith, v.known k, has-without f.id k s.m_pending v.distinct);
  known_set = λ k. ground (arith, v.known_set k, h, v.known f.id, ==_iff f.id k);
}

-- All that are pending fail.
set_value_unset :
    (id : ℕ) (v : Bool × Bytes) (s : Slots)
    → is_set (future id s.promises) ≡ false
    → set_value id v s ≡ record s { promises = (id, v) ∷ s.promises }
unfolding set_value
set_value_unset id v s h = ground (arith, h)

pub future-cons :
    (k id : ℕ) (v : Bool × Bytes) (ps : List (ℕ × (Bool × Bytes)))
    → future k ((id, v) ∷ ps) ≡ (if id == k then some v else future k ps)
unfolding future
future-cons k id v ps = refl

pub fail_each-futures :
    (ids : List ℕ) (s : Slots)
    → Distinct ids
    → ((k : ℕ) → (has k ids && is_set (future k s.promises)) ≡ false)
    → ((fail_each ids s).set_twice ≡ s.set_twice)
      × ((fail_each ids s).m_pending ≡ s.m_pending)
      × ((fail_each ids s).registered ≡ s.registered)
      × ((k : ℕ)
          → future k (fail_each ids s).promises
            ≡ (if has k ids then some (false, []) else future k s.promises))
unfolding fail_each has
fail_each-futures [] s d a = (refl, refl, refl, λ k. refl)
fail_each-futures (x ∷ ids) s (n, d) a =
    let s' = set_value x (false, []) s in
    let e = set_value_unset x (false, []) s (ground (arith, a x)) in
    let (o, p, r, g) =
      fail_each-futures ids s' d
        (λ k. ground (arith, e, a k, n, ==_iff x k, future-cons k x (false, []) s.promises)) in
    (
      ground (arith, o, e),
      ground (arith, p, e),
      ground (arith, r, e),
      λ k. ground (arith, g k, e, n, ==_iff x k, future-cons k x (false, []) s.promises),
    )
