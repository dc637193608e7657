-- ===== src/Channel/Once/Counts.antt =====
-- Counting the entries of the tables.
use kim_rpc.Prelude.{
  ℕ, ◌+◌, ◌≡◌, refl, Bool, List, [], ◌∷◌, ◌++◌, Option, none, some, arith, inl, inr, codes, Bytes,
  ◌==◌, if◌then◌else◌, Bool-cases,
}
use kim_rpc.Channel.{
  Pending, Effect, run, set_failed, parsed, Ending, failure, answer, find, erase, assign, expired,
  alive, is_expired, end_log, fail_controller,
}
use kim_rpc.Channel.Once.{owned_by}

abbrev pub one : ℕ → ℕ → ℕ
one a d = if a == d then 1 else 0

module _ {V : Type 0} (g : ℕ → V → ℕ) (d : ℕ) where
  abbrev pub count : List (ℕ × V) → ℕ
  count [] = 0
  count ((k, v) ∷ m) = one (g k v) d + count m

  pub count-append : (m n : List (ℕ × V)) → count (m ++ n) ≡ count m + count n
  count-append [] n = omega arith
  count-append ((k, v) ∷ m) n = omega (arith, count-append m n)

  pub count-erase :
      (i : ℕ) (m : List (ℕ × V)) (v : V)
      → find i m ≡ some v
      → count m ≡ one (g i v) d + count (erase i m)
  unfolding find erase
  count-erase i [] v e = ground arith
  count-erase i ((k, w) ∷ m) v e = ground (arith, count-erase i m v)

-- A key that is not in the table.
pub count-none :
    {V : Type 0} (i : ℕ) (m : List (ℕ × V)) → find i m ≡ none → count (λ k v. k) i m ≡ 0
unfolding find
count-none i [] e = refl
count-none i ((k, w) ∷ m) e = ground (arith, count-none i m)

pub none-count :
    {V : Type 0} (i : ℕ) (m : List (ℕ × V)) → count (λ k v. k) i m ≡ 0 → find i m ≡ none
unfolding find
none-count i [] e = refl
none-count i ((k, w) ∷ m) e = ground (arith, none-count i m)

pub count-assign :
    (g : ℕ → Pending → ℕ) (d id : ℕ) (p : Pending) (m : List (ℕ × Pending))
    → find id m ≡ none
    → count g d (assign id p m) ≡ one (g id p) d + count g d m
unfolding find assign
count-assign g d id p [] e = refl
count-assign g d id p ((k, w) ∷ m) e = ground (arith, count-assign g d id p m)

pub count-expired :
    (g : ℕ → Pending → ℕ) (d now : ℕ) (m : List (ℕ × Pending))
    → count g d m ≡ count g d (expired now m) + count g d (alive now m)
unfolding expired alive
count-expired g d now [] = omega arith
count-expired g d now ((k, p) ∷ m) = elim (Bool-cases (is_expired now p.deadline)) [
  | inl h ↦ rw h (omega (arith, count-expired g d now m))
  | inr h ↦ rw h (omega (arith, count-expired g d now m))
]

abbrev pub done_of : ℕ → Pending → ℕ
done_of k p = p.done

abbrev pub owned_done : ℕ → Pending × Ending → ℕ
owned_done k (p, e) = p.done

pub count-owned_by :
    (d : ℕ) (reason : Bytes) (m : List (ℕ × Pending))
    → count owned_done d (owned_by reason m) ≡ count done_of d m
count-owned_by d reason [] = refl
count-owned_by d reason ((k, p) ∷ m) = omega (arith, count-owned_by d reason m)

-- How often a callback was run.
abbrev pub runs : ℕ → List Effect → ℕ
runs d [] = 0
runs d (run a ∷ l) = one a d + runs d l
runs d (set_failed ctl reason ∷ l) = runs d l
runs d (parsed r body ∷ l) = runs d l

runs-fail :
    (d n : ℕ) (ctl : Option ℕ) (reason : Bytes) (l : List Effect)
    → n + runs d (fail_controller ctl reason l) ≡ n + runs d l
runs-fail d n none reason l = refl
runs-fail d n (some c) reason l = refl

pub runs-end_log :
    (parse : ℕ → Bytes → Bool) (d : ℕ) (p : Pending) (e : Ending) (l : List Effect)
    → runs d (end_log parse p e l) ≡ one p.done d + runs d l
unfolding end_log
runs-end_log parse d p (answer body) l = elim (Bool-cases (parse p.response body)) [
  | inl h ↦ rw h refl
  | inr h ↦ rw h (
      runs-fail d (one p.done d) p.controller (codes "parse response error!")
        (parsed p.response body ∷ l))
]
runs-end_log parse d p (failure reason) l = runs-fail d (one p.done d) p.controller reason l
