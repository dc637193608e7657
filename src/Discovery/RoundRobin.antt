-- ===== src/Discovery/RoundRobin.antt =====
-- The round robin of `GetRpcAddress`.
use kim_rpc.Prelude.{
  ℕ, zero, suc, ◌+◌, ◌-◌, ◌%◌, ◌^◌, ◌≤◌, ◌<◌, ◌≡◌, refl, ap, sym, ◌∙◌, false, List, [], ◌∷◌, ◌++◌,
  arith, Bytes, length, take, drop, length-drop, get_or, is_empty,
}
use mathlib.Core.Path.{ap₂}
use kim_rpc.Discovery.{MethodEntry, Address, found, pick}

-- `k` calls in a row with no event of the watch in between.
pub picks : ℕ → Bytes → MethodEntry → List Address
picks zero path e = []
picks (suc k) path e = (pick path e).0 ∷ picks k path (pick path e).1

unfoldable pub after_picks : ℕ → Bytes → MethodEntry → MethodEntry
after_picks zero path e = e
after_picks (suc k) path e = after_picks k path (pick path e).1

abbrev pub all_found : List Bytes → List Address
all_found [] = []
all_found (x ∷ xs) = found x ∷ all_found xs

drop-get : (xs : List Bytes) (q : ℕ) → q < length xs → drop q xs ≡ get_or xs q [] ∷ drop (suc q) xs
drop-get [] q h = elim h [ ]
drop-get (x ∷ xs) zero h = refl
drop-get (x ∷ xs) (suc q) h = drop-get xs q (omega arith)

next_mod : (r n q : ℕ) → r % n ≡ q → suc q < n → (r + 1) % n ≡ suc q
next_mod r n q e h = grind arith

not_empty : (xs : List Bytes) → 0 < length xs → is_empty xs ≡ false
not_empty [] h = elim h [ ]
not_empty (x ∷ xs) h = refl

pub pick-found :
    (path : Bytes) (e : MethodEntry)
    → 0 < length e.instances
    → e.rr + 1 < 2 ^ 64
    → ((pick path e).0 ≡ found (get_or e.instances (e.rr % length e.instances) []))
      × ((pick path e).1.instances ≡ e.instances)
      × ((pick path e).1.rr ≡ e.rr + 1)
unfolding pick
pick-found path e h b = ground (arith, not_empty e.instances h)

-- While the cursor does not pass the end of the list, the calls read it off in order.
picks-run :
    (k : ℕ) (path : Bytes) (e : MethodEntry) (q : ℕ)
    → e.rr % length e.instances ≡ q
    → q + k ≤ length e.instances
    → e.rr + k < 2 ^ 64
    → picks k path e ≡ all_found (take k (drop q e.instances))
unfolding picks
picks-run zero path e q m h b = refl
picks-run (suc zero) path e q m h b =
    let f = pick-found path e (omega arith) (omega arith) in
    rw (drop-get e.instances q (omega arith), f.0, m)
picks-run (suc (suc k)) path e q m h b =
    let f = pick-found path e (omega arith) (omega arith) in
    let rest =
      picks-run (suc k) path (pick path e).1 (suc q)
        (rw (f.1, f.2) (next_mod e.rr (length e.instances) q m (omega arith)))
        (rw f.1 (omega arith)) (rw f.2 (omega arith)) in
    rw (drop-get e.instances q (omega arith), f.0, m)
      (ap (◌∷◌ (found (get_or e.instances q [])))
        (rest ∙ ap (λ (l : List Bytes). all_found (take (suc k) (drop (suc q) l))) f.1))

pub after-entry :
    (k : ℕ) (path : Bytes) (e : MethodEntry)
    → 0 < length e.instances
    → e.rr + k < 2 ^ 64
    → ((after_picks k path e).instances ≡ e.instances) × ((after_picks k path e).rr ≡ e.rr + k)
unfolding after_picks
after-entry zero path e h b = (refl, omega arith)
after-entry (suc k) path e h b =
    let f = pick-found path e h (omega arith) in
    let g = after-entry k path (pick path e).1 (rw f.1 h) (rw f.2 (omega arith)) in
    (g.0 ∙ f.1, g.1 ∙ rw f.2 (omega arith))

picks-add :
    (j k : ℕ) (path : Bytes) (e : MethodEntry)
    → picks (j + k) path e ≡ picks j path e ++ picks k path (after_picks j path e)
unfolding picks after_picks
picks-add zero k path e = ap (λ (i : ℕ). picks i path e) {y = k} (omega arith)
picks-add (suc j) k path e =
    ap (λ (i : ℕ). picks i path e) {y = suc (j + k)} (omega arith)
    ∙ ap (◌∷◌ (pick path e).0) (picks-add j k path (pick path e).1)

all_found-append : (xs ys : List Bytes) → all_found (xs ++ ys) ≡ all_found xs ++ all_found ys
all_found-append [] ys = refl
all_found-append (x ∷ xs) ys = ap (◌∷◌ (found x)) (all_found-append xs ys)

take-all : (xs : List Bytes) (k : ℕ) → length xs ≡ k → take k xs ≡ xs
take-all [] zero h = refl
take-all [] (suc k) h = refl
take-all (x ∷ xs) zero h = absurd (omega arith)
take-all (x ∷ xs) (suc k) h = ap (◌∷◌ x) (take-all xs k (omega arith))

wraps : (r n : ℕ) → 0 < n → (r + (n - r % n)) % n ≡ 0
wraps r n h = grind arith

-- As long as no instance comes or goes, as many calls in a row as there are instances return each
-- instance once: they read off the list from the cursor to its end, and then from its beginning. (The
-- cursor stays below 2 ^ 64.)
pub picks-rotation :
    (path : Bytes) (e : MethodEntry)
    → 0 < length e.instances
    → e.rr + length e.instances < 2 ^ 64
    → picks (length e.instances) path e
      ≡ all_found (
          drop (e.rr % length e.instances) e.instances
          ++ take (e.rr % length e.instances) e.instances)
picks-rotation path e h b =
    let n = length e.instances in
    let q = e.rr % n in
    let g = after-entry (n - q) path e h (omega arith) in
    let second =
      picks-run q path (after_picks (n - q) path e) 0 (rw (g.0, g.1) (wraps e.rr n h))
        (rw g.0 (omega arith)) (rw g.1 (omega arith)) in
    ap (λ (i : ℕ). picks i path e) {y = n - q + q} (omega arith)
    ∙ picks-add (n - q) q path e
    ∙ ap₂ ◌++◌ (picks-run (n - q) path e q refl (omega arith) (omega arith)) second
    ∙ rw (take-all (drop q e.instances) (n - q) (omega (arith, length-drop q e.instances)), g.0)
        (sym (all_found-append (drop q e.instances) (take q e.instances)))
