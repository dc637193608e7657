-- ===== src/Config/Lines.antt =====
-- The buffers that `loadConfigFile` reads of a file, and the entries that they make. A line of more than
-- 510 bytes is several buffers, each with an entry of its own.
use kim_rpc.Prelude.{
  ℕ, zero, suc, ◌<◌, ◌≤◌, ◌≡◌, refl, ap, ◌∙◌, List, [], ◌∷◌, ◌++◌, Option, none, some, arith, inl,
  inr, Bytes, bytes_eq, ◌==◌, if◌then◌else◌, length, length-append, All, Bool-cases, lookup,
  lookup-insert_new, or_else, or_else-none, or_else_assoc,
}
use kim_rpc.Config.{
  fgets, read_buffers, entry_of, insert_entry, load_lines, load_config_file, or_empty, load,
}

abbrev pub joined : List Bytes → Bytes
joined [] = []
joined (l ∷ ls) = l ++ joined ls

fgets-splits : (n : ℕ) (s : Bytes) → (fgets n s).0 ++ (fgets n s).1 ≡ s
unfolding fgets
fgets-splits zero s = refl
fgets-splits (suc n) [] = refl
fgets-splits (suc n) (c ∷ s) = elim (Bool-cases (c == 10)) [
  | inl h ↦ rw h refl
  | inr h ↦ rw h (ap (◌∷◌ c) (fgets-splits n s))
]

fgets_bounded : (n : ℕ) (s : Bytes) → length (fgets n s).0 ≤ n
unfolding fgets
fgets_bounded zero s = omega arith
fgets_bounded (suc n) [] = omega arith
fgets_bounded (suc n) (c ∷ s) = elim (Bool-cases (c == 10)) [
  | inl h ↦ rw h (omega arith)
  | inr h ↦ rw h (omega (arith, fgets_bounded n s))
]

fgets_takes : (n c : ℕ) (s : Bytes) → length (fgets (suc n) (c ∷ s)).1 ≤ length s
unfolding fgets
fgets_takes n c s = elim (Bool-cases (c == 10)) [
  | inl h ↦ rw h (omega arith)
  | inr h ↦
      rw h (omega (arith, ap length (fgets-splits n s), length-append (fgets n s).0 (fgets n s).1))
]

-- With a round for each byte of the file the loop reads all of it: the buffers, one after the other,
-- are the file, and none is longer than 511 bytes.
pub joined-read_buffers :
    (fuel : ℕ) (file : Bytes)
    → length file < fuel
    → (joined (read_buffers fuel file) ≡ file)
      × All (λ (l : Bytes). length l ≤ 511) (read_buffers fuel file)
unfolding read_buffers
joined-read_buffers zero file h = absurd (omega arith)
joined-read_buffers (suc fuel) [] h = (refl, tt)
joined-read_buffers (suc fuel) (c ∷ s) h =
    let (e, a) =
      joined-read_buffers fuel (fgets 511 (c ∷ s)).1 (omega (arith, fgets_takes 510 c s, h)) in
    (
      ap (λ (t : Bytes). (fgets 511 (c ∷ s)).0 ++ t) e ∙ fgets-splits 511 (c ∷ s),
      (fgets_bounded 511 (c ∷ s), a),
    )

-- The value of the first buffer that has an entry for a key.
abbrev pub value_in : Bytes → Option (Bytes × Bytes) → Option Bytes
value_in key none = none
value_in key (some (k, v)) = if bytes_eq k key then some v else none

abbrev pub first_value : Bytes → List Bytes → Option Bytes
first_value key [] = none
first_value key (l ∷ ls) = or_else (value_in key (entry_of l)) (first_value key ls)

lookup-insert_entry :
    (key : Bytes) (o : Option (Bytes × Bytes)) (m : List (Bytes × Bytes))
    → lookup key (insert_entry o m) ≡ or_else (lookup key m) (value_in key o)
lookup-insert_entry key none m = or_else-none (lookup key m)
lookup-insert_entry key (some (k, v)) m = lookup-insert_new key k v m

lookup-load_lines :
    (key : Bytes) (ls : List Bytes) (m : List (Bytes × Bytes))
    → lookup key (load_lines ls m) ≡ or_else (lookup key m) (first_value key ls)
unfolding load_lines
lookup-load_lines key [] m = or_else-none (lookup key m)
lookup-load_lines key (l ∷ ls) m =
    lookup-load_lines key ls (insert_entry (entry_of l) m)
    ∙ ap (λ (o : Option Bytes). or_else o (first_value key ls))
        (lookup-insert_entry key (entry_of l) m)
    ∙ or_else_assoc (lookup key m) (value_in key (entry_of l)) (first_value key ls)

-- After a file was loaded into a new configuration, `load` of a key gives the value of the first
-- buffer that has an entry for it, and the empty text where none does.
pub load-load_config_file :
    (key file : Bytes)
    → load key (load_config_file file [])
      ≡ or_empty (first_value key (read_buffers (suc (length file)) file))
unfolding load load_config_file lookup
load-load_config_file key file =
    ap or_empty (lookup-load_lines key (read_buffers (suc (length file)) file) [])
