-- ===== src/Registration/Decimal.antt =====
-- `std::stoi` of what `std::to_string` and `%d` write.
use native.Mathlib.Nat.{pow-succ'}
use kim_rpc.Prelude.{
  ℕ, zero, suc, ◌+◌, ◌/◌, ◌%◌, ◌^◌, ◌≤◌, ◌<◌, ◌≡◌, refl, ap, sym, ◌∙◌, true, [], ◌∷◌, length, some,
  arith, Bytes, decimal_loop, to_string, is_digit, skip_spaces, digits_value, stoi, parse_signed,
  parse_unsigned, in_range, ltb, pos, Bool-cases, inl, inr,
}

-- The digits are read back, whatever follows them.
digits_value-decimal_loop :
    (f n : ℕ) (rest : Bytes)
    → n < 10 ^ suc f
    → digits_value 0 (decimal_loop (suc f) n rest) ≡ digits_value n rest
unfolding decimal_loop digits_value
digits_value-decimal_loop zero n rest h = ground arith
digits_value-decimal_loop (suc f) n rest h = elim (Bool-cases (ltb n 10)) [
  | inl e ↦ ground (arith, e)
  | inr e ↦
      let small : n / 10 < 10 ^ suc f = omega (arith, pow-succ' 10 (suc f)) in
      rw e (digits_value-decimal_loop f (n / 10) ((b'0' + n % 10) ∷ rest) small ∙ ground arith)
]

-- The text begins with a digit.
decimal_loop-digit :
    (f n : ℕ) (rest : Bytes)
    → (c : ℕ) × (s : Bytes) × (decimal_loop (suc f) n rest ≡ c ∷ s) × (is_digit c ≡ true)
unfolding decimal_loop
decimal_loop-digit zero n rest = elim (Bool-cases (ltb n 10)) [
  | inl e ↦ (b'0' + n, rest, rw e refl, ground (arith, e))
  | inr e ↦ (b'0' + n % 10, rest, rw e refl, ground (arith, e))
]
decimal_loop-digit (suc f) n rest = elim (Bool-cases (ltb n 10)) [
  | inl e ↦ (b'0' + n, rest, rw e refl, ground (arith, e))
  | inr e ↦
      let (c, s, q, d) = decimal_loop-digit f (n / 10) ((b'0' + n % 10) ∷ rest) in (c, s, rw e q, d)
]

-- A text of digits is no space and no sign, so `stoi` is its value.
stoi-digits :
    (c n : ℕ) (s : Bytes)
    → is_digit c ≡ true
    → digits_value 0 (c ∷ s) ≡ n
    → n < 2 ^ 31
    → stoi (c ∷ s) ≡ some (pos n)
unfolding stoi skip_spaces parse_signed parse_unsigned in_range mathlib.Core.Option.bind
stoi-digits c n s d v b = ground (arith, d, v, b)

-- An `int` that is not negative is read back as it was written.
pub stoi-to_string : (n : ℕ) → n < 2 ^ 31 → stoi (to_string (pos n)) ≡ some (pos n)
unfolding to_string digits_value
stoi-to_string n b =
    let (c, s, q, d) = decimal_loop-digit 19 n [] in
    let v : digits_value 0 (c ∷ s) ≡ n =
      ap (digits_value 0) (sym q) ∙ digits_value-decimal_loop 19 n [] (omega arith) in
    ap stoi q ∙ stoi-digits c n s d v b

length-decimal_loop :
    (g f n : ℕ) (rest : Bytes)
    → n < 10 ^ suc g
    → g ≤ f
    → length (decimal_loop (suc f) n rest) ≤ suc g + length rest
unfolding decimal_loop
length-decimal_loop zero f n rest h l = ground arith
length-decimal_loop (suc g) zero n rest h l = absurd (omega arith)
length-decimal_loop (suc g) (suc f) n rest h l = elim (Bool-cases (ltb n 10)) [
  | inl e ↦ ground (arith, e)
  | inr e ↦
      let small : n / 10 < 10 ^ suc g = omega (arith, pow-succ' 10 (suc g)) in
      let step = length-decimal_loop g f (n / 10) ((b'0' + n % 10) ∷ rest) small (omega arith) in
      rw e (omega (arith, step))
]

-- A port has five digits at most.
pub length-port : (n : ℕ) → n < 2 ^ 16 → length (to_string (pos n)) ≤ 5
unfolding to_string
length-port n h = length-decimal_loop 4 19 n [] (omega arith) (omega arith)
