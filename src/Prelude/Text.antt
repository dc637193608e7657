-- ===== src/Prelude/Text.antt =====
-- Byte strings: `std::string` as a list of byte values, with the operations of it that the code uses.
use Prim.Native.Char.{code}
use Prim.Native.String.{String}
use Prim.Native.Nat.{ℕ, zero, suc, ◌+◌, ◌-◌, ◌*◌, ◌/◌, ◌%◌, ◌^◌, ◌<◌}
use mathlib.Core.Path.{◌≡◌, refl, subst}
use mathlib.Core.Logic.{◌↔◌, ◌≢◌}
use mathlib.Core.Bool.{Bool, true, false, ◌&&◌, ◌||◌}
use mathlib.Core.Option.{Option, none, some}
use mathlib.Core.Option
use mathlib.Core.List.{List, [], ◌∷◌, ◌++◌}
use native.Mathlib.Omega.{arith}
use kim_rpc.Prelude.Tests.{ltb, leb, ◌==◌, if◌then◌else◌}
use kim_rpc.Prelude.Lists.{take, drop, length, All}
use kim_rpc.Prelude.Ints.{ℤ, pos, negsuc}

abbrev pub Bytes : Type 0
Bytes = List ℕ

abbrev pub IsByte : ℕ → Type 0
IsByte b = b < 256

-- The bytes of an ASCII literal. `String` has its own `[]` and `∷`.
abbrev pub codes : String → Bytes
codes String.[] = []
codes (String.◌∷◌ c s) = code c ∷ codes s

-- `a == b` on strings.
unfoldable pub bytes_eq : Bytes → Bytes → Bool
bytes_eq [] [] = true
bytes_eq [] (y ∷ ys) = false
bytes_eq (x ∷ xs) [] = false
bytes_eq (x ∷ xs) (y ∷ ys) = x == y && bytes_eq xs ys

pub bytes_eq→eq : (xs ys : Bytes) → bytes_eq xs ys ≡ true → xs ≡ ys
unfolding bytes_eq
bytes_eq→eq [] [] h = refl
bytes_eq→eq [] (y ∷ ys) h = cc
bytes_eq→eq (x ∷ xs) [] h = cc
bytes_eq→eq (x ∷ xs) (y ∷ ys) h = ground (arith, bytes_eq→eq xs ys)

pub bytes_eq_refl : (xs : Bytes) → bytes_eq xs xs ≡ true
unfolding bytes_eq
bytes_eq_refl [] = refl
bytes_eq_refl (x ∷ xs) = ground (arith, bytes_eq_refl xs)

pub bytes_eq_iff : (xs ys : Bytes) → (bytes_eq xs ys ≡ true) ↔ (xs ≡ ys)
bytes_eq_iff xs ys =
    (bytes_eq→eq xs ys, λ e. subst (λ z. bytes_eq xs z ≡ true) e (bytes_eq_refl xs))

-- `s.empty()`
abbrev pub is_empty {ℓ} : {A : Type ℓ} → List A → Bool
is_empty [] = true
is_empty (x ∷ xs) = false

-- `s.find(c)`; `none` is `npos`.
unfoldable pub find_byte : ℕ → Bytes → Option ℕ
find_byte c [] = none
find_byte c (x ∷ xs) = if x == c then some 0 else Option.map suc (find_byte c xs)

-- A text without the byte `c`, and the first place of the byte after it.
abbrev pub Without : ℕ → Bytes → Type 0
Without c s = All (λ b. b ≢ c) s

pub find_byte-first :
    (c : ℕ) (xs ys : Bytes) → Without c xs → find_byte c (xs ++ (c ∷ ys)) ≡ some (length xs)
unfolding find_byte
find_byte-first c [] ys w = ground arith
find_byte-first c (x ∷ xs) ys (n, w) = ground (arith, n, find_byte-first c xs ys w)

-- `s.substr(i, n)` for `i` within the string.
abbrev pub substr : Bytes → ℕ → ℕ → Bytes
substr s i n = take n (drop i s)

-- The decimal digits of `n`, before `rest`; fuel above the number of digits.
unfoldable pub decimal_loop : ℕ → ℕ → Bytes → Bytes
decimal_loop zero n rest = rest
decimal_loop (suc f) n rest =
    let more = decimal_loop f (n / 10) ((b'0' + n % 10) ∷ rest) in
    if ltb n 10 then (b'0' + n) ∷ rest else more

-- `std::to_string` and `%d` of an integer; 20 digits hold every 64-bit value.
unfoldable pub to_string : ℤ → Bytes
unfolding decimal_loop
to_string (pos n) = decimal_loop 20 n []
to_string (negsuc n) = b'-' ∷ decimal_loop 20 (suc n) []

-- `isspace` of the C locale.
abbrev pub is_space : ℕ → Bool
is_space c = c == 32 || (leb 9 c && leb c 13)

abbrev pub is_digit : ℕ → Bool
is_digit c = leb b'0' c && leb c b'9'

unfoldable pub skip_spaces : Bytes → Bytes
skip_spaces [] = []
skip_spaces (c ∷ s) = if is_space c then skip_spaces s else c ∷ s

-- The value of the longest run of digits at the front, added to `acc`.
unfoldable pub digits_value : ℕ → Bytes → ℕ
digits_value acc [] = acc
digits_value acc (c ∷ s) =
    let more = digits_value (acc * 10 + (c - b'0')) s in if is_digit c then more else acc

-- The number at the front of a text: `none` where no digit stands (`std::invalid_argument`).
unfoldable pub parse_unsigned : Bytes → Option ℕ
unfolding digits_value
parse_unsigned [] = none
parse_unsigned (c ∷ s) = if is_digit c then some (digits_value 0 (c ∷ s)) else none

negated : ℕ → ℤ
negated zero = pos 0
negated (suc n) = negsuc n

unfoldable pub parse_signed : Bytes → Option ℤ
unfolding parse_unsigned negated
parse_signed [] = none
parse_signed (c ∷ s) =
    if c == b'-'
    then Option.map negated (parse_unsigned s)
    else if c == b'+'
    then Option.map pos (parse_unsigned s)
    else Option.map pos (parse_unsigned (c ∷ s))

-- A value outside the `w`-bit range (`std::out_of_range`) is refused.
unfoldable pub in_range : ℕ → ℤ → Option ℤ
in_range w (pos n) = if ltb n (2 ^ w) then some (pos n) else none
in_range w (negsuc n) = if ltb n (2 ^ w) then some (negsuc n) else none

-- `std::stoi` and `std::stoll`; `none` where they throw.
unfoldable pub stoi : Bytes → Option ℤ
unfolding skip_spaces parse_signed in_range
stoi s = Option.bind (parse_signed (skip_spaces s)) (in_range 31)

unfoldable pub stoll : Bytes → Option ℤ
unfolding skip_spaces parse_signed in_range
stoll s = Option.bind (parse_signed (skip_spaces s)) (in_range 63)

-- The conversion of an `int` to `uint16_t`.
abbrev pub to_u16 : ℤ → ℕ
to_u16 (pos n) = n % 2 ^ 16
to_u16 (negsuc n) = 2 ^ 16 - 1 - n % 2 ^ 16

-- A map with byte-string keys as an association list: the first entry of a key counts.
module _ {ℓ} {V : Type ℓ} where
  unfoldable pub lookup : Bytes → List (Bytes × V) → Option V
  unfolding bytes_eq
  lookup k [] = none
  lookup k ((j, v) ∷ m) = if bytes_eq j k then some v else lookup k m

  -- `m.insert({k, v})`: a key that is there keeps its value.
  unfoldable pub insert_new : Bytes → V → List (Bytes × V) → List (Bytes × V)
  unfolding bytes_eq
  insert_new k v [] = (k, v) ∷ []
  insert_new k v ((j, w) ∷ m) = if bytes_eq j k then (j, w) ∷ m else (j, w) ∷ insert_new k v m

  -- The first of two that is there.
  abbrev pub or_else : Option V → Option V → Option V
  or_else none o = o
  or_else (some v) o = some v

  pub lookup-insert_new :
      (key k : Bytes) (v : V) (m : List (Bytes × V))
      → lookup key (insert_new k v m)
        ≡ or_else (lookup key m) (if bytes_eq k key then some v else none)
  unfolding lookup insert_new
  lookup-insert_new key k v [] = refl
  lookup-insert_new key k v ((j, w) ∷ m) =
      ground (
        arith,
        lookup-insert_new key k v m,
        bytes_eq_iff j k,
        bytes_eq_iff j key,
        bytes_eq_iff k key,
      )

  pub or_else-none : (o : Option V) → o ≡ or_else o none
  or_else-none none = refl
  or_else-none (some v) = refl

  pub or_else_assoc : (a b c : Option V) → or_else (or_else a b) c ≡ or_else a (or_else b c)
  or_else_assoc none b c = refl
  or_else_assoc (some v) b c = refl
