-- ===== src/Etcd/Base64RoundTrip.antt =====
-- Encoding followed by decoding.
use kim_rpc.Prelude.{
  ℕ, zero, suc, ◌+◌, ◌-◌, ◌*◌, ◌/◌, ◌%◌, ◌^◌, ◌<◌, ◌≤◌, ◌≡◌, refl, ap, ◌∙◌, Bool, true, false, not,
  ◌&&◌, [], ◌∷◌, Bytes, IsByte, All, arith, ◌==◌, pos, negsuc,
}
use kim_rpc.Etcd.Base64.{b64_char, sextet, b64_encode, b64_val, is_padding, decode_loop, b64_decode}

-- A digit of the table decodes to its place, and is no padding.
is_digit_of : ℕ → Bool
is_digit_of d = elim (b64_val (b64_char d)) [ pos e ↦ e == d | negsuc e ↦ false ]

all_below : ℕ → (ℕ → Bool) → Bool
all_below zero f = true
all_below (suc n) f = f n && all_below n f

all_below_sound : (n : ℕ) (f : ℕ → Bool) (x : ℕ) → all_below n f ≡ true → x < n → f x ≡ true
unfolding all_below
all_below_sound zero f x h lt = absurd (omega arith)
all_below_sound (suc n) f x h lt = ground (arith, all_below_sound n f x)

digit_table : all_below 64 is_digit_of ≡ true
unfolding all_below is_digit_of b64_val b64_char
digit_table = refl

padding_table : all_below 64 (λ d. not (is_padding (b64_char d))) ≡ true
unfolding all_below b64_char
padding_table = refl

val-char : (d : ℕ) → d < 64 → b64_val (b64_char d) ≡ pos d
unfolding is_digit_of
val-char d h = ground (arith, all_below_sound 64 is_digit_of d digit_table h)

not_padding : (d : ℕ) → d < 64 → is_padding (b64_char d) ≡ false
not_padding d h =
    ground (arith, all_below_sound 64 (λ e. not (is_padding (b64_char e))) d padding_table h)

-- One digit, where it completes a byte and where it does not.
decode-full :
    (val room d : ℕ) (s : Bytes)
    → d < 64
    → 2 ≤ room
    → decode_loop val room (b64_char d ∷ s)
      ≡ (val * 64 + d) % 2 ^ 32 / 2 ^ (room + 6 - 8) % 256
        ∷ decode_loop ((val * 64 + d) % 2 ^ 32) (room + 6 - 8) s
unfolding decode_loop
decode-full val room d s h r = ground (arith, not_padding d h, val-char d h)

decode-part :
    (val room d : ℕ) (s : Bytes)
    → d < 64
    → room < 2
    → decode_loop val room (b64_char d ∷ s) ≡ decode_loop ((val * 64 + d) % 2 ^ 32) (room + 6) s
unfolding decode_loop
decode-part val room d s h r = ground (arith, not_padding d h, val-char d h)

-- The last value of a loop over four digits.
abbrev shifted : ℕ → ℕ → ℕ
shifted val d = (val * 64 + d) % 2 ^ 32

decode-two :
    (val a b : ℕ) (s : Bytes)
    → a < 64
    → b < 64
    → decode_loop val 0 (b64_char a ∷ b64_char b ∷ s)
      ≡ (a * 4 + b / 16) ∷ decode_loop (shifted (shifted val a) b) 4 s
decode-two val a b s ha hb =
    decode-part val 0 a (b64_char b ∷ s) ha (omega arith)
    ∙ decode-full (shifted val a) 6 b s hb (omega arith)
    ∙ ap (λ (x : ℕ). x ∷ decode_loop (shifted (shifted val a) b) 4 s) (omega arith)

decode-three :
    (val a b c : ℕ) (s : Bytes)
    → a < 64
    → b < 64
    → c < 64
    → decode_loop val 0 (b64_char a ∷ b64_char b ∷ b64_char c ∷ s)
      ≡ (a * 4 + b / 16)
        ∷ (b % 16 * 16 + c / 4)
        ∷ decode_loop (shifted (shifted (shifted val a) b) c) 2 s
decode-three val a b c s ha hb hc =
    decode-two val a b (b64_char c ∷ s) ha hb
    ∙ ap (◌∷◌ (a * 4 + b / 16)) (
        decode-full (shifted (shifted val a) b) 4 c s hc (omega arith)
        ∙ ap (λ (x : ℕ). x ∷ decode_loop (shifted (shifted (shifted val a) b) c) 2 s) (omega arith))

decode-four :
    (val a b c d : ℕ) (s : Bytes)
    → a < 64
    → b < 64
    → c < 64
    → d < 64
    → decode_loop val 0 (b64_char a ∷ b64_char b ∷ b64_char c ∷ b64_char d ∷ s)
      ≡ (a * 4 + b / 16)
        ∷ (b % 16 * 16 + c / 4)
        ∷ (c % 4 * 64 + d)
        ∷ decode_loop (shifted (shifted (shifted (shifted val a) b) c) d) 0 s
decode-four val a b c d s ha hb hc hd =
    decode-three val a b c (b64_char d ∷ s) ha hb hc
    ∙ ap (λ (l : Bytes). (a * 4 + b / 16) ∷ (b % 16 * 16 + c / 4) ∷ l)
        (decode-full (shifted (shifted (shifted val a) b) c) 2 d s hd (omega arith)
          ∙ ap (λ (x : ℕ). x ∷ decode_loop (shifted (shifted (shifted (shifted val a) b) c) d) 0 s)
              (omega arith))

skip_padding : (val room : ℕ) (s : Bytes) → decode_loop val room (b'=' ∷ s) ≡ decode_loop val room s
unfolding decode_loop
skip_padding val room s = refl

decode_nil : (val room : ℕ) → decode_loop val room [] ≡ []
unfolding decode_loop
decode_nil val room = refl

join3 :
    (x y z : ℕ) {x' y' z' : ℕ} {l l' : Bytes}
    → x ≡ x'
    → y ≡ y'
    → z ≡ z'
    → l ≡ l'
    → ◌≡◌ {A = Bytes} (x ∷ y ∷ z ∷ l) (x' ∷ y' ∷ z' ∷ l')
join3 x y z e f g h = cc

-- From any value that an earlier group left behind.
decode_loop-encode : (val : ℕ) (s : Bytes) → All IsByte s → decode_loop val 0 (b64_encode s) ≡ s
unfolding b64_encode
decode_loop-encode val [] h = decode_nil val 0
decode_loop-encode val (a ∷ []) (ha, _) =
    decode-two val _ _ _ (omega arith) (omega arith)
    ∙ rw (skip_padding, skip_padding, decode_nil) (ap (λ (x : ℕ). x ∷ []) (omega arith))
decode_loop-encode val (a ∷ b ∷ []) (ha, (hb, _)) =
    decode-three val _ _ _ _ (omega arith) (omega arith) (omega arith)
    ∙ rw (skip_padding, decode_nil) (ground arith)
decode_loop-encode val (a ∷ b ∷ c ∷ s) (ha, (hb, (hc, hs))) =
    let n = a * 2 ^ 16 + b * 2 ^ 8 + c in
    let last =
      shifted (shifted (shifted (shifted val (sextet n 18)) (sextet n 12)) (sextet n 6))
        (sextet n 0) in
    decode-four val (sextet n 18) (sextet n 12) (sextet n 6) (sextet n 0) (b64_encode s)
      (omega arith) (omega arith) (omega arith) (omega arith)
    ∙ join3 _ _ _ (omega arith) (omega arith) (omega arith) (decode_loop-encode last s hs)

-- `b64Decode` gives back every byte string that `b64Encode` encoded.
pub b64_decode-encode : (s : Bytes) → All IsByte s → b64_decode (b64_encode s) ≡ s
unfolding b64_decode
b64_decode-encode s h = decode_loop-encode 0 s h
