-- ===== src/Config/Printed.antt =====
-- Configuration files as a person writes them, and the buffers that `loadConfigFile` reads of them.
use kim_rpc.Prelude.{
  ℕ, zero, suc, ◌≤◌, ◌<◌, ◌≡◌, ◌≢◌, refl, ap, ◌∙◌, List, [], ◌∷◌, ◌++◌, Option, none, some, arith,
  Bytes, bytes_eq, if◌then◌else◌, length, length-append, Without, All, All-append, map,
}
use kim_rpc.Config.{fgets, read_buffers}

abbrev pub spaces : ℕ → Bytes
spaces zero = []
spaces (suc n) = 32 ∷ spaces n

-- A line of a file, without its line feed: spaces only; `#` and a comment; or a key and a value, with
-- numbers of spaces before the key, between it and `=`, before the value and after it.
pub data ConfLine : Type 0 where
  blank : ℕ → ConfLine
  comment : ℕ → Bytes → ConfLine
  setting : ℕ → Bytes → ℕ → ℕ → Bytes → ℕ → ConfLine

abbrev pub text_of : ConfLine → Bytes
text_of (blank a) = spaces a
text_of (comment a t) = spaces a ++ (35 ∷ t)
text_of (setting a k b c v d) =
    spaces a ++ ((k ++ spaces b) ++ (61 ∷ (spaces c ++ (v ++ spaces d))))

abbrev pub printed : List ConfLine → Bytes
printed [] = []
printed (l ∷ ls) = text_of l ++ (10 ∷ printed ls)

-- A word has a character, and no space and no line feed.
abbrev pub IsWord : Bytes → Type 0
IsWord [] = ⊥
IsWord (x ∷ w) = Without 32 (x ∷ w) × Without 10 (x ∷ w)

-- A key does not begin with `#`.
abbrev pub NoHash : Bytes → Type 0
NoHash [] = Unit {0}
NoHash (x ∷ w) = x ≢ 35

-- The line, with its line feed, fits the buffer; a comment holds no line feed; a key and a value are
-- words, and the key has no `=` and is no comment.
abbrev pub IsLine : ConfLine → Type 0
IsLine (blank a) = length (text_of (blank a)) < 511
IsLine (comment a t) = Without 10 t × (length (text_of (comment a t)) < 511)
IsLine (setting a k b c v d) =
    IsWord k × Without 61 k × NoHash k × IsWord v × (length (text_of (setting a k b c v d)) < 511)

-- The value of the first line that sets a key.
abbrev pub value_of : Bytes → List ConfLine → Option Bytes
value_of key [] = none
value_of key (blank a ∷ ls) = value_of key ls
value_of key (comment a t ∷ ls) = value_of key ls
value_of key (setting a k b c v d ∷ ls) = if bytes_eq k key then some v else value_of key ls

pub spaces-Without : (c n : ℕ) → 32 ≢ c → Without c (spaces n)
spaces-Without c zero h = tt
spaces-Without c (suc n) h = (h, spaces-Without c n h)

-- `fgets` of a line that fits takes the line.
fgets-line :
    (n : ℕ) (p rest : Bytes)
    → Without 10 p
    → length p < n
    → fgets n (p ++ (10 ∷ rest)) ≡ (p ++ (10 ∷ []), rest)
unfolding fgets
fgets-line zero p rest w h = absurd (omega arith)
fgets-line (suc n) [] rest w h = refl
fgets-line (suc n) (x ∷ p) rest (v, w) h = ground (arith, v, fgets-line n p rest w (omega arith))

read-line :
    (fuel : ℕ) (p rest : Bytes)
    → Without 10 p
    → length p < 511
    → read_buffers (suc fuel) (p ++ (10 ∷ rest)) ≡ (p ++ (10 ∷ [])) ∷ read_buffers fuel rest
unfolding read_buffers
read-line fuel [] rest w h = rw (fgets-line 511 [] rest w h) refl
read-line fuel (x ∷ p) rest w h = rw (fgets-line 511 (x ∷ p) rest w h) refl

line-Without : (l : ConfLine) → IsLine l → Without 10 (text_of l)
line-Without (blank a) v = spaces-Without 10 a (omega arith)
line-Without (comment a t) (w, v) =
    All-append (λ (z : ℕ). z ≢ 10) (spaces a) (35 ∷ t) (spaces-Without 10 a (omega arith))
      (omega arith, w)
line-Without (setting a [] b c v d) (wk, nk, hk, wv, l) = elim wk [ ]
line-Without (setting a (x ∷ k) b c [] d) (wk, nk, hk, wv, l) = elim wv [ ]
line-Without (setting a (x ∷ k) b c (y ∷ v) d) (wk, nk, hk, wv, l) =
    All-append (λ (z : ℕ). z ≢ 10) (spaces a)
      (((x ∷ k) ++ spaces b) ++ (61 ∷ (spaces c ++ ((y ∷ v) ++ spaces d))))
      (spaces-Without 10 a (omega arith))
      (All-append (λ (z : ℕ). z ≢ 10) ((x ∷ k) ++ spaces b)
        (61 ∷ (spaces c ++ ((y ∷ v) ++ spaces d)))
        (All-append (λ (z : ℕ). z ≢ 10) (x ∷ k) (spaces b) wk.1 (spaces-Without 10 b (omega arith)))
        (
          omega arith,
          All-append (λ (z : ℕ). z ≢ 10) (spaces c) ((y ∷ v) ++ spaces d)
              (spaces-Without 10 c (omega arith))
              (All-append (λ (z : ℕ). z ≢ 10) (y ∷ v) (spaces d) wv.1
                (spaces-Without 10 d (omega arith))),
        ))

line_fits : (l : ConfLine) → IsLine l → length (text_of l) < 511
line_fits (blank a) v = v
line_fits (comment a t) v = v.1
line_fits (setting a k b c u d) v = v.4

-- The loop reads the lines of a file, one buffer each.
pub read_buffers-printed :
    (fuel : ℕ) (ls : List ConfLine)
    → All IsLine ls
    → length ls < fuel
    → read_buffers fuel (printed ls) ≡ map (λ (l : ConfLine). text_of l ++ (10 ∷ [])) ls
read_buffers-printed zero ls w h = absurd (omega arith)
read_buffers-printed (suc fuel) [] w h = unfold read_buffers in refl
read_buffers-printed (suc fuel) (l ∷ ls) (v, w) h =
    read-line fuel (text_of l) (printed ls) (line-Without l v) (line_fits l v)
    ∙ ap (λ (r : List Bytes). (text_of l ++ (10 ∷ [])) ∷ r)
        (read_buffers-printed fuel ls w (omega arith))

pub length-printed : (ls : List ConfLine) → length ls ≤ length (printed ls)
length-printed [] = omega arith
length-printed (l ∷ ls) =
    omega (arith, length-append (text_of l) (10 ∷ printed ls), length-printed ls)
