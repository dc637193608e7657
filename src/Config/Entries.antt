-- ===== src/Config/Entries.antt =====
-- The entries that `loadConfigFile` makes of the lines of a file that a person writes.
use kim_rpc.Prelude.{
  ℕ, zero, suc, ◌+◌, ◌≡◌, ◌≢◌, refl, ap, sym, ◌∙◌, false, List, [], ◌∷◌, ◌++◌, none, some, arith,
  Bytes, length, take, drop, take-append, drop-append, length-append, append_assoc, find_byte,
  Without, find_byte-first, All, All-append, map,
}
use kim_rpc.Config.{from_first, to_last, trim, before_feed, is_comment, entry_of}
use kim_rpc.Config.Lines.{first_value}
use kim_rpc.Config.Printed.{
  spaces, ConfLine, blank, comment, setting, text_of, IsWord, IsLine, value_of, spaces-Without,
}

from_first-spaces : (n x : ℕ) (s : Bytes) → x ≢ 32 → from_first (spaces n ++ (x ∷ s)) ≡ x ∷ s
unfolding from_first
from_first-spaces zero x s h = ground (arith, h)
from_first-spaces (suc n) x s h = from_first-spaces n x s h

to_last-spaces : (n : ℕ) → to_last (spaces n) ≡ []
unfolding to_last
to_last-spaces zero = refl
to_last-spaces (suc n) = rw (to_last-spaces n) refl

-- One more character in front of what is kept.
to_last-keeps : (c x : ℕ) (s t : Bytes) → to_last s ≡ x ∷ t → to_last (c ∷ s) ≡ c ∷ (x ∷ t)
unfolding to_last
to_last-keeps c x s t e = ground (arith, e)

to_last-word :
    (x : ℕ) (w : Bytes) (n : ℕ) → Without 32 (x ∷ w) → to_last ((x ∷ w) ++ spaces n) ≡ x ∷ w
to_last-word x [] n (h, v) = unfold to_last in ground (arith, h, to_last-spaces n)
to_last-word x (y ∷ w) n (h, v) = to_last-keeps x y ((y ∷ w) ++ spaces n) w (to_last-word y w n v)

to_last-feed : (x : ℕ) (s : Bytes) → to_last (x ∷ (s ++ (10 ∷ []))) ≡ x ∷ (s ++ (10 ∷ []))
to_last-feed x [] = to_last-keeps x 10 (10 ∷ []) [] (unfold to_last in refl)
to_last-feed x (y ∷ s) =
    to_last-keeps x y (y ∷ (s ++ (10 ∷ []))) (s ++ (10 ∷ [])) (to_last-feed y s)

trim-word : (a : ℕ) (w : Bytes) (d : ℕ) → IsWord w → trim (spaces a ++ (w ++ spaces d)) ≡ w
unfolding trim
trim-word a [] d v = elim v [ ]
trim-word a (x ∷ w) d ((h, u), v) =
    rw (from_first-spaces a x (w ++ spaces d) h, to_last-word x w d (h, u)) refl

trim-line :
    (a x : ℕ) (s : Bytes)
    → x ≢ 32
    → trim (spaces a ++ (x ∷ (s ++ (10 ∷ [])))) ≡ x ∷ (s ++ (10 ∷ []))
unfolding trim
trim-line a x s h = rw (from_first-spaces a x (s ++ (10 ∷ [])) h, to_last-feed x s) refl

trim-blank : (a : ℕ) → trim (spaces a ++ (10 ∷ [])) ≡ 10 ∷ []
unfolding trim to_last
trim-blank a = rw (from_first-spaces a 10 [] (omega arith)) refl

before_feed-at : (s : Bytes) (i : ℕ) → find_byte 10 s ≡ some i → before_feed s ≡ take i s
before_feed-at s i e = ground (arith, e)

before_feed-first : (s : Bytes) → Without 10 s → before_feed (s ++ (10 ∷ [])) ≡ s
before_feed-first s w =
    before_feed-at (s ++ (10 ∷ [])) (length s) (find_byte-first 10 s [] w)
    ∙ take-append s (10 ∷ []) (length s) refl

entry-found :
    (buf s : Bytes) (i : ℕ)
    → trim buf ≡ s
    → is_comment s ≡ false
    → find_byte 61 s ≡ some i
    → entry_of buf ≡ some (trim (take i s), trim (before_feed (drop (i + 1) s)))
unfolding entry_of
entry-found buf s i e n at = rw e (rw n (ground (arith, at)))

-- The entry of a trimmed line that is no comment and has a `=`.
entry-at :
    (buf p r : Bytes)
    → trim buf ≡ p ++ (61 ∷ (r ++ (10 ∷ [])))
    → is_comment (p ++ (61 ∷ (r ++ (10 ∷ [])))) ≡ false
    → Without 61 p
    → Without 10 r
    → entry_of buf ≡ some (trim p, trim r)
entry-at buf p r e n wp wr =
    let s = p ++ (61 ∷ (r ++ (10 ∷ []))) in
    let at = find_byte-first 61 p (r ++ (10 ∷ [])) wp in
    let key : take (length p) s ≡ p = take-append p (61 ∷ (r ++ (10 ∷ []))) (length p) refl in
    let value : drop (length p + 1) s ≡ r ++ (10 ∷ []) =
      ap (λ (l : Bytes). drop (length p + 1) l) (sym (append_assoc p (61 ∷ []) (r ++ (10 ∷ []))))
      ∙ drop-append (p ++ (61 ∷ [])) (r ++ (10 ∷ [])) (length p + 1)
          (omega (arith, length-append p (61 ∷ []))) in
    entry-found buf s (length p) e n at
    ∙ ap (λ (z : Bytes). some (trim z, trim (before_feed (drop (length p + 1) s)))) key
    ∙ ap (λ (z : Bytes). some (trim p, trim z)) (ap before_feed value ∙ before_feed-first r wr)

entry-setting :
    (a : ℕ) (k : Bytes) (b c : ℕ) (v : Bytes) (d : ℕ)
    → IsLine (setting a k b c v d)
    → entry_of (text_of (setting a k b c v d) ++ (10 ∷ [])) ≡ some (k, v)
entry-setting a [] b c v d (wk, nk, hk, wv, l) = elim wk [ ]
entry-setting a (x ∷ k) b c [] d (wk, nk, hk, wv, l) = elim wv [ ]
entry-setting a (x ∷ k) b c (y ∷ v) d (wk, nk, hk, wv, l) =
    let p = (x ∷ k) ++ spaces b in
    let r = spaces c ++ ((y ∷ v) ++ spaces d) in
    let whole : text_of (setting a (x ∷ k) b c (y ∷ v) d) ++ (10 ∷ [])
        ≡ spaces a ++ (x ∷ (((k ++ spaces b) ++ (61 ∷ r)) ++ (10 ∷ []))) =
      append_assoc (spaces a) (p ++ (61 ∷ r)) (10 ∷ []) in
    let line : x ∷ (((k ++ spaces b) ++ (61 ∷ r)) ++ (10 ∷ [])) ≡ p ++ (61 ∷ (r ++ (10 ∷ []))) =
      append_assoc p (61 ∷ r) (10 ∷ []) in
    let trimmed = ap trim whole ∙ trim-line a x ((k ++ spaces b) ++ (61 ∷ r)) wk.0.0 ∙ line in
    let no_feed : Without 10 r =
      All-append (λ (z : ℕ). z ≢ 10) (spaces c) ((y ∷ v) ++ spaces d)
        (spaces-Without 10 c (omega arith))
        (All-append (λ (z : ℕ). z ≢ 10) (y ∷ v) (spaces d) wv.1
          (spaces-Without 10 d (omega arith))) in
    let no_eq : Without 61 p =
      All-append (λ (z : ℕ). z ≢ 61) (x ∷ k) (spaces b) nk (spaces-Without 61 b (omega arith)) in
    entry-at (text_of (setting a (x ∷ k) b c (y ∷ v) d) ++ (10 ∷ [])) p r trimmed
      (ground (arith, hk)) no_eq no_feed
    ∙ ap (λ (z : Bytes). some (z, trim r)) (trim-word 0 (x ∷ k) b wk)
    ∙ ap (λ (z : Bytes). some (x ∷ k, z)) (trim-word c (y ∷ v) d wv)

entry-comment : (a : ℕ) (t : Bytes) → entry_of (text_of (comment a t) ++ (10 ∷ [])) ≡ none
unfolding entry_of
entry-comment a t =
    rw (append_assoc (spaces a) (35 ∷ t) (10 ∷ []), trim-line a 35 t (omega arith)) refl

entry-blank : (a : ℕ) → entry_of (text_of (blank a) ++ (10 ∷ [])) ≡ none
unfolding entry_of find_byte
entry-blank a = rw (trim-blank a) refl

-- The first value among the buffers is that of the first line that sets the key.
pub first_value-lines :
    (key : Bytes) (ls : List ConfLine)
    → All IsLine ls
    → first_value key (map (λ (l : ConfLine). text_of l ++ (10 ∷ [])) ls) ≡ value_of key ls
first_value-lines key [] w = refl
first_value-lines key (blank a ∷ ls) (v, w) = rw (entry-blank a) (first_value-lines key ls w)
first_value-lines key (comment a t ∷ ls) (v, w) =
    rw (entry-comment a t) (first_value-lines key ls w)
first_value-lines key (setting a k b c u d ∷ ls) (v, w) =
    rw (entry-setting a k b c u d v) (ground (arith, first_value-lines key ls w))
