-- ===== src/Etcd/Streaming.antt =====
-- The watch stream in chunks, and in lines.
use kim_rpc.Prelude.{
  ℕ, zero, suc, ◌+◌, ◌<◌, ◌≡◌, refl, ap, sym, ◌∙◌, false, List, [], ◌∷◌, ◌++◌, Option, none, some,
  Bytes, arith, ◌==◌, if◌then◌else◌, is_empty, find_byte, length, take, drop, length-drop,
  append-nil, append_assoc, Option-cases, Bool-cases, inl, inr, codes,
}
use mathlib.Core.List.{flatten}
use kim_rpc.Etcd.{Json}
use kim_rpc.Etcd.Watch.{
  WatchCtx, watch_event, handle_events, advance, advanced, events_of, handle_result,
  parse_watch_line, take_line, lines_loop, watch_write, write_all,
}

-- The whole lines of a text, and what follows the last of them.
cons_byte : ℕ → List Bytes × Bytes → List Bytes × Bytes
cons_byte c ([], r) = ([], c ∷ r)
cons_byte c (l ∷ ls, r) = ((c ∷ l) ∷ ls, r)

split : Bytes → List Bytes × Bytes
split [] = ([], [])
split (c ∷ s) = if c == 10 then ([] ∷ (split s).0, (split s).1) else cons_byte c (split s)

split-none : (s : Bytes) → find_byte 10 s ≡ none → split s ≡ ([], s)
unfolding split cons_byte find_byte
split-none [] e = refl
split-none (c ∷ s) e = elim (Option-cases (find_byte 10 s)) [
  | inl n ↦ ground (arith, e, n, split-none s n)
  | inr (i, n) ↦ ground (arith, e, n)
]

split-some :
    (s : Bytes) (i : ℕ)
    → find_byte 10 s ≡ some i
    → split s ≡ (take i s ∷ (split (drop (suc i) s)).0, (split (drop (suc i) s)).1)
unfolding split cons_byte find_byte
split-some [] i e = cc
split-some (c ∷ s) zero e = elim (Option-cases (find_byte 10 s)) [
  | inl n ↦ ground (arith, e, n)
  | inr (j, n) ↦ ground (arith, e, n)
]
split-some (c ∷ s) (suc i) e = elim (Option-cases (find_byte 10 s)) [
  | inl n ↦ ground (arith, e, n)
  | inr (j, n) ↦ ground (arith, e, n, split-some s i)
]

append-step :
    (c : ℕ) (p : List Bytes × Bytes) (b : Bytes)
    → (c == 10) ≡ false
    → cons_byte c (p.0 ++ (split (p.1 ++ b)).0, (split (p.1 ++ b)).1) ≡ (
      (cons_byte c p).0 ++ (split ((cons_byte c p).1 ++ b)).0,
      (split ((cons_byte c p).1 ++ b)).1,
    )
unfolding split cons_byte
append-step c ([], r) b e = rw e
append-step c (l ∷ ls, r) b e = refl

split-append :
    (a b : Bytes)
    → split (a ++ b) ≡ ((split a).0 ++ (split ((split a).1 ++ b)).0, (split ((split a).1 ++ b)).1)
unfolding split cons_byte
split-append [] b = refl
split-append (c ∷ a) b = elim (Bool-cases (c == 10)) [
  | inl e ↦ rw e (
      ap (λ (p : List Bytes × Bytes). let q : List Bytes × Bytes = ([] ∷ p.0, p.1) in q)
        (split-append a b))
  | inr e ↦ rw e (ap (cons_byte c) (split-append a b) ∙ append-step c (split a) b e)
]

abbrev set_buf : Bytes → WatchCtx → WatchCtx
set_buf b ctx = record ctx { buf = b }

abbrev with_buf : Bytes → Option WatchCtx → Option WatchCtx
with_buf b none = none
with_buf b (some ctx) = some (set_buf b ctx)

abbrev next {ℓ} : {A : Type ℓ} → Option A → (A → Option WatchCtx) → Option WatchCtx
next none f = none
next (some ctx) f = f ctx

both :
    (r : Option WatchCtx) {f g : WatchCtx → Option WatchCtx}
    → ((c : WatchCtx) → f c ≡ g c)
    → next r f ≡ next r g
both none h = refl
both (some c) h = h c

next_assoc :
    (r : Option WatchCtx) (f g : WatchCtx → Option WatchCtx)
    → next (next r f) g ≡ next r (λ c. next (f c) g)
next_assoc none f g = refl
next_assoc (some c) f g = refl

find_byte-lt : (s : Bytes) (i : ℕ) → find_byte 10 s ≡ some i → i < length s
unfolding find_byte
find_byte-lt [] i e = cc
find_byte-lt (c ∷ s) i e = elim (Option-cases (find_byte 10 s)) [
  | inl n ↦ ground (arith, e, n)
  | inr (j, n) ↦ ground (arith, e, n, find_byte-lt s j n)
]

module _ (J : Json) where
  open J use {Value}

  handle_events-buf :
      (evs : List Value) (b : Bytes) (ctx : WatchCtx)
      → handle_events J evs (set_buf b ctx) ≡ with_buf b (handle_events J evs ctx)
  unfolding handle_events
  handle_events-buf [] b ctx = refl
  handle_events-buf (ev ∷ evs) b ctx = elim (Option-cases (watch_event J ev)) [
    | inl e ↦ ground (arith, e)
    | inr (w, e) ↦
        ground (arith, e, handle_events-buf evs b (record ctx { events = ctx.events ++ (w ∷ []) }))
  ]

  advance-buf :
      (result : Value) (b : Bytes) (ctx : WatchCtx)
      → advance J result (set_buf b ctx) ≡ set_buf b (advance J result ctx)
  unfolding advance
  advance-buf result b ctx = ground arith

  advanced-buf :
      (result : Value) (b : Bytes) (r : Option WatchCtx)
      → advanced J result (with_buf b r) ≡ with_buf b (advanced J result r)
  advanced-buf result b none = refl
  advanced-buf result b (some ctx) = ap some (advance-buf result b ctx)

  handle_result-buf :
      (result : Value) (b : Bytes) (ctx : WatchCtx)
      → handle_result J result (set_buf b ctx) ≡ with_buf b (handle_result J result ctx)
  unfolding handle_result
  handle_result-buf result b ctx = elim (Option-cases (events_of J result)) [
    | inl e ↦ ground (arith, e)
    | inr (evs, e) ↦
        ground
          (arith, e, handle_events-buf evs b ctx, advanced-buf result b (handle_events J evs ctx))
  ]

  -- The parser does not look at the buffer.
  parse-buf :
      (line b : Bytes) (ctx : WatchCtx)
      → parse_watch_line J line (set_buf b ctx) ≡ with_buf b (parse_watch_line J line ctx)
  unfolding parse_watch_line
  parse-buf line b ctx = elim (Option-cases (J.parse line)) [
    | inl e ↦ ground (arith, e)
    | inr (root, e) ↦ elim (Option-cases (J.find (codes "result") root)) [
      | inl f ↦ ground (arith, e, f)
      | inr (result, f) ↦ ground (arith, e, f, handle_result-buf result b ctx)
    ]
  ]

  take_line-buf :
      (line b : Bytes) (ctx : WatchCtx)
      → take_line J line (set_buf b ctx) ≡ with_buf b (take_line J line ctx)
  take_line-buf line b ctx = elim (Bool-cases (is_empty line)) [
    | inl e ↦ rw e
    | inr e ↦ rw e (parse-buf line b ctx)
  ]

  -- The lines one after the other.
  feed : List Bytes → WatchCtx → Option WatchCtx
  feed [] ctx = some ctx
  feed (l ∷ ls) ctx = next (take_line J l ctx) (feed ls)

  feed-buf :
      (ls : List Bytes) (b : Bytes) (ctx : WatchCtx)
      → feed ls (set_buf b ctx) ≡ with_buf b (feed ls ctx)
  unfolding feed
  feed-buf [] b ctx = refl
  feed-buf (l ∷ ls) b ctx = elim (Option-cases (take_line J l ctx)) [
    | inl e ↦ rw (take_line-buf l b ctx, e)
    | inr (ctx', e) ↦ rw (take_line-buf l b ctx, e) (feed-buf ls b ctx')
  ]

  feed-append :
      (ls ms : List Bytes) (ctx : WatchCtx) → feed (ls ++ ms) ctx ≡ next (feed ls ctx) (feed ms)
  unfolding feed
  feed-append [] ms ctx = refl
  feed-append (l ∷ ls) ms ctx = elim (Option-cases (take_line J l ctx)) [
    | inl e ↦ rw e
    | inr (ctx', e) ↦ rw e (feed-append ls ms ctx')
  ]

  -- What a text does: its whole lines are parsed, and the rest waits in the buffer.
  consume : Bytes → WatchCtx → Option WatchCtx
  consume s ctx = with_buf (split s).1 (feed (split s).0 ctx)

  with_buf-twice : (b c : Bytes) (r : Option WatchCtx) → with_buf b (with_buf c r) ≡ with_buf b r
  with_buf-twice b c none = refl
  with_buf-twice b c (some ctx) = refl

  consume-buf : (s b : Bytes) (ctx : WatchCtx) → consume s (set_buf b ctx) ≡ consume s ctx
  unfolding consume
  consume-buf s b ctx =
      ap (with_buf (split s).1) (feed-buf (split s).0 b ctx)
      ∙ with_buf-twice (split s).1 b (feed (split s).0 ctx)

  -- The loop of `watchWrite` is `consume`, with more rounds than bytes.
  lines_loop-consume :
      (fuel : ℕ) (s : Bytes) (ctx : WatchCtx)
      → length s < fuel
      → lines_loop J fuel (set_buf s ctx) ≡ consume s ctx
  unfolding lines_loop consume feed
  lines_loop-consume zero s ctx h = absurd (omega arith)
  lines_loop-consume (suc fuel) s ctx h = elim (Option-cases (find_byte 10 s)) [
    | inl e ↦ ground (arith, e, split-none s e)
    | inr (i, e) ↦
        let rest : drop (i + 1) s ≡ drop (suc i) s =
          ap (λ (k : ℕ). drop k s) {y = suc i} (omega arith) in
        let short : length (drop (suc i) s) < fuel =
          omega (arith, length-drop (suc i) s, find_byte-lt s i e) in
        elim (Option-cases (take_line J (take i s) ctx)) [
          | inl n ↦
              ground
                (arith, e, n, rest, split-some s i e, take_line-buf (take i s) (drop (suc i) s) ctx)
          | inr (c, n) ↦ ground (
            arith,
            e,
            n,
            rest,
            split-some s i e,
            take_line-buf (take i s) (drop (suc i) s) ctx,
            lines_loop-consume fuel (drop (suc i) s) c short,
          )
        ]
  ]

  consume-append :
      (a b : Bytes) (ctx : WatchCtx)
      → consume (a ++ b) ctx ≡ next (consume a ctx) (λ ctx'. consume (ctx'.buf ++ b) ctx')
  unfolding consume
  consume-append a b ctx =
      let rest = split ((split a).1 ++ b) in
      rw (split-append a b, feed-append (split a).0 rest.0 ctx)
        (elim (Option-cases (feed (split a).0 ctx)) [
          | inl e ↦ rw e
          | inr (c, e) ↦ rw e (sym (consume-buf ((split a).1 ++ b) (split a).1 c))
        ])

  write-consume :
      (chunk : Bytes) (chunks : List Bytes) (ctx : WatchCtx)
      → write_all J (chunk ∷ chunks) ctx
        ≡ next (consume (ctx.buf ++ chunk) ctx) (write_all J chunks)
  unfolding write_all watch_write
  write-consume chunk chunks ctx =
      let run =
        lines_loop-consume (suc (length (ctx.buf ++ chunk))) (ctx.buf ++ chunk) ctx (omega arith) in
      elim (Option-cases (consume (ctx.buf ++ chunk) ctx)) [
        | inl e ↦ ground (arith, e, run)
        | inr (c, e) ↦ ground (arith, e, run)
      ]

-- However the transport cuts what a connection delivers into chunks, the watch stream has the effect
-- of the same bytes in one chunk: the same events in the same order, the same revision, the same rest
-- in the buffer, and an exception in the one case exactly when in the other.
pub write_all-one_chunk :
    (J : Json) (chunk : Bytes) (chunks : List Bytes) (ctx : WatchCtx)
    → write_all J (chunk ∷ chunks) ctx ≡ write_all J ((chunk ++ flatten chunks) ∷ []) ctx
unfolding flatten
write_all-one_chunk J chunk [] ctx =
    ap (λ (c : Bytes). write_all J (c ∷ []) ctx) (sym (append-nil chunk))
write_all-one_chunk J chunk (d ∷ ds) ctx =
    write-consume J chunk (d ∷ ds) ctx
    ∙ both (consume J (ctx.buf ++ chunk) ctx)
        (λ c. write_all-one_chunk J d ds c ∙ write-consume J (d ++ flatten ds) [] c)
    ∙ sym (next_assoc (consume J (ctx.buf ++ chunk) ctx) _ (write_all J []))
    ∙ ap (λ (r : Option WatchCtx). next r (write_all J []))
        (sym (consume-append J (ctx.buf ++ chunk) (d ++ flatten ds) ctx)
          ∙ ap (λ (t : Bytes). consume J t ctx) (append_assoc ctx.buf chunk (d ++ flatten ds)))
    ∙ sym (write-consume J (chunk ++ flatten (d ∷ ds)) [] ctx)
