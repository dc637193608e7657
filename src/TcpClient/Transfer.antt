-- ===== src/TcpClient/Transfer.antt =====
-- What `WriteAll` and `ReadExact` transfer.
use kim_rpc.Prelude.{
  ℕ, ◌+◌, ◌-◌, ◌≤◌, ◌≡◌, refl, ap, sym, ◌∙◌, ◌≢◌, ◌⊎◌, inl, inr, Bool, List, [], ◌∷◌, ◌++◌, some,
  arith, Bytes, length, take, drop, take-add, take-all, take-append, take-append_split,
  take-take_append, length-append, length-take, append_assoc, append-nil, Option-cases, codes,
}
use kim_rpc.TcpClient.{
  Answer, bytes, Result, ok, err, done, waiting, UringTcpClient, wait_uring_result,
}
use kim_rpc.TcpClient.Blocking.{write_loop, write_all, read_loop, read_exact}

Result-cases : {A : Type 0} (r : Result A) → ((a : A) × (r ≡ ok a)) ⊎ ((e : Bytes) × (r ≡ err e))
Result-cases (ok a) = inl (a, refl)
Result-cases (err e) = inr (e, refl)

-- The bytes that the script's completions give.
abbrev pub stream : List Answer → Bytes
stream [] = []
stream (a ∷ as_) = bytes a.completion ++ stream as_

module _ (strerror : ℕ → Bytes) (valid_ip : Bytes → Bool) where
  write_loop-whole :
      (script : List Answer) (text : Bytes) (written : ℕ) (out r : Bytes)
      → out ≡ take written text
      → write_loop strerror valid_ip script text written out ≡ done r
      → r ≡ text
  unfolding write_loop
  write_loop-whole [] text written out r i e = ground (arith, take-all text written)
  write_loop-whole (a ∷ as_) text written out r i e =
      elim (Result-cases (wait_uring_result strerror (codes "send") a)) [
        | inl (n, w) ↦ ground (
          arith,
          w,
          take-all text written,
          take-add written n text,
          write_loop-whole as_ text (written + n) (out ++ take n (drop written text)) r,
        )
        | inr (x, w) ↦ ground (arith, w, take-all text written)
      ]

  -- With a completion for each byte that is left the loop returns.
  write_loop-returns :
      (script : List Answer) (text : Bytes) (written : ℕ) (out : Bytes)
      → length text ≤ written + length script
      → write_loop strerror valid_ip script text written out ≢ waiting
  unfolding write_loop
  write_loop-returns [] text written out h e = ground arith
  write_loop-returns (a ∷ as_) text written out h e =
      elim (Result-cases (wait_uring_result strerror (codes "send") a)) [
        | inl (n, w) ↦ ground (
          arith,
          w,
          write_loop-returns as_ text (written + n) (out ++ take n (drop written text)),
        )
        | inr (x, w) ↦ ground (arith, w)
      ]

  -- What a read keeps of the bytes that came, for the rest of the stream.
  take-got :
      (len : ℕ) (got b rest : Bytes)
      → take len ((got ++ take (len - length got) b) ++ rest) ≡ take len (got ++ (b ++ rest))
  take-got len got b rest =
      ap (take len) (append_assoc got (take (len - length got) b) rest)
      ∙ take-append_split got (take (len - length got) b ++ rest) len
      ∙ ap (λ (l : Bytes). take len got ++ l) (take-take_append (len - length got) b rest)
      ∙ sym (take-append_split got (b ++ rest) len)

  read_loop-stream :
      (script : List Answer) (len : ℕ) (got r : Bytes)
      → length got ≤ len
      → read_loop strerror valid_ip script len got ≡ done r
      → (length r ≡ len) × (r ≡ take len (got ++ stream script))
  unfolding read_loop
  read_loop-stream [] len got r h e = ground (arith, take-all got len, append-nil got)
  read_loop-stream (a ∷ as_) len got r h e =
      let b = bytes a.completion in
      let got' = got ++ take (len - length got) b in
      let full : length got ≡ len → take len (got ++ (b ++ stream as_)) ≡ got =
        (λ (q : length got ≡ len). take-append got (b ++ stream as_) len (sym q)) in
      let fits : length got' ≤ len =
        omega (
          arith,
          length-append got (take (len - length got) b),
          length-take (len - length got) b,
        ) in
      elim (Result-cases (wait_uring_result strerror (codes "recv") a)) [
        | inl (n, w) ↦
            ground (
              arith,
              w,
              full,
              take-got len got b (stream as_),
              read_loop-stream as_ len got' r fits,
            )
        | inr (x, w) ↦ ground (arith, w, full)
      ]

-- `WriteAll` over a socket that is connected, with a completion for every byte at the least, returns:
-- an error, or success with exactly the given bytes sent, in order and once each.
pub write_all-whole :
    (strerror : ℕ → Bytes) (valid_ip : Bytes → Bool) (script : List Answer) (text : Bytes)
    (c : UringTcpClient) (fd : ℕ)
    → c.m_fd ≡ some fd
    → length text ≤ length script
    → (write_all strerror valid_ip script text c ≢ waiting)
      × ((r : Bytes) → write_all strerror valid_ip script text c ≡ done r → r ≡ text)
unfolding write_all
write_all-whole strerror valid_ip script text c fd e h = rw e (
  write_loop-returns strerror valid_ip script text 0 [] (omega arith),
  λ r q. write_loop-whole strerror valid_ip script text 0 [] r refl q,
)

-- A successful `ReadExact` gives exactly the requested number of bytes, the first ones of the stream
-- that the kernel delivers, whatever pieces it delivers them in.
pub read_exact-stream :
    (strerror : ℕ → Bytes) (valid_ip : Bytes → Bool) (script : List Answer) (len : ℕ)
    (c : UringTcpClient) (r : Bytes)
    → read_exact strerror valid_ip script len c ≡ done r
    → (length r ≡ len) × (r ≡ take len (stream script))
unfolding read_exact
read_exact-stream strerror valid_ip script len c r e = elim (Option-cases c.m_fd) [
  | inr (fd, q) ↦
      read_loop-stream strerror valid_ip script len [] r (omega arith) (ground (arith, q, e))
  | inl q ↦ ground (arith, q)
]
