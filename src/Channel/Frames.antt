-- ===== src/Channel/Frames.antt =====
-- What `recvLoop` makes of a stream of response frames, however the kernel cuts it.
use Prim.Native.Nat.{min}
use kim_rpc.Prelude.{
  ℕ, zero, suc, ◌+◌, ◌-◌, ◌%◌, ◌^◌, ◌≡◌, ◌≤◌, ◌<◌, refl, ap, sym, ◌∙◌, Bool, true, false, List, [],
  ◌∷◌, ◌++◌, Option, none, some, arith, inl, inr, Bytes, ltb, ltb→lt, ◌==◌, if◌then◌else◌, length,
  take, drop, All, Bool-cases, Option-cases, append_assoc, append-nil, length-append, length-take,
  length-drop, take-add, drop-add, take-append, drop-append,
}
use kim_rpc.Wire.{le_bytes, of_le, response_frame}
use kim_rpc.Wire.RoundTrip.{length-le_bytes, of_le-le_bytes4, of_le-le_bytes8}
use kim_rpc.Wire.Frames.{response_stream}
use kim_rpc.Channel.{KimRpcChannel, find, end_call}
use kim_rpc.Channel.Receive.{
  Socket, recv_loop_all, recv_all, after_body, after_id, after_size, Frame, recv_frame, dispatch,
  recv_end, recv_loop,
}

-- The kernel gives something at each `recv` until the stream is over.
abbrev pub Enough : Socket → Type 0
Enough s = All (λ (n : ℕ). 0 < n) s.sizes × (length s.stream ≤ length s.sizes)

-- What is left after `n` bytes were read.
abbrev Left : Bytes → Socket → Type 0
Left rest s = (s.stream ≡ rest) × Enough s

PartTaken : List ℕ → ℕ → Bytes → Bytes → Type 0
PartTaken sizes len got stream =
    (s : Socket) × (recv_loop_all sizes len got stream
      ≡ (some (got ++ take (len - length got) stream), s))
    × Left (drop (len - length got) stream) s

-- All was received.
taken-full :
    (sizes : List ℕ) (len : ℕ) (got stream : Bytes)
    → Enough (record { stream = stream; sizes = sizes })
    → length got ≡ len
    → recv_loop_all sizes len got stream ≡ (some got, record { stream = stream; sizes = sizes })
    → PartTaken sizes len got stream
unfolding PartTaken
taken-full sizes len got stream n q e =
    let k : len - length got ≡ 0 = omega (arith, q) in
    (
      record { stream = stream; sizes = sizes },
      e
          ∙ ap (λ (g : Bytes). (some g, record { stream = stream; sizes = sizes }))
              (sym (ap (λ (j : ℕ). got ++ take j stream) k ∙ append-nil got)),
      (ap (λ (j : ℕ). drop j stream) {x = 0} (sym k), n),
    )

-- `ret` bytes were received.
taken-more :
    (n ret : ℕ) (sizes : List ℕ) (len : ℕ) (got stream : Bytes)
    → length got + ret ≤ len
    → ret ≤ length stream
    → recv_loop_all (n ∷ sizes) len got stream
      ≡ recv_loop_all sizes len (got ++ take ret stream) (drop ret stream)
    → PartTaken sizes len (got ++ take ret stream) (drop ret stream)
    → PartTaken (n ∷ sizes) len got stream
unfolding PartTaken
taken-more n ret sizes len got stream a b e (s, f, (l, en)) =
    let k = len - length (got ++ take ret stream) in
    let q : ret + k ≡ len - length got =
      omega (arith, length-append got (take ret stream), length-take ret stream) in
    (
      s,
      e
          ∙ f
          ∙ ap (λ (g : Bytes). (some g, s))
              (append_assoc got (take ret stream) (take k (drop ret stream))
                ∙ ap (λ (g : Bytes). got ++ g)
                    (sym (take-add ret k stream) ∙ ap (λ (j : ℕ). take j stream) {x = ret + k} q)),
      (l ∙ sym (drop-add ret k stream) ∙ ap (λ (j : ℕ). drop j stream) {x = ret + k} q, en),
    )

recv_loop_all-takes :
    (sizes : List ℕ) (len : ℕ) (got stream : Bytes)
    → Enough (record { stream = stream; sizes = sizes })
    → length got ≤ len
    → len ≤ length got + length stream
    → PartTaken sizes len got stream
unfolding recv_loop_all
recv_loop_all-takes [] len got stream (p, h) a b =
    let t : ltb (length got) len ≡ false = ground arith in
    taken-full [] len got stream (p, h) (omega arith) (rw t refl)
recv_loop_all-takes (n ∷ sizes) len got stream ((z, p), h) a b =
    let ret = min n (min (len - length got) (length stream)) in
    elim (Bool-cases (ltb (length got) len)) [
      | inl t ↦
          let lt : length got < len = ltb→lt (length got) len t in
          let some_ : (ret == 0) ≡ false = ground (arith, lt) in
          taken-more n ret sizes len got stream (omega arith) (omega arith) (rw (t, some_) refl) (
            recv_loop_all-takes sizes len (got ++ take ret stream) (drop ret stream)
              (p, omega (arith, length-drop ret stream))
              (omega (arith, length-append got (take ret stream), length-take ret stream))
              (omega (
                arith,
                length-append got (take ret stream),
                length-take ret stream,
                length-drop ret stream,
              )))
      | inr t ↦ taken-full (n ∷ sizes) len got stream ((z, p), h) (ground (arith, t)) (rw t refl)
    ]

-- A part of the stream that is `len` bytes long.
recv_all-part :
    (len : ℕ) (xs ys : Bytes) (s : Socket)
    → Left (xs ++ ys) s
    → length xs ≡ len
    → (s' : Socket) × (recv_all len s ≡ (some xs, s')) × Left ys s'
unfolding recv_all PartTaken
recv_all-part len xs ys s (e, n) q =
    let (s', f, (l, n')) =
      recv_loop_all-takes s.sizes len [] s.stream n (omega arith)
        (omega (arith, ap length e, length-append xs ys, q)) in
    let zero_ : len - 0 ≡ len = omega arith in
    (
      s',
      f
          ∙ ap (λ (g : Bytes). (some g, s'))
              (ap (λ (j : ℕ). take j s.stream) zero_
                ∙ ap (take len) e
                ∙ take-append xs ys len (sym q)),
      (
        l ∙ ap (λ (j : ℕ). drop j s.stream) zero_ ∙ ap (drop len) e ∙ drop-append xs ys len (sym q),
        n',
      ),
    )

-- The three reads of one frame.
recv_frame-reads :
    (s s1 s2 s3 : Socket) (size id body : Bytes)
    → recv_all 4 s ≡ (some size, s1)
    → ltb (of_le size) 8 ≡ false
    → recv_all 8 s1 ≡ (some id, s2)
    → recv_all (of_le size - 8) s2 ≡ (some body, s3)
    → recv_frame s ≡ (some (record { id = of_le id; body = body }), s3)
unfolding recv_frame
recv_frame-reads s s1 s2 s3 size id body a b c d =
    ap after_size a
    ∙ ap (λ (t : Bool). if t then (none, s1) else after_id (of_le size) (recv_all 8 s1)) b
    ∙ ap (after_id (of_le size)) c
    ∙ ap (after_body (of_le id)) d

-- One frame of the provider.
recv_frame-response :
    (id : ℕ) (body rest : Bytes) (s : Socket)
    → Left (response_frame id body ++ rest) s
    → 8 + length body < 2 ^ 32
    → id < 2 ^ 64
    → (s' : Socket) × (recv_frame s ≡ (some (record { id = id; body = body }), s')) × Left rest s'
recv_frame-response id body rest s (e, n) hb hi =
    let size = (8 + length body) % 2 ^ 32 in
    let (s1, e1, l1) =
      recv_all-part 4 (le_bytes 4 size) (le_bytes 8 id ++ (body ++ rest)) s
        (e ∙ response_stream id body rest, n) (length-le_bytes 4 size) in
    let (s2, e2, l2) =
      recv_all-part 8 (le_bytes 8 id) (body ++ rest) s1 l1 (length-le_bytes 8 id) in
    let size_ : of_le (le_bytes 4 size) ≡ 8 + length body =
      of_le-le_bytes4 size (omega arith) ∙ omega (arith, hb) in
    let (s3, e3, l3) =
      recv_all-part (of_le (le_bytes 4 size) - 8) body rest s2 l2 (omega (arith, size_)) in
    (
      s3,
      recv_frame-reads s s1 s2 s3 (le_bytes 4 size) (le_bytes 8 id) body e1 (ground (arith, size_))
            e2 e3
          ∙ ap (λ (j : ℕ). (some (record { id = j; body = body }), s3)) (of_le-le_bytes8 id hi),
      l3,
    )

dispatch-running :
    (parse : ℕ → Bytes → Bool) (f : Frame) (c : KimRpcChannel)
    → (dispatch parse f c).m_running ≡ c.m_running
unfolding dispatch end_call
dispatch-running parse f c = elim (Option-cases (find f.id c.m_pending)) [
  | inl e ↦ rw (e, dispatch) refl
  | inr (p, e) ↦ rw (e, dispatch) refl
]

-- The stream that the provider's responses make, and the calls that they end, in turn.
abbrev pub responses : List Frame → Bytes
responses [] = []
responses (f ∷ fs) = response_frame f.id f.body ++ responses fs

abbrev pub dispatch_each : (ℕ → Bytes → Bool) → List Frame → KimRpcChannel → KimRpcChannel
dispatch_each parse [] c = c
dispatch_each parse (f ∷ fs) c = dispatch_each parse fs (dispatch parse f c)

-- The lengths and the ids fit their fields.
abbrev pub Fits : Frame → Type 0
Fits f = (8 + length f.body < 2 ^ 32) × (f.id < 2 ^ 64)

-- At the end of the stream no frame is read.
recv_all_over :
    (sizes : List ℕ) → recv_loop_all sizes 4 [] [] ≡ (none, (recv_loop_all sizes 4 [] []).1)
unfolding recv_loop_all
recv_all_over [] = refl
recv_all_over (n ∷ sizes) = let z : (min n (min (4 - 0) 0) == 0) ≡ true = ground arith in rw z refl

recv_frame_over : (s : Socket) → s.stream ≡ [] → (recv_frame s).0 ≡ none
unfolding recv_frame recv_all
recv_frame_over s e =
    ap (λ (r : Option Bytes × Socket). (after_size r).0)
      (ap (recv_loop_all s.sizes 4 []) e ∙ recv_all_over s.sizes)

module _ (parse : ℕ → Bytes → Bool) where
  -- The body of the loop, by the test of `m_running` and the frame that was read.
  abbrev loop_body : ℕ → Socket → KimRpcChannel → Option Frame × Socket → Bool → KimRpcChannel
  loop_body fuel s c r t =
      if t
      then elim r.0 [
        | none ↦ recv_end parse c
        | some g ↦ recv_loop parse fuel r.1 (dispatch parse g c)
      ]
      else recv_end parse c

  recv_loop_next :
      (fuel : ℕ) (s s' : Socket) (f : Frame) (c : KimRpcChannel)
      → c.m_running ≡ true
      → recv_frame s ≡ (some f, s')
      → recv_loop parse (suc fuel) s c ≡ recv_loop parse fuel s' (dispatch parse f c)
  unfolding recv_loop
  recv_loop_next fuel s s' f c h e =
      ap (loop_body fuel s c (recv_frame s)) h
      ∙ ap
          (λ (r : Option Frame × Socket). elim r.0 [
            | none ↦ recv_end parse c
            | some g ↦ recv_loop parse fuel r.1 (dispatch parse g c)
          ])
          e

  recv_loop_last :
      (fuel : ℕ) (s : Socket) (c : KimRpcChannel)
      → s.stream ≡ []
      → recv_loop parse (suc fuel) s c ≡ recv_end parse c
  unfolding recv_loop
  recv_loop_last fuel s c e = elim (Bool-cases c.m_running) [
    | inl h ↦
        ap (loop_body fuel s c (recv_frame s)) h
        ∙ ap
            (λ (o : Option Frame). elim o [
              | none ↦ recv_end parse c
              | some g ↦ recv_loop parse fuel (recv_frame s).1 (dispatch parse g c)
            ])
            (recv_frame_over s e)
    | inr h ↦ ap (loop_body fuel s c (recv_frame s)) h
  ]

-- `recvLoop` over the stream of any responses of the provider, however the kernel cuts it: each frame
-- goes to the call with its id, in the order of the stream, and at the end of the stream the loop ends
-- and fails the calls that are left. A frame's worth of fuel more than there are frames is enough.
pub recv_loop-responses :
    (parse : ℕ → Bytes → Bool) (fs : List Frame) (fuel : ℕ) (s : Socket) (c : KimRpcChannel)
    → All Fits fs
    → c.m_running ≡ true
    → length fs < fuel
    → s.stream ≡ responses fs
    → Enough s
    → recv_loop parse fuel s c ≡ recv_end parse (dispatch_each parse fs c)
recv_loop-responses parse fs zero s c a h l e n = absurd (omega arith)
recv_loop-responses parse [] (suc fuel) s c a h l e n = recv_loop_last parse fuel s c e
recv_loop-responses parse (f ∷ fs) (suc fuel) s c ((b, i), a) h l e n =
    let (s', q, (e', n')) = recv_frame-response f.id f.body (responses fs) s (e, n) b i in
    recv_loop_next parse fuel s s' f c h q
    ∙ recv_loop-responses parse fs fuel s' (dispatch parse f c) a (dispatch-running parse f c ∙ h)
        (omega arith) e' n'
