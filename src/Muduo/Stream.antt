-- ===== src/Muduo/Stream.antt =====
-- What `onMessage` of src/provider.cc makes of a stream of requests.
use kim_rpc.Prelude.{
  ℕ, zero, suc, ◌+◌, ◌^◌, ◌%◌, ◌<◌, ◌≤◌, ◌≡◌, refl, ap, sym, ◌∙◌, ◌≢◌, true, false, List, [], ◌∷◌,
  ◌++◌, none, some, arith, inl, inr, All, Bytes, ltb, length, take, drop, substr, lookup,
  length-append, length-drop, append_assoc, append-nil, Bool-cases, Option-cases,
}
use kim_rpc.Wire.{RpcHeader, ReadsBack, of_le, le_bytes, request_frame}
use kim_rpc.Wire.RoundTrip.{length-le_bytes}
use kim_rpc.Wire.Frames.{
  request-length, request-header_size, request-header, request-args, request-rest,
}
use kim_rpc.Reactor.{ServiceInfo, Rpc}
use kim_rpc.Reactor.Request.{find_method}
use kim_rpc.Muduo.{ServiceCall, Connection, calls_for, retrieved, on_message_loop, on_message}

-- A request: its header, as protobuf wrote it, and its arguments; it need not be for a method that
-- exists.
pub record Request : Type 0 where
  pub header : RpcHeader
  pub header_bytes : Bytes
  pub args : Bytes

pub record IsWritten (rpc : Rpc) (r : Request) : Type 0 where
  pub written : rpc.codec.serialize r.header ≡ some r.header_bytes
  pub header_fits : length r.header_bytes < 2 ^ 32
  pub size_of_args : r.header.args_size ≡ length r.args
  pub args_fit : length r.args < 2 ^ 32
  pub id_fits : r.header.request_id < 2 ^ 64

abbrev pub stream : List Request → Bytes → Bytes
stream [] tail = tail
stream (r ∷ rs) tail = request_frame r.header_bytes r.args ++ stream rs tail

abbrev pub calls_of : Rpc → List (Bytes × ServiceInfo) → List Request → List ServiceCall
calls_of rpc services [] = []
calls_of rpc services (r ∷ rs) = calls_for rpc services r.header r.args ++ calls_of rpc services rs

-- A frame has a byte.
frame_some : (header args : Bytes) → 1 ≤ length (request_frame header args)
unfolding request_frame
frame_some header args =
    let size = length header % 2 ^ 32 in
    omega (arith, length-append (le_bytes 4 size) (header ++ args), length-le_bytes 4 size)

module _ (rpc : Rpc) (services : List (Bytes × ServiceInfo)) where
  one_frame :
      (fuel : ℕ) (r : Request) (rest : Bytes) (c : Connection)
      → ReadsBack rpc.codec
      → IsWritten rpc r
      → c.buffer ≡ request_frame r.header_bytes r.args ++ rest
      → on_message_loop rpc services (suc fuel) c
        ≡ on_message_loop rpc services fuel
            (record c { buffer = rest; calls = c.calls ++ calls_for rpc services r.header r.args })
  unfolding on_message_loop
  one_frame fuel r rest c back w e =
      let n = length r.header_bytes in
      let size = request-header_size r.header_bytes r.args rest c.buffer e w.header_fits in
      let long = request-length r.header_bytes r.args rest c.buffer e in
      let parsed : rpc.codec.parse (substr c.buffer 4 n) ≡ some r.header =
        ap rpc.codec.parse (request-header r.header_bytes r.args rest c.buffer e)
        ∙ back r.header r.header_bytes (omega (arith, w.size_of_args, w.args_fit)) w.id_fits
            w.written in
      let a : ltb (length c.buffer) 4 ≡ false = ground (arith, long) in
      let b : ltb (length c.buffer) (4 + n) ≡ false = ground (arith, long) in
      let d : ltb (length c.buffer) (4 + n + r.header.args_size) ≡ false =
        ground (arith, long, w.size_of_args) in
      let cut : drop (4 + n + r.header.args_size) c.buffer ≡ rest =
        ap (λ (k : ℕ). drop (4 + n + k) c.buffer) w.size_of_args
        ∙ request-rest r.header_bytes r.args rest c.buffer e in
      let args_ : substr c.buffer (4 + n) r.header.args_size ≡ r.args =
        ap (λ (k : ℕ). substr c.buffer (4 + n) k) w.size_of_args
        ∙ request-args r.header_bytes r.args rest c.buffer e in
      rw (size, a, b, parsed, size, d, size)
        (ap
            (λ (t : Bytes). on_message_loop rpc services fuel (record c {
              buffer = t;
              calls =
                  c.calls
                  ++ calls_for rpc services r.header (substr c.buffer (4 + n) r.header.args_size);
            }))
            cut
          ∙ ap
              (λ (t : Bytes).
                on_message_loop rpc services fuel (record c {
                  buffer = rest;
                  calls = c.calls ++ calls_for rpc services r.header t;
                }))
              args_)

  frames :
      (rs : List Request) (fuel : ℕ) (tail : Bytes) (c : Connection)
      → ReadsBack rpc.codec
      → All (IsWritten rpc) rs
      → c.buffer ≡ stream rs tail
      → on_message_loop rpc services (length rs + fuel) c
        ≡ on_message_loop rpc services fuel
            (record c { buffer = tail; calls = c.calls ++ calls_of rpc services rs })
  frames [] fuel tail c back w e =
      ap (λ (k : ℕ). on_message_loop rpc services k c) {y = fuel} (omega arith)
      ∙ ap (λ (t : Bytes). on_message_loop rpc services fuel (record c { buffer = t })) e
      ∙ ap
          (λ (t : List ServiceCall).
            on_message_loop rpc services fuel (record c { buffer = tail; calls = t }))
          (sym (append-nil c.calls))
  frames (r ∷ rs) fuel tail c back (w, ws) e =
      let calls' = c.calls ++ calls_for rpc services r.header r.args in
      ap (λ (k : ℕ). on_message_loop rpc services k c) {y = suc (length rs + fuel)} (omega arith)
      ∙ one_frame (length rs + fuel) r (stream rs tail) c back w e
      ∙ frames rs fuel tail (record c { buffer = stream rs tail; calls = calls' }) back ws refl
      ∙ ap
          (λ (t : List ServiceCall).
            on_message_loop rpc services fuel (record c { buffer = tail; calls = t }))
          (append_assoc c.calls (calls_for rpc services r.header r.args) (calls_of rpc services rs))

  loop-returns :
      (fuel : ℕ) (c : Connection)
      → length c.buffer < fuel
      → on_message_loop rpc services fuel c ≢ none
  unfolding on_message_loop
  loop-returns zero c h e = omega arith
  loop-returns (suc fuel) c h e =
      let size = of_le (take 4 c.buffer) in
      elim (Bool-cases (ltb (length c.buffer) 4)) [
        | inl a ↦ ground (arith, a)
        | inr a ↦ elim (Bool-cases (ltb (length c.buffer) (4 + size))) [
          | inl b ↦ ground (arith, a, b)
          | inr b ↦ elim (Option-cases (rpc.codec.parse (substr c.buffer 4 size))) [
            | inl p ↦ ground (arith, a, b, p)
            | inr (q, p) ↦ elim (Bool-cases (ltb (length c.buffer) (4 + size + q.args_size))) [
              | inl d ↦ ground (arith, a, b, p, d)
              | inr d ↦
                  loop-returns fuel (retrieved rpc services (4 + size) q c)
                    (ground (arith, length-drop (4 + size + q.args_size) c.buffer, a, h))
                    (ground (arith, a, b, p, d, e))
            ]
          ]
        ]
      ]

-- Any two rounds' budgets beyond the length of the buffer do alike.
loop_enough :
    (rpc : Rpc) (services : List (Bytes × ServiceInfo)) (f g : ℕ) (c : Connection)
    → length c.buffer < f
    → length c.buffer < g
    → on_message_loop rpc services f c ≡ on_message_loop rpc services g c
unfolding on_message_loop
loop_enough rpc services zero g c h k = absurd (omega arith)
loop_enough rpc services (suc f) zero c h k = absurd (omega arith)
loop_enough rpc services (suc f) (suc g) c h k =
    let size = of_le (take 4 c.buffer) in
    elim (Bool-cases (ltb (length c.buffer) 4)) [
      | inl a ↦ rw a refl
      | inr a ↦ elim (Bool-cases (ltb (length c.buffer) (4 + size))) [
        | inl b ↦ rw (a, b) refl
        | inr b ↦ elim (Option-cases (rpc.codec.parse (substr c.buffer 4 size))) [
          | inl p ↦ rw (a, b, p) refl
          | inr (q, p) ↦ elim (Bool-cases (ltb (length c.buffer) (4 + size + q.args_size))) [
            | inl d ↦ rw (a, b, p, d) refl
            | inr d ↦
                let shorter = length-drop (4 + size + q.args_size) c.buffer in
                rw (a, b, p, d)
                  (loop_enough rpc services f g (retrieved rpc services (4 + size) q c)
                    (ground (arith, shorter, a, h)) (ground (arith, shorter, a, k)))
          ]
        ]
      ]
    ]

-- What the requests ask for: a request of a service and a method that exist, whose arguments parse, asks
-- for one call of that method, with the arguments and tagged with the request's id; any other asks
-- for none.
pub data AsksFor (rpc : Rpc) (services : List (Bytes × ServiceInfo))
    : List Request → List ServiceCall → Type 0 where
  none_left : AsksFor rpc services [] []
  served :
      (r : Request) (rs : List Request) (cs : List ServiceCall) (service method : ℕ)
      → find_method (lookup r.header.service_name services) r.header.method_name
        ≡ some (service, method)
      → rpc.parses_request method r.args ≡ true
      → AsksFor rpc services rs cs
      → AsksFor rpc services (r ∷ rs) (
          record {
            service = service;
            method = method;
            request_id = r.header.request_id;
            request = r.args;
          }
          ∷ cs)
  unknown :
      (r : Request) (rs : List Request) (cs : List ServiceCall)
      → find_method (lookup r.header.service_name services) r.header.method_name ≡ none
      → AsksFor rpc services rs cs
      → AsksFor rpc services (r ∷ rs) cs
  unreadable :
      (r : Request) (rs : List Request) (cs : List ServiceCall) (service method : ℕ)
      → find_method (lookup r.header.service_name services) r.header.method_name
        ≡ some (service, method)
      → rpc.parses_request method r.args ≡ false
      → AsksFor rpc services rs cs
      → AsksFor rpc services (r ∷ rs) cs

asked-calls :
    {rpc : Rpc} {services : List (Bytes × ServiceInfo)} {rs : List Request} {cs : List ServiceCall}
    → AsksFor rpc services rs cs
    → calls_of rpc services rs ≡ cs
asked-calls none_left = refl
asked-calls (served r rs cs service method e p a) = rw (e, p, asked-calls a) refl
asked-calls (unknown r rs cs e a) = rw (e, asked-calls a) refl
asked-calls (unreadable r rs cs service method e p a) = rw (e, p, asked-calls a) refl

stream-length :
    (rs : List Request) (tail : Bytes) → length rs + length tail ≤ length (stream rs tail)
stream-length [] tail = omega arith
stream-length (r ∷ rs) tail = omega (
  arith,
  stream-length rs tail,
  length-append (request_frame r.header_bytes r.args) (stream rs tail),
  frame_some r.header_bytes r.args,
)

-- `onMessage` on whole request frames, as the client writes them, and any bytes after them: it calls the
-- method of each request whose service and method exist and whose arguments parse, once, with its
-- arguments and its id, in the order of the frames, and skips the others; it takes exactly the frames
-- off the buffer, and goes on with the bytes after them as it does where they come alone.
pub on_message-stream :
    (rpc : Rpc) (services : List (Bytes × ServiceInfo)) (rs : List Request) (cs : List ServiceCall)
    (tail : Bytes) (c : Connection)
    → ReadsBack rpc.codec
    → All (IsWritten rpc) rs
    → AsksFor rpc services rs cs
    → c.buffer ≡ stream rs tail
    → on_message rpc services c
      ≡ on_message rpc services (record c { buffer = tail; calls = c.calls ++ cs })
unfolding on_message
on_message-stream rpc services rs cs tail c back w a e =
    let n = suc (length c.buffer) in
    let long = stream-length rs tail in
    let after : Connection = record c { buffer = tail; calls = c.calls ++ cs } in
    loop_enough rpc services n (length rs + n) c (omega arith) (omega arith)
    ∙ frames rpc services rs n tail c back w e
    ∙ ap
        (λ (l : List ServiceCall).
          on_message_loop rpc services n (record c { buffer = tail; calls = c.calls ++ l }))
        (asked-calls a)
    ∙ loop_enough rpc services n (suc (length tail)) after (omega (arith, ap length e, long))
        (omega arith)

-- `onMessage` returns on every buffer.
pub on_message-returns :
    (rpc : Rpc) (services : List (Bytes × ServiceInfo)) (c : Connection)
    → on_message rpc services c ≢ none
unfolding on_message
on_message-returns rpc services c =
    loop-returns rpc services (suc (length c.buffer)) c (omega arith)
