-- ===== src/UringChannel/Response.antt =====
-- The response frame as `CallMethod` of src/uringchannel.cc reads it.
use kim_rpc.Prelude.{
  ℕ, ◌+◌, ◌%◌, ◌^◌, ◌<◌, ◌≡◌, refl, ap, sym, ◌∙◌, Bool, true, [], codes, find_byte, stoi, ℤ,
  if◌then◌else◌, take-append, drop-append, ◌++◌, Option, none, some, arith, inl, inr, Bytes, length,
  take, drop, take-all, length-append, ltb, Bool-cases,
}
use kim_rpc.Wire.{HeaderCodec, le_bytes, of_le, request_frame, response_frame}
use kim_rpc.Wire.RoundTrip.{length-le_bytes, of_le-le_bytes4, take-le_bytes, drop-le_bytes}
use kim_rpc.Discovery.{Address, found}
use kim_rpc.TcpClient.{Result, ok, err, Call, done, failed, waiting, UringTcpClient}
use kim_rpc.TcpClient.Blocking.{write_all, read_exact, connect}
use kim_rpc.TcpClient.Transfer.{stream, read_exact-stream}
use kim_rpc.UringChannel.{
  World, answered, parse_body, after_body, read_body, after_size, after_write, after_connect,
  after_port, after_colon, after_address, after_header, call_method,
}

module _ (strerror : ℕ → Bytes) (valid_ip : Bytes → Bool) (parse : Bytes → Bool)
    (codec : HeaderCodec) where
  -- What a call answers with was read as the body, after a size.
  BodyRead : World → Bytes → Type 0
  BodyRead w r =
      (c : UringTcpClient) × (size : Bytes) × (read_exact strerror valid_ip w.size_reads 4 c
        ≡ done size)
      × (read_body strerror valid_ip parse codec w c (of_le size) ≡ answered r)

  reads-size :
      (w : World) (c : UringTcpClient) (o : Call Bytes) (r : Bytes)
      → read_exact strerror valid_ip w.size_reads 4 c ≡ o
      → after_size strerror valid_ip parse codec w c o ≡ answered r
      → BodyRead w r
  unfolding BodyRead
  reads-size w c (done size) r q e = (c, size, q, e)
  reads-size w c (failed x) r q e = ground arith
  reads-size w c waiting r q e = ground arith

  reads-write :
      (w : World) (c : UringTcpClient) (o : Call Bytes) (r : Bytes)
      → after_write strerror valid_ip parse codec w c o ≡ answered r
      → BodyRead w r
  reads-write w c (done out) r e =
      reads-size w c (read_exact strerror valid_ip w.size_reads 4 c) r refl e
  reads-write w c (failed x) r e = ground arith
  reads-write w c waiting r e = ground arith

  reads-connect :
      (w : World) (frame : Bytes) (o : Result (Unit {0})) (c : UringTcpClient) (r : Bytes)
      → after_connect strerror valid_ip parse codec w frame (o, c) ≡ answered r
      → BodyRead w r
  reads-connect w frame (ok u) c r e =
      reads-write w c (write_all strerror valid_ip w.writes frame c) r e
  reads-connect w frame (err x) c r e = ground arith

  reads-port :
      (w : World) (frame ip : Bytes) (o : Option ℤ) (r : Bytes)
      → after_port strerror valid_ip parse codec w frame ip o ≡ answered r
      → BodyRead w r
  reads-port w frame ip none r e = ground arith
  reads-port w frame ip (some port) r e =
      let a =
        connect strerror valid_ip ip w.socket w.errno w.connects
          (record { m_fd = none; m_ring_ready = w.ring_ready; closed = [] }) in
      reads-connect w frame a.0 a.1 r e

  reads-colon :
      (w : World) (name frame host : Bytes) (o : Option ℕ) (r : Bytes)
      → after_colon strerror valid_ip parse codec w name frame host o ≡ answered r
      → BodyRead w r
  reads-colon w name frame host none r e = ground arith
  reads-colon w name frame host (some idx) r e =
      reads-port w frame (take idx host) (stoi (drop (idx + 1) host)) r e

  reads-address :
      (w : World) (name frame : Bytes) (a : Address) (r : Bytes)
      → after_address strerror valid_ip parse codec w name frame a ≡ answered r
      → BodyRead w r
  reads-address w name frame (found host) r e =
      reads-colon w name frame host (find_byte b':' host) r e
  reads-address w name frame (Address.failed x) r e = ground arith

  reads-header :
      (w : World) (service name args : Bytes) (o : Option Bytes) (r : Bytes)
      → after_header strerror valid_ip parse codec w service name args o ≡ answered r
      → BodyRead w r
  reads-header w service name args none r e = ground arith
  reads-header w service name args (some header) r e =
      reads-address w name (request_frame header args)
        (w.address (codes "/" ++ (service ++ (codes "/" ++ name)))) r e

  reads-call :
      (w : World) (service name : Bytes) (args : Option Bytes) (r : Bytes)
      → call_method strerror valid_ip parse codec w service name args ≡ answered r
      → BodyRead w r
  unfolding call_method
  reads-call w service name none r e = ground arith
  reads-call w service name (some a) r e = reads-header w service name a _ r e

  parse_body-answer :
      (b r : Bytes) → parse_body strerror valid_ip parse codec b ≡ answered r → r ≡ b
  parse_body-answer b r e = elim (Bool-cases (parse b)) [
    | inl h ↦ ground (arith, h)
    | inr h ↦ ground (arith, h)
  ]

  after_body-frame :
      (w : World) (c : UringTcpClient) (o : Call Bytes) (n : ℕ) (r : Bytes)
      → read_exact strerror valid_ip w.body_reads n c ≡ o
      → after_body strerror valid_ip parse codec o ≡ answered r
      → r ≡ take n (stream w.body_reads)
  after_body-frame w c (done b) n r q e =
      parse_body-answer b r e ∙ (read_exact-stream strerror valid_ip w.body_reads n c b q).1
  after_body-frame w c (failed x) n r q e = ground arith
  after_body-frame w c waiting n r q e = ground arith

  read_body-frame :
      (w : World) (c : UringTcpClient) (n : ℕ) (r : Bytes)
      → 0 < n
      → read_body strerror valid_ip parse codec w c n ≡ answered r
      → r ≡ take n (stream w.body_reads)
  read_body-frame w c n r z e =
      let t : ltb 0 n ≡ true = ground (arith, z) in
      after_body-frame w c (read_exact strerror valid_ip w.body_reads n c) n r refl (
        sym (
          ap
            (λ (b : Bool).
              if b
              then after_body strerror valid_ip parse codec
                  (read_exact strerror valid_ip w.body_reads n c)
              else parse_body strerror valid_ip parse codec [])
            t)
        ∙ e)

-- Against a provider that answers with a response frame (the size, the request id, the body), what
-- `CallMethod` gives to `ParseFromArray` as the body are the eight bytes of the request id followed by
-- the body, whatever pieces the frame arrives in: the id is not skipped.
pub call_method-keeps_id :
    (strerror : ℕ → Bytes) (valid_ip : Bytes → Bool) (parse : Bytes → Bool) (codec : HeaderCodec)
    (w : World) (service name : Bytes) (args : Option Bytes) (id : ℕ) (body r : Bytes)
    → 8 + length body < 2 ^ 32
    → stream w.size_reads ++ stream w.body_reads ≡ response_frame id body
    → length (stream w.size_reads) ≡ 4
    → call_method strerror valid_ip parse codec w service name args ≡ answered r
    → r ≡ le_bytes 8 id ++ body
unfolding BodyRead response_frame
call_method-keeps_id strerror valid_ip parse codec w service name args id body r h f l e =
    let (c, size, q, g) = reads-call strerror valid_ip parse codec w service name args r e in
    let v = (8 + length body) % 2 ^ 32 in
    let sz : stream w.size_reads ≡ le_bytes 4 v =
      sym (take-append (stream w.size_reads) (stream w.body_reads) 4 (sym l))
      ∙ ap (take 4) f
      ∙ take-le_bytes 4 v (le_bytes 8 id ++ body) in
    let bd : stream w.body_reads ≡ le_bytes 8 id ++ body =
      sym (drop-append (stream w.size_reads) (stream w.body_reads) 4 (sym l))
      ∙ ap (drop 4) f
      ∙ drop-le_bytes 4 v (le_bytes 8 id ++ body) in
    let read : size ≡ le_bytes 4 v =
      (read_exact-stream strerror valid_ip w.size_reads 4 c size q).1
      ∙ take-all (stream w.size_reads) 4 (omega (arith, l))
      ∙ sz in
    let n : of_le size ≡ 8 + length body =
      ap of_le read ∙ of_le-le_bytes4 v (omega arith) ∙ omega (arith, h) in
    read_body-frame strerror valid_ip parse codec w c (of_le size) r (omega (arith, n)) g
    ∙ ap (take (of_le size)) bd
    ∙ take-all (le_bytes 8 id ++ body) (of_le size)
        (omega (arith, n, length-append (le_bytes 8 id) body, length-le_bytes 8 id))
