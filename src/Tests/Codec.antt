-- ===== src/Tests/Codec.antt =====
-- A codec for headers that reads back what it wrote, as protobuf does: each text stands after its
-- length.
use kim_rpc.Prelude.{
  ◌≡◌, refl, ap, sym, ◌∙◌, [], ◌∷◌, ◌++◌, Option, none, some, arith, Bytes, length, take, drop,
  take-append, drop-append,
}
use kim_rpc.UserData.{unpack_ctx, unpack_op, pack_user_data}
use kim_rpc.UserData
use kim_rpc.Wire.{RpcHeader, HeaderCodec, ReadsBack}

abbrev pub write_header : RpcHeader → Bytes
write_header h =
    length h.service_name
    ∷ (h.service_name
        ++ (length h.method_name ∷ (h.method_name ++ (h.args_size ∷ h.request_id ∷ []))))

abbrev read_numbers : Bytes → Bytes → Bytes → Option RpcHeader
read_numbers service method (a ∷ r ∷ []) =
    some (record { service_name = service; method_name = method; args_size = a; request_id = r })
read_numbers service method _ = none

abbrev read_method : Bytes → Bytes → Option RpcHeader
read_method service [] = none
read_method service (n ∷ s) = read_numbers service (take n s) (drop n s)

abbrev pub read_header : Bytes → Option RpcHeader
read_header [] = none
read_header (n ∷ s) = read_method (take n s) (drop n s)

abbrev pub text_codec : HeaderCodec
text_codec = record { serialize = λ h. some (write_header h); parse = read_header }

read-write : (h : RpcHeader) → read_header (write_header h) ≡ some h
read-write h =
    let numbers = h.args_size ∷ h.request_id ∷ [] in
    let rest = length h.method_name ∷ (h.method_name ++ numbers) in
    ap (λ (s : Bytes). read_method s (drop (length h.service_name) (h.service_name ++ rest)))
      (take-append h.service_name rest (length h.service_name) refl)
    ∙ ap (read_method h.service_name) (drop-append h.service_name rest (length h.service_name) refl)
    ∙ ap
        (λ (s : Bytes).
          read_numbers h.service_name s (drop (length h.method_name) (h.method_name ++ numbers)))
        (take-append h.method_name numbers (length h.method_name) refl)
    ∙ ap (read_numbers h.service_name h.method_name)
        (drop-append h.method_name numbers (length h.method_name) refl)

pub text_codec-ReadsBack : ReadsBack text_codec
text_codec-ReadsBack h s a b e =
    let q : write_header h ≡ s = ground (arith, e) in ap read_header (sym q) ∙ read-write h

unpack-pack_example :
    (unpack_ctx (pack_user_data 4096 UserData.send) ≡ 4096)
    × (unpack_op (pack_user_data 4096 UserData.send) ≡ some UserData.send)
unpack-pack_example = UserData.unpack-pack 4096 UserData.send (omega arith)
