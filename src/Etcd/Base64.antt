-- ===== src/Etcd/Base64.antt =====
-- `b64Encode`, `b64Val` and `b64Decode` of src/etcdclient.cc.
use kim_rpc.Prelude.{
  ℕ, ◌+◌, ◌-◌, ◌*◌, ◌/◌, ◌%◌, ◌^◌, Bool, true, false, ◌&&◌, ◌||◌, [], ◌∷◌, Bytes, codes, leb, ◌==◌,
  if◌then◌else◌, get_or, ℤ, pos, negsuc,
}

abbrev pub b64_tab : Bytes
b64_tab = codes "ABCDEFGHIJKLMNOPQRSTUVWXYZabcdefghijklmnopqrstuvwxyz0123456789+/"

-- `kB64Tab[(n >> k) & 0x3f]`
unfoldable pub b64_char : ℕ → ℕ
b64_char d = get_or b64_tab d 0

abbrev pub sextet : ℕ → ℕ → ℕ
sextet n k = n / 2 ^ k % 64

-- Three bytes at a time, then the one or two that are left. `|` joins parts that share no bit.
unfoldable pub b64_encode : Bytes → Bytes
b64_encode [] = []
b64_encode (a ∷ []) =
    let n = a * 2 ^ 16 in b64_char (sextet n 18) ∷ b64_char (sextet n 12) ∷ b'=' ∷ b'=' ∷ []
b64_encode (a ∷ b ∷ []) =
    let n = a * 2 ^ 16 + b * 2 ^ 8 in
    b64_char (sextet n 18) ∷ b64_char (sextet n 12) ∷ b64_char (sextet n 6) ∷ b'=' ∷ []
b64_encode (a ∷ b ∷ c ∷ rest) =
    let n = a * 2 ^ 16 + b * 2 ^ 8 + c in
    b64_char (sextet n 18)
    ∷ b64_char (sextet n 12)
    ∷ b64_char (sextet n 6)
    ∷ b64_char (sextet n 0)
    ∷ b64_encode rest

-- A byte above 127 is a negative `char`, and no digit either way.
unfoldable pub b64_val : ℕ → ℤ
b64_val c =
    if leb b'A' c && leb c b'Z'
    then pos (c - b'A')
    else if leb b'a' c && leb c b'z'
    then pos (c - b'a' + 26)
    else if leb b'0' c && leb c b'9'
    then pos (c - b'0' + 52)
    else if c == b'+'
    then pos 62
    else if c == b'/'
    then pos 63
    else negsuc 0

abbrev pub is_padding : ℕ → Bool
is_padding c = c == b'=' || c == 10 || c == 13

-- `val` is the 32-bit pattern of the code's `int`, and `room` its `bits` + 8, which is not negative.
unfoldable pub decode_loop : ℕ → ℕ → Bytes → Bytes
decode_loop val room [] = []
decode_loop val room (c ∷ s) = elim (is_padding c) [
  | true ↦ decode_loop val room s
  | false ↦ elim (b64_val c) [
    | negsuc _ ↦ decode_loop val room s
    | pos d ↦ elim (leb 8 (room + 6)) [
      | true ↦
          (val * 64 + d) % 2 ^ 32 / 2 ^ (room + 6 - 8) % 256
          ∷ decode_loop ((val * 64 + d) % 2 ^ 32) (room + 6 - 8) s
      | false ↦ decode_loop ((val * 64 + d) % 2 ^ 32) (room + 6) s
    ]
  ]
]

unfoldable pub b64_decode : Bytes → Bytes
b64_decode s = decode_loop 0 0 s
