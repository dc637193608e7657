-- ===== src/Wire.antt =====
-- The frames on the wire. `reinterpret_cast` of a `uint32_t` or `uint64_t` to bytes is little-endian,
-- as on the x86-64 machines that the code is written for (io_uring_awaiter.h relies on them too).
-- RpcHeader is src/rpcheader.proto; its serialisation is protobuf's.
pub mod RoundTrip
pub mod Frames
use kim_rpc.Prelude.{
  ℕ, zero, suc, ◌+◌, ◌*◌, ◌/◌, ◌%◌, ◌^◌, ◌<◌, ◌≡◌, List, [], ◌∷◌, ◌++◌, Option, some, Bytes, length,
  take, drop,
}

-- The bytes of a `w`-byte unsigned number, and the number that bytes stand for.
unfoldable pub le_bytes : ℕ → ℕ → Bytes
le_bytes zero v = []
le_bytes (suc w) v = v % 256 ∷ le_bytes w (v / 256)

unfoldable pub of_le : Bytes → ℕ
of_le [] = 0
of_le (b ∷ s) = b + 256 * of_le s

pub record RpcHeader : Type 0 where
  pub service_name : Bytes
  pub method_name : Bytes
  pub args_size : ℕ
  pub request_id : ℕ

-- `SerializeToString` and `ParseFromString` of the generated class; `none` where they return false.
pub record HeaderCodec : Type 0 where
  pub serialize : RpcHeader → Option Bytes
  pub parse : Bytes → Option RpcHeader

-- Protobuf reads back the message that it wrote, if the numbers fit their fields.
abbrev pub ReadsBack : HeaderCodec → Type 0
ReadsBack c =
    (h : RpcHeader) (s : Bytes)
    → h.args_size < 2 ^ 32
    → h.request_id < 2 ^ 64
    → c.serialize h ≡ some s
    → c.parse s ≡ some h

-- [4 bytes header_size][header][args]; `header_size` is a `uint32_t`.
unfoldable pub request_frame : Bytes → Bytes → Bytes
request_frame header args = le_bytes 4 (length header % 2 ^ 32) ++ (header ++ args)

-- [4 bytes size][8 bytes request_id][body]; `size` is 8 + the length of the body, as a `uint32_t`.
unfoldable pub response_frame : ℕ → Bytes → Bytes
response_frame request_id body =
    le_bytes 4 ((8 + length body) % 2 ^ 32) ++ (le_bytes 8 request_id ++ body)
