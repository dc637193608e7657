-- ===== src/UserData.antt =====
-- src/uringrpcprovider.cc, `packUserData`, `unpackCtx` and `unpackOp`, and the coroutine tag of
-- src/include/coroutine/io_uring_awaiter.h: one 64-bit word that carries a pointer and the kind of
-- an operation. A pointer is its address, below 2 ^ 64. A mask of low bits is a remainder, a shift a
-- quotient or a product, and `|` of parts that share no bit is a sum.
use kim_rpc.Prelude.{
  ℕ, ◌+◌, ◌-◌, ◌*◌, ◌/◌, ◌%◌, ◌^◌, ◌<◌, ◌≡◌, Bool, true, false, not, Option, none, some, arith,
  ◌==◌, if◌then◌else◌,
}

pub data OpType : Type 0 where
  accept recv send notify : OpType

-- `static_cast<uintptr_t>(op)` and back; no other number is an `OpType`.
abbrev pub op_code : OpType → ℕ
op_code accept = 0
op_code recv = 1
op_code send = 2
op_code notify = 3

op_of_code : ℕ → Option OpType
op_of_code n =
    if n == 0
    then some accept
    else if n == 1
    then some recv
    else if n == 2
    then some send
    else if n == 3
    then some notify
    else none

abbrev k_event_shift : ℕ
k_event_shift = 48

pub pack_user_data : ℕ → OpType → ℕ
pack_user_data ctx op = ctx % 2 ^ k_event_shift + op_code op * 2 ^ k_event_shift

pub unpack_ctx : ℕ → ℕ
unpack_ctx ud = ud % 2 ^ k_event_shift

pub unpack_op : ℕ → Option OpType
unfolding op_of_code
unpack_op ud = op_of_code (ud / 2 ^ k_event_shift)

-- `kCoroTagBit` is bit 63.
abbrev tag_bit : ℕ → ℕ
tag_bit ud = ud / 2 ^ 63 % 2

pub is_coro_user_data : ℕ → Bool
is_coro_user_data ud = not (tag_bit ud == 0)

pub make_coro_user_data : ℕ → ℕ
make_coro_user_data req = if tag_bit req == 0 then req + 2 ^ 63 else req

pub coro_request_from_user_data : ℕ → ℕ
coro_request_from_user_data ud = ud - tag_bit ud * 2 ^ 63

-- What `packUserData` packs, `unpackCtx` and `unpackOp` take out again, for every address below
-- 2 ^ 48.
pub unpack-pack :
    (ctx : ℕ) (op : OpType)
    → ctx < 2 ^ 48
    → (unpack_ctx (pack_user_data ctx op) ≡ ctx) × (unpack_op (pack_user_data ctx op) ≡ some op)
unfolding pack_user_data unpack_ctx unpack_op
unpack-pack ctx accept h = ground arith
unpack-pack ctx recv h = ground arith
unpack-pack ctx send h = ground arith
unpack-pack ctx notify h = ground arith

-- The event loop tells the two kinds of completion apart: a coroutine's word, made of an address
-- below 2 ^ 63, has the tag and gives the address back; a word of `packUserData` has no tag, whatever
-- the address.
pub coro_tag :
    (req ctx : ℕ) (op : OpType)
    → req < 2 ^ 63
    → (is_coro_user_data (make_coro_user_data req) ≡ true)
      × (coro_request_from_user_data (make_coro_user_data req) ≡ req)
      × (is_coro_user_data (pack_user_data ctx op) ≡ false)
unfolding pack_user_data is_coro_user_data make_coro_user_data coro_request_from_user_data
coro_tag req ctx accept h = ground arith
coro_tag req ctx recv h = ground arith
coro_tag req ctx send h = ground arith
coro_tag req ctx notify h = ground arith
