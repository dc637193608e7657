-- ===== src/TcpClient/Async.antt =====
-- `AsyncConnect`, `AsyncWrite`, `AsyncRead` and `EventLoop` of src/uringtcpclient.cc. A callback is
-- taken to be there; what it is called with is recorded, latest first.
use kim_rpc.Prelude.{
  ℕ, Bool, true, false, List, [], ◌∷◌, ◌++◌, Option, none, some, Bytes, codes, if◌then◌else◌, ℤ,
  pos, is_neg, neg_part,
}
use kim_rpc.TcpClient.{Completion, res, bytes, UringTcpClient, close}

pub data OpType : Type 0 where
  connects sends recvs : OpType

pub record IoContext : Type 0 where
  pub op_type : OpType
  pub fd : ℕ
  pub write_buf : Bytes

pub record Callback : Type 0 where
  pub success : Bool
  pub result : ℤ
  pub error : Bytes

pub record State : Type 0 where
  pub client : UringTcpClient
  pub submitted : List IoContext
  pub calls : List Callback

unfoldable pub refuse : Bytes → State → Bool × State
refuse text s =
    (false, record s { calls = record { success = false; result = pos 0; error = text } ∷ s.calls })

module _ (strerror : ℕ → Bytes) (valid_ip : Bytes → Bool) where
  -- Submits an operation; `closes` says whether a failed submission closes the socket.
  abbrev submit : Bool → Bytes → IoContext → ℤ → State → Bool × State
  submit closes what ctx ret s =
      if is_neg ret
      then (
        false,
        record (record s { submitted = ctx ∷ s.submitted }) {
          client = if closes then close s.client else s.client;
          calls =
              record { success = false; result = pos 0; error = what ++ strerror (neg_part ret) }
              ∷ s.calls;
        },
      )
      else (true, record s { submitted = ctx ∷ s.submitted })

  -- A slot for the connect operation, or none.
  abbrev connect_on : ℕ → Bool → ℤ → State → Bool × State
  connect_on fd has_sqe ret s =
      if has_sqe
      then submit true (codes "connect submit error: ")
          (record { op_type = connects; fd = fd; write_buf = [] }) ret s
      else (let (b, s') = refuse (codes "get connect sqe error") s in
          (b, record s' { client = close s'.client }))

  unfoldable pub async_connect : Bytes → Option ℕ → Bool → ℤ → State → Bool × State
  unfolding refuse
  async_connect ip socket has_sqe ret s =
      if s.client.m_ring_ready
      then elim socket [
        | none ↦ (false, record s { client = record (s.client) { m_fd = none } })
        | some fd ↦
            let s' = record s { client = record (s.client) { m_fd = some fd } } in
            if valid_ip ip
            then connect_on fd has_sqe ret s'
            else refuse (codes "invalid server ip: " ++ ip) s'
      ]
      else refuse (codes "io_uring queue init error") s

  unfoldable pub async_write : Bytes → Bool → ℤ → State → Bool × State
  unfolding refuse
  async_write text has_sqe ret s = elim s.client.m_fd [
    | none ↦ refuse (codes "socket is not connected") s
    | some fd ↦
        if has_sqe
        then submit false (codes "send submit error: ")
            (record { op_type = sends; fd = fd; write_buf = text }) ret s
        else refuse (codes "get send sqe error") s
  ]

  unfoldable pub async_read : Bool → ℤ → State → Bool × State
  unfolding refuse
  async_read has_sqe ret s = elim s.client.m_fd [
    | none ↦ refuse (codes "socket is not connected") s
    | some fd ↦
        if has_sqe
        then submit false (codes "recv submit error: ")
            (record { op_type = recvs; fd = fd; write_buf = [] }) ret s
        else refuse (codes "get recv sqe error") s
  ]

  abbrev op_name : OpType → Bytes
  op_name connects = codes "connect error: "
  op_name sends = codes "send error: "
  op_name recvs = codes "recv error: "

  -- The text of a success: what a receive read, in the place of the error.
  abbrev success_text : OpType → Completion → Bytes
  success_text recvs c = bytes c
  success_text _ c = []

  -- One completion in `EventLoop`.
  unfoldable pub complete : IoContext → Completion → State → State
  complete ctx c s = record s {
    calls =
        (if is_neg (res c)
          then record {
            success = false;
            result = res c;
            error = op_name ctx.op_type ++ strerror (neg_part (res c));
          }
          else record { success = true; result = res c; error = success_text ctx.op_type c })
        ∷ s.calls;
  }
