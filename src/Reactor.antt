-- ===== src/Reactor.antt =====
-- src/uringrpcprovider.cc: the io_uring server. The reactor thread runs the handlers below one after
-- the other on one state. Outside the source are the kernel's ring (`grants` holds its answers to the
-- coming calls of `io_uring_get_sqe`: a slot, or none because the queue is full), protobuf and the
-- business services (`Rpc`). `sqes` records what was submitted, latest first.
pub mod Submit
pub mod Request
pub mod Parsing
pub mod Handlers
pub mod Draining
pub mod Sending
pub mod Delivery
pub mod Pool
pub mod EventLoop
pub mod Services
pub mod Startup
pub mod Progress
use kim_rpc.Prelude.{
  ℕ, ◌+◌, ◌*◌, Bool, true, false, List, [], ◌∷◌, ◌++◌, Option, none, some, Bytes, ◌==◌,
  if◌then◌else◌, insert_new,
}
use kim_rpc.Wire.{HeaderCodec}
use kim_rpc.Conn.{ConnectionContext, ConnectionManager, Ptr, modify}
use kim_rpc.Conn

-- `kMaxHeaderSize`, `kMaxBodySize` and `kMaxInflightPerConn`.
abbrev pub k_max_header_size : ℕ
k_max_header_size = 64 * 1024

abbrev pub k_max_body_size : ℕ
k_max_body_size = 64 * 1024 * 1024

abbrev pub k_max_inflight_per_conn : ℕ
k_max_inflight_per_conn = 256

-- A `MethodDescriptor` and a `Service` are named by numbers.
pub record ServiceInfo : Type 0 where
  pub service : ℕ
  pub method_map : List (Bytes × ℕ)

-- Protobuf: the header's codec, and whether a method's request parses from the argument bytes.
pub record Rpc : Type 0 where
  pub codec : HeaderCodec
  pub parses_request : ℕ → Bytes → Bool

-- A submission queue entry, with the context of its user data and what it names.
pub data Sqe : Type 0 where
  accept : Sqe
  recv : Ptr → ℕ → Sqe
  send : Ptr → ℕ → Bytes → Sqe
  read_notify : Sqe

-- One request on its way through `handleRpc`.
pub record Task : Type 0 where
  pub fd : ℕ
  pub conn_id : ℕ
  pub request_id : ℕ
  pub service : ℕ
  pub method : ℕ
  pub request : Bytes

pub record Provider : Type 0 where
  pub conn : ConnectionManager
  pub service_map : List (Bytes × ServiceInfo)
  pub grants : List Bool
  pub sqes : List Sqe
  pub accept_pending : Bool
  pub notify_pending : Bool
  pub task_queue : List Task
  pub ready_coros : List (Task × Bytes)

-- `*ctx`.
abbrev pub ctx_at : Ptr → Provider → ConnectionContext
ctx_at p s = s.conn.conns p

unfoldable pub on_ctx : Ptr → (ConnectionContext → ConnectionContext) → Provider → Provider
unfolding modify
on_ctx p f s = record s { conn = modify p f s.conn }

-- `m_connMgr.close(fd)` and `m_connMgr.find(fd)`.
unfoldable pub close : ℕ → Provider → Provider
close fd s = record s { conn = Conn.close fd s.conn }

abbrev pub find : ℕ → Provider → Option Ptr
find fd s = Conn.find fd s.conn

-- `NotifyService` of a service with these methods.
unfoldable pub insert_methods : List (Bytes × ℕ) → List (Bytes × ℕ) → List (Bytes × ℕ)
insert_methods [] m = m
insert_methods ((name, desc) ∷ rest) m = insert_methods rest (insert_new name desc m)

unfoldable pub notify_service : Bytes → ℕ → List (Bytes × ℕ) → Provider → Provider
unfolding insert_methods
notify_service name service methods s = record s {
  service_map =
      insert_new name (record { service = service; method_map = insert_methods methods [] })
        s.service_map;
}
