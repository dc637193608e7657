-- ===== src/UringChannel.antt =====
-- `CallMethod` of src/uringchannel.cc: one blocking call over a connection of its own. The kernel's
-- answers to each part of it, and the address of the method, are arguments.
pub mod Response
use kim_rpc.Prelude.{
  ℕ, ◌+◌, ◌%◌, ◌^◌, Bool, true, false, List, [], ◌++◌, Option, none, some, Bytes, codes, ltb,
  if◌then◌else◌, length, take, drop, find_byte, stoi, ℤ,
}
use kim_rpc.Wire.{HeaderCodec, of_le, request_frame}
use kim_rpc.Discovery.{Address, found}
use kim_rpc.TcpClient.{Answer, Result, ok, err, Call, done, failed, waiting, UringTcpClient}
use kim_rpc.TcpClient.Blocking.{connect, write_all, read_exact}

pub record World : Type 0 where
  pub address : Bytes → Address
  -- The ring was set up; the new descriptor, with the error number; the answer to the connect.
  pub ring_ready : Bool
  pub socket : Option ℕ
  pub errno : ℕ
  pub connects : Answer
  -- The answers to `WriteAll` and to the two calls of `ReadExact`.
  pub writes : List Answer
  pub size_reads : List Answer
  pub body_reads : List Answer

-- How the call ends: the bytes given to `ParseFromArray`, the reason given to the controller, an
-- exception of `stoi`, or never.
pub data Ending : Type 0 where
  answered : Bytes → Ending
  fails : Bytes → Ending
  throws : Ending
  hangs : Ending

module _ (strerror : ℕ → Bytes) (valid_ip : Bytes → Bool) (parse : Bytes → Bool)
    (codec : HeaderCodec) where
  abbrev pub parse_body : Bytes → Ending
  parse_body body =
      if parse body
      then answered body
      else fails (take 2047 (codes "parse error! response_str:" ++ body))

  abbrev pub after_body : Call Bytes → Ending
  after_body (done body) = parse_body body
  after_body (failed e) = fails e
  after_body waiting = hangs

  -- The body is read unless its size is 0.
  abbrev pub read_body : World → UringTcpClient → ℕ → Ending
  read_body w c size =
      if ltb 0 size
      then after_body (read_exact strerror valid_ip w.body_reads size c)
      else parse_body []

  abbrev pub after_size : World → UringTcpClient → Call Bytes → Ending
  after_size w c (done size) = read_body w c (of_le size)
  after_size w c (failed e) = fails e
  after_size w c waiting = hangs

  abbrev pub after_write : World → UringTcpClient → Call Bytes → Ending
  after_write w c (done out) = after_size w c (read_exact strerror valid_ip w.size_reads 4 c)
  after_write w c (failed e) = fails e
  after_write w c waiting = hangs

  abbrev pub after_connect : World → Bytes → Result (Unit {0}) × UringTcpClient → Ending
  after_connect w frame (ok u, c) = after_write w c (write_all strerror valid_ip w.writes frame c)
  after_connect w frame (err e, c) = fails e

  -- The port narrows to 16 bits, and no step of the model reads it.
  abbrev pub after_port : World → Bytes → Bytes → Option ℤ → Ending
  after_port w frame ip none = throws
  after_port w frame ip (some port) = after_connect w frame (
      connect strerror valid_ip ip w.socket w.errno w.connects
        (record { m_fd = none; m_ring_ready = w.ring_ready; closed = [] }))

  abbrev pub after_colon : World → Bytes → Bytes → Bytes → Option ℕ → Ending
  after_colon w method_name frame host none = fails (method_name ++ codes " address is invalid")
  after_colon w method_name frame host (some idx) =
      after_port w frame (take idx host) (stoi (drop (idx + 1) host))

  abbrev pub after_address : World → Bytes → Bytes → Address → Ending
  after_address w method_name frame (found host) =
      after_colon w method_name frame host (find_byte b':' host)
  after_address w method_name frame (Address.failed e) = fails e

  abbrev pub after_header : World → Bytes → Bytes → Bytes → Option Bytes → Ending
  after_header w service_name method_name args none = fails (codes "serialize rpcHeader error!")
  after_header w service_name method_name args (some header) =
      after_address w method_name (request_frame header args)
        (w.address (codes "/" ++ (service_name ++ (codes "/" ++ method_name))))

  -- The header leaves `request_id` at 0. `args` is the serialised request, none where that fails.
  unfoldable pub call_method : World → Bytes → Bytes → Option Bytes → Ending
  call_method w service_name method_name args = elim args [
    | none ↦ fails (codes "serialize request error!")
    | some a ↦ after_header w service_name method_name a (
        codec.serialize (record {
          service_name = service_name;
          method_name = method_name;
          args_size = length a % 2 ^ 32;
          request_id = 0;
        }))
  ]
