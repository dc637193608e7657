-- ===== src/Reactor/Startup.antt =====
-- `Run` and `startListen` of src/uringrpcprovider.cc up to the event loop. The system's answers are an
-- argument, and so is the configuration. Each failure is an exit of the process.
use kim_rpc.Prelude.{
  ℕ, Bool, true, false, ◌&&◌, List, [], ◌∷◌, Option, none, some, Bytes, codes, if◌then◌else◌, ℤ,
  stoi, to_u16, ◌≡◌, arith, Option-cases, inl, inr,
}
use kim_rpc.Config.{load}
use kim_rpc.Etcd.Client.{KeyValue}
use kim_rpc.Registration.{EtcdClient, Registered, exits, serves, register_service_to_etcd}
use kim_rpc.Reactor.{Provider, accept, read_notify}
use kim_rpc.Reactor.Submit.{submit_accept, submit_notify_read}

-- Whether the constructor's `io_uring_queue_init` worked, what `socket` gives, whether the other calls
-- work, and whether the buffer ring could be set up.
pub record System : Type 0 where
  pub ring_ready : Bool
  pub socket : Option ℕ
  pub inet_pton : Bytes → Bool
  pub binds : Bytes → ℕ → Bool
  pub listens : Bool
  pub set_non_block : Bool
  pub buf_ring : Bool

-- The listening descriptor; none where the process exits.
unfoldable pub start_listen : System → Bytes → ℕ → Option ℕ
start_listen sys ip port = elim sys.socket [
  | none ↦ none
  | some fd ↦
      if sys.inet_pton ip && (sys.binds ip port && (sys.listens && sys.set_non_block))
      then some fd
      else none
]

-- The process exits, with what etcd took so far; `stoi` throws; or the event loop begins, with the
-- listening descriptor, the lease and the keys.
pub data Started : Type 0 where
  ended : List KeyValue → Started
  throws : Started
  in_loop : ℕ → ℤ → List KeyValue → Provider → Started

abbrev looping : ℕ → ℤ → List KeyValue → Bool × Provider → Started
looping fd lease puts (true, s) = in_loop fd lease puts s
looping fd lease puts (false, s) = ended puts

abbrev notified : ℕ → ℤ → List KeyValue → Bool × Provider → Started
notified fd lease puts (true, s) = looping fd lease puts (submit_notify_read s)
notified fd lease puts (false, s) = ended puts

abbrev registered : System → ℕ → Provider → Registered → Started
registered sys fd s (exits puts) = ended puts
registered sys fd s (serves lease puts) =
    if sys.buf_ring then notified fd lease puts (submit_accept s) else ended puts

abbrev listening : System → EtcdClient → Bytes → ℕ → Provider → Option ℕ → Started
listening sys etcd ip port s none = ended []
listening sys etcd ip port s (some fd) =
    registered sys fd s (register_service_to_etcd etcd ip port s.service_map)

abbrev with_port : System → EtcdClient → Bytes → Provider → Option ℤ → Started
with_port sys etcd ip s none = throws
with_port sys etcd ip s (some n) =
    listening sys etcd ip (to_u16 n) s (start_listen sys ip (to_u16 n))

-- `Run`.
unfoldable pub run : System → EtcdClient → List (Bytes × Bytes) → Provider → Started
run sys etcd config s =
    if sys.ring_ready
    then with_port sys etcd (load (codes "rpcserverip") config) s
        (stoi (load (codes "rpcserverport") config))
    else ended []

-- The event loop begins only after the port in the configuration was read, the server listens there,
-- etcd took the key of every method, and both the first accept and the read of the notifications are
-- submitted, in this order; the table of services is as it was.
pub run-in_loop :
    (sys : System) (etcd : EtcdClient) (config : List (Bytes × Bytes)) (s s' : Provider) (fd : ℕ)
    (lease : ℤ) (puts : List KeyValue)
    → run sys etcd config s ≡ in_loop fd lease puts s'
    → (n : ℤ) × (stoi (load (codes "rpcserverport") config) ≡ some n)
      × (start_listen sys (load (codes "rpcserverip") config) (to_u16 n) ≡ some fd)
      × (register_service_to_etcd etcd (load (codes "rpcserverip") config) (to_u16 n) s.service_map
          ≡ serves lease puts)
      × (s'.sqes ≡ read_notify ∷ accept ∷ s.sqes)
      × (s'.service_map ≡ s.service_map)
unfolding run submit_accept submit_notify_read kim_rpc.Reactor.Submit.submit
run-in_loop sys etcd config s s' fd lease puts e =
    elim (Option-cases (stoi (load (codes "rpcserverport") config))) [
      | inl q ↦ ground (arith, e, q)
      | inr (n, q) ↦ (
        n,
        q,
        ground (arith, e, q),
        ground (arith, e, q),
        ground (arith, e, q),
        ground (arith, e, q),
      )
    ]
