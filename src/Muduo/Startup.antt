-- ===== src/Muduo/Startup.antt =====
-- `NotifyService` and `Run` of src/provider.cc. What muduo does with the address is its own; the loop
-- begins where the server serves.
use kim_rpc.Prelude.{ℕ, List, [], Option, none, some, Bytes, codes, ℤ, stoi, to_u16, insert_new}
use kim_rpc.Config.{load}
use kim_rpc.Etcd.Client.{KeyValue}
use kim_rpc.Reactor.{ServiceInfo, insert_methods}
use kim_rpc.Registration.{EtcdClient, Registered, exits, serves, register_service_to_etcd}

unfoldable pub notify_service :
    Bytes → ℕ → List (Bytes × ℕ) → List (Bytes × ServiceInfo) → List (Bytes × ServiceInfo)
notify_service name service methods m =
    insert_new name (record { service = service; method_map = insert_methods methods [] }) m

-- The process exits, with what etcd took so far; `stoi` throws; or the server starts at the address.
pub data Started : Type 0 where
  ended : List KeyValue → Started
  throws : Started
  in_loop : Bytes → ℕ → ℤ → List KeyValue → Started

abbrev registered : Bytes → ℕ → Registered → Started
registered ip port (exits puts) = ended puts
registered ip port (serves lease puts) = in_loop ip port lease puts

abbrev with_port : EtcdClient → Bytes → List (Bytes × ServiceInfo) → Option ℤ → Started
with_port etcd ip services none = throws
with_port etcd ip services (some n) =
    registered ip (to_u16 n) (register_service_to_etcd etcd ip (to_u16 n) services)

unfoldable pub run : EtcdClient → List (Bytes × Bytes) → List (Bytes × ServiceInfo) → Started
run etcd config services =
    with_port etcd (load (codes "rpcserverip") config) services
      (stoi (load (codes "rpcserverport") config))
