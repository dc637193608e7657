-- ===== src/Registration.antt =====
-- `registerServiceToEtcd` of src/uringrpcprovider.cc, which `Run` of src/provider.cc has in its body:
-- every method of every service gets a key under the server's address. The etcd client is an interface,
-- which `client_of` fills with the model of src/etcdclient.cc. The puts are recorded in their order.
pub mod Decimal
pub mod Address
pub mod Instances
pub mod Rotation
pub mod Reaches
use kim_rpc.Prelude.{
  ℕ, Bool, true, false, List, [], ◌∷◌, ◌++◌, Option, none, some, Bytes, codes, if◌then◌else◌, take,
  to_string, ℤ, pos, is_nonpos,
}
use kim_rpc.Reactor.{ServiceInfo}
use kim_rpc.Etcd.{Json}
use kim_rpc.Etcd.Client.{KeyValue}
use kim_rpc.Etcd.Client

-- What the registration calls of the etcd client.
pub record EtcdClient : Type 0 where
  pub start : Bool
  pub lease_grant : ℤ → ℤ
  pub put : Bytes → Bytes → ℤ → Bool

abbrev pub client_of : Json → (Bytes → Bytes → Bytes) → EtcdClient
client_of J http_post = record {
  start = Client.start J http_post;
  lease_grant = Client.lease_grant J http_post;
  put = Client.put J http_post;
}

-- `kLeaseTtl`.
abbrev pub k_lease_ttl : ℤ
k_lease_ttl = pos 10

-- `snprintf(addr, 64, "%s:%d", ip, port)`, which keeps 63 bytes at most.
abbrev pub address_text : Bytes → ℕ → Bytes
address_text ip port = ip ++ (b':' ∷ to_string (pos port))

unfoldable pub address : Bytes → ℕ → Bytes
address ip port = take 63 (address_text ip port)

-- The key of one method.
unfoldable pub instance_key : Bytes → Bytes → Bytes → Bytes
instance_key service method addr =
    codes "/" ++ (service ++ (codes "/" ++ (method ++ (codes "/" ++ addr))))

abbrev pub method_keys : Bytes → Bytes → List (Bytes × ℕ) → List Bytes
method_keys addr service [] = []
method_keys addr service ((method, desc) ∷ ms) =
    instance_key service method addr ∷ method_keys addr service ms

-- The keys in the order of the two loops.
unfoldable pub service_keys : Bytes → List (Bytes × ServiceInfo) → List Bytes
service_keys addr [] = []
service_keys addr ((service, info) ∷ ss) =
    method_keys addr service info.method_map ++ service_keys addr ss

-- The end: the process exits, or it serves and the lease is kept alive; with the puts that etcd took.
pub data Registered : Type 0 where
  exits : List KeyValue → Registered
  serves : ℤ → List KeyValue → Registered

module _ (etcd : EtcdClient) where
  abbrev pub put_all : List Bytes → Bytes → ℤ → List KeyValue → Registered
  put_all [] addr lease done = serves lease done
  put_all (key ∷ keys) addr lease done =
      let rest = put_all keys addr lease (done ++ (record { key = key; value = addr } ∷ [])) in
      if etcd.put key addr lease then rest else exits done

  abbrev pub with_lease : ℤ → Bytes → ℕ → List (Bytes × ServiceInfo) → Registered
  with_lease lease ip port services =
      if is_nonpos lease
      then exits []
      else put_all (service_keys (address ip port) services) (address ip port) lease []

  unfoldable pub register_service_to_etcd : Bytes → ℕ → List (Bytes × ServiceInfo) → Registered
  register_service_to_etcd ip port services =
      if etcd.start then with_lease (etcd.lease_grant k_lease_ttl) ip port services else exits []
