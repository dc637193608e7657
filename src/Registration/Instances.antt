-- ===== src/Registration/Instances.antt =====
-- What a client finds of a registered server: the table that `GetRpcAddress` seeds from etcd.
use kim_rpc.Prelude.{
  ℕ, ◌<◌, ◌≡◌, refl, ap, true, List, [], ◌∷◌, ◌++◌, some, arith, Bytes, bytes_eq, bytes_eq_iff,
  if◌then◌else◌, length, lookup, append_assoc, append-nil, length-append, drop-append, Bool-cases,
  inl, inr, ℤ,
}
use kim_rpc.Reactor.{ServiceInfo}
use kim_rpc.Etcd.Client.{KeyValue}
use kim_rpc.Etcd.PrefixEnd.{is_prefix}
use kim_rpc.Discovery.{contains, seed}
use kim_rpc.Registration.{
  EtcdClient, serves, address, instance_key, method_keys, service_keys, k_lease_ttl, put_all,
  register_service_to_etcd,
}

-- The range of a prefix, as etcd documents it.
unfoldable pub matching : Bytes → List KeyValue → List KeyValue
matching prefix [] = []
matching prefix (kv ∷ kvs) =
    let rest = matching prefix kvs in if is_prefix prefix kv.key then kv ∷ rest else rest

-- What the registration puts.
abbrev pub puts_of : Bytes → List Bytes → List KeyValue
puts_of addr [] = []
puts_of addr (key ∷ keys) = record { key = key; value = addr } ∷ puts_of addr keys

put_all-puts :
    (etcd : EtcdClient) (keys : List Bytes) (addr : Bytes) (lease l : ℤ) (done puts : List KeyValue)
    → put_all etcd keys addr lease done ≡ serves l puts
    → puts ≡ done ++ puts_of addr keys
put_all-puts etcd [] addr lease l done puts e = ground (arith, append-nil done, e)
put_all-puts etcd (key ∷ keys) addr lease l done puts e = ground (
  arith,
  append_assoc done (record { key = key; value = addr } ∷ []) (puts_of addr keys),
  put_all-puts etcd keys addr lease l (done ++ (record { key = key; value = addr } ∷ [])) puts,
)

-- Where the registration succeeds, etcd has taken the key of each method of each service.
pub registered_puts :
    (etcd : EtcdClient) (ip : Bytes) (port : ℕ) (services : List (Bytes × ServiceInfo)) (lease : ℤ)
    (puts : List KeyValue)
    → register_service_to_etcd etcd ip port services ≡ serves lease puts
    → puts ≡ puts_of (address ip port) (service_keys (address ip port) services)
unfolding register_service_to_etcd
registered_puts etcd ip port services lease puts e = ground (
  arith,
  put_all-puts etcd (service_keys (address ip port) services) (address ip port)
      (etcd.lease_grant k_lease_ttl) lease [] puts,
)

contains-append_left :
    (a : Bytes) (xs ys : List Bytes) → contains a xs ≡ true → contains a (xs ++ ys) ≡ true
unfolding contains
contains-append_left a [] ys h = cc
contains-append_left a (x ∷ xs) ys h = ground (arith, contains-append_left a xs ys)

contains-append_right :
    (a : Bytes) (xs ys : List Bytes) → contains a ys ≡ true → contains a (xs ++ ys) ≡ true
unfolding contains
contains-append_right a [] ys h = h
contains-append_right a (x ∷ xs) ys h = ground (arith, contains-append_right a xs ys h)

method_keys-contains :
    (addr service m : Bytes) (d : ℕ) (ms : List (Bytes × ℕ))
    → lookup m ms ≡ some d
    → contains (instance_key service m addr) (method_keys addr service ms) ≡ true
unfolding contains lookup
method_keys-contains addr service m d [] h = cc
method_keys-contains addr service m d ((n, e) ∷ ms) h = ground (
  arith,
  bytes_eq_iff n m,
  bytes_eq_iff (instance_key service n addr) (instance_key service m addr),
  method_keys-contains addr service m d ms,
)

pub service_keys-contains :
    (addr s m : Bytes) (info : ServiceInfo) (d : ℕ) (ss : List (Bytes × ServiceInfo))
    → lookup s ss ≡ some info
    → lookup m info.method_map ≡ some d
    → contains (instance_key s m addr) (service_keys addr ss) ≡ true
unfolding service_keys lookup
service_keys-contains addr s m info d [] h k = cc
service_keys-contains addr s m info d ((t, i) ∷ ss) h k = elim (Bool-cases (bytes_eq t s)) [
  | inl e ↦
      contains-append_left (instance_key s m addr) (method_keys addr t i.method_map)
        (service_keys addr ss)
        (ground (arith, e, bytes_eq_iff t s, method_keys-contains addr t m d i.method_map))
  | inr e ↦
      contains-append_right (instance_key s m addr) (method_keys addr t i.method_map)
        (service_keys addr ss) (service_keys-contains addr s m info d ss (ground (arith, e)) k)
]

is_prefix-append : (xs ys : Bytes) → is_prefix xs (xs ++ ys) ≡ true
unfolding is_prefix
is_prefix-append [] ys = refl
is_prefix-append (x ∷ xs) ys = ground (arith, is_prefix-append xs ys)

-- The keys of what etcd holds.
abbrev pub keys_of : List KeyValue → List Bytes
keys_of [] = []
keys_of (kv ∷ kvs) = kv.key ∷ keys_of kvs

pub keys_of-puts_of : (addr : Bytes) (keys : List Bytes) → keys_of (puts_of addr keys) ≡ keys
keys_of-puts_of addr [] = refl
keys_of-puts_of addr (key ∷ keys) = ap (◌∷◌ key) (keys_of-puts_of addr keys)

-- An address whose key etcd holds is found under its prefix, whatever else etcd holds.
pub seed-contains :
    (prefix addr : Bytes) (store : List KeyValue)
    → 0 < length addr
    → contains (prefix ++ addr) (keys_of store) ≡ true
    → contains addr (seed prefix (matching prefix store)) ≡ true
unfolding contains seed matching
seed-contains prefix addr [] l h = cc
seed-contains prefix addr (kv ∷ kvs) l h = ground (
  arith,
  bytes_eq_iff kv.key (prefix ++ addr),
  bytes_eq_iff addr addr,
  is_prefix-append prefix addr,
  length-append prefix addr,
  drop-append prefix addr (length prefix) refl,
  seed-contains prefix addr kvs l,
)
