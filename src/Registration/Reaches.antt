-- ===== src/Registration/Reaches.antt =====
-- A client that asks for a method of a registered server gets that server's address.
use kim_rpc.Prelude.{
  Without, ℕ, ◌≤◌, ◌<◌, ◌≡◌, refl, ap, sym, subst, ◌∙◌, Bool, true, List, [], ◌∷◌, ◌++◌, none, some,
  arith, Bytes, codes, length, lookup, append_assoc, length-append, length-take, ℤ, to_string, pos,
  to_u16, find_byte, ◌^◌,
}
use kim_rpc.Reactor.{Provider, ServiceInfo}
use kim_rpc.Etcd.Client.{KeyValue}
use kim_rpc.Discovery.{Cache, found, contains, seed}
use kim_rpc.Config.{load}
use kim_rpc.Reactor.Startup.{System, start_listen, in_loop, run, run-in_loop}
use kim_rpc.Channel.{KimRpcChannel}
use kim_rpc.Channel.Calls.{Call, Kernel, method_path, connect_host, connect_to}
use kim_rpc.Wire.{HeaderCodec}
use kim_rpc.Registration.{
  EtcdClient, serves, address_text, address, instance_key, service_keys, register_service_to_etcd,
}
use kim_rpc.Registration.Address.{connect_host-address}
use kim_rpc.Registration.Decimal.{length-port}
use kim_rpc.Registration.Rotation.{ask, ask-reaches}
use kim_rpc.Registration.Instances.{
  keys_of, keys_of-puts_of, matching, registered_puts, service_keys-contains, seed-contains,
}

-- The prefix that the client asks for, and a key as that prefix and an address.
abbrev prefix_of : Bytes → Bytes → Bytes
prefix_of s m = (codes "/" ++ (s ++ (codes "/" ++ m))) ++ codes "/"

key_split : (s m addr : Bytes) → instance_key s m addr ≡ prefix_of s m ++ addr
unfolding instance_key
key_split s m addr =
    ap (λ (z : Bytes). b'/' ∷ z)
      (sym
        (append_assoc (s ++ (b'/' ∷ m)) (b'/' ∷ []) addr ∙ append_assoc s (b'/' ∷ m) (b'/' ∷ addr)))

address_some : (ip : Bytes) (port : ℕ) → 0 < length (address ip port)
unfolding address
address_some ip port =
    omega
      (arith, length-take 63 (address_text ip port), length-append ip (b':' ∷ to_string (pos port)))

-- etcd holds every key that was put, among whatever others.
abbrev pub Holds : List KeyValue → List KeyValue → Type 0
Holds store puts =
    (key : Bytes) → contains key (keys_of puts) ≡ true → contains key (keys_of store) ≡ true

-- The instances that a client's first question for a method finds.
abbrev pub instances_at : Bytes → List KeyValue → List Bytes
instances_at path store = seed (path ++ codes "/") (matching (path ++ codes "/") store)

-- After a registration that succeeded, the instances of each method of the server hold its address,
-- whichever other keys etcd has.
pub registered-contains :
    (parse : ℕ → Bytes → Bool) (codec : HeaderCodec) (etcd : EtcdClient) (ip : Bytes) (port : ℕ)
    (services : List (Bytes × ServiceInfo)) (lease : ℤ) (puts store : List KeyValue) (call : Call)
    (info : ServiceInfo) (desc : ℕ)
    → register_service_to_etcd etcd ip port services ≡ serves lease puts
    → lookup call.service_name services ≡ some info
    → lookup call.method_name info.method_map ≡ some desc
    → Holds store puts
    → contains (address ip port) (instances_at (method_path parse codec call) store) ≡ true
registered-contains parse codec etcd ip port services lease puts store call info desc r s m holds =
    let addr = address ip port in
    let keys = service_keys addr services in
    let prefix = prefix_of call.service_name call.method_name in
    let eq = registered_puts etcd ip port services lease puts r in
    let there : contains (prefix ++ addr) keys ≡ true =
      subst (λ (k : Bytes). contains k keys ≡ true)
        (key_split call.service_name call.method_name addr)
        (service_keys-contains addr call.service_name call.method_name info desc services s m) in
    seed-contains prefix addr store (address_some ip port)
      (holds (prefix ++ addr) (rw (eq, keys_of-puts_of addr keys) there))

to_u16-below : (n : ℤ) → to_u16 n < 2 ^ 16
to_u16-below (pos n) = omega arith
to_u16-below (ℤ.negsuc n) = omega arith

-- Discovery from end to end: once a server has come to its event loop, a client that asks for one of
-- its methods again and again gives, within as many calls as the method has instances, an address such
-- that connecting to it is connecting to the very IP and port at which the server listens. etcd may
-- hold any other keys, of other servers too, as long as it holds those that the server put and answers
-- a range with the keys that have the prefix; the method was not asked for before, no event of the
-- watch comes between the calls, the instances are fewer than 2 ^ 64, the configured IP has no colon
-- and 57 bytes at most.
pub run-connect_host :
    (parse : ℕ → Bytes → Bool) (codec : HeaderCodec) (sys : System) (etcd : EtcdClient)
    (config : List (Bytes × Bytes)) (s s' : Provider) (fd : ℕ) (lease rev : ℤ)
    (puts store : List KeyValue) (call : Call) (info : ServiceInfo) (desc : ℕ) (cache : Cache)
    (k : Kernel) (c : KimRpcChannel)
    → run sys etcd config s ≡ in_loop fd lease puts s'
    → lookup call.service_name s.service_map ≡ some info
    → lookup call.method_name info.method_map ≡ some desc
    → Holds store puts
    → length (instances_at (method_path parse codec call) store) < 2 ^ 64
    → Without b':' (load (codes "rpcserverip") config)
    → length (load (codes "rpcserverip") config) ≤ 57
    → cache.etcd_ok ≡ true
    → lookup (method_path parse codec call) cache.entries ≡ none
    → let ip = load (codes "rpcserverip") config in
      let path = method_path parse codec call in
      (port : ℕ) × (addr : Bytes) × (start_listen sys ip port ≡ some fd)
      × ((n : ℕ) × (n < length (instances_at path store))
          × (ask (λ p. some (matching p store, rev)) path n cache ≡ found addr))
      × (connect_host k addr (find_byte b':' addr) c ≡ connect_to k addr ip port c)
run-connect_host parse codec sys etcd config s s' fd lease rev puts store call info desc cache k c r
      l m holds few w fits ok new =
    let ip = load (codes "rpcserverip") config in
    let path = method_path parse codec call in
    let (n, q, listens, reg, rest, same) = run-in_loop sys etcd config s s' fd lease puts r in
    let port = to_u16 n in
    (
      port,
      address ip port,
      listens,
      ask-reaches (λ p. some (matching p store, rev)) path (address ip port)
          (matching (path ++ codes "/") store) rev cache ok new refl
          (registered-contains parse codec etcd ip port s.service_map lease puts store call info
            desc reg l m holds)
          few,
      connect_host-address k ip port c w (to_u16-below n) (
          omega (
            arith,
            length-append ip (b':' ∷ to_string (pos port)),
            length-port port (to_u16-below n),
            fits,
          )),
    )
