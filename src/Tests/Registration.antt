-- ===== src/Tests/Registration.antt =====
-- A server with one method that starts, and a client that looks for it.
use kim_rpc.Prelude.{
  Without, ℕ, ◌+◌, ◌<◌, ◌≤◌, ◌≡◌, ◌≢◌, refl, true, false, Option, List, [], ◌∷◌, ◌++◌, none, some,
  arith, Bytes, codes, length, lookup, bytes_eq, pos, find_byte, or_else, if◌then◌else◌, stoi,
  to_u16, ℤ,
}
use kim_rpc.Channel.{new_channel}
use kim_rpc.Channel.Calls.{connect_host, connect_to, method_path}
use kim_rpc.Config.{load}
use kim_rpc.Discovery.{Cache, found, contains, seed}
use kim_rpc.Etcd.Client.{KeyValue}
use kim_rpc.Reactor.{Provider, ServiceInfo, accept, read_notify, notify_service}
use kim_rpc.Reactor.Request.{find_method}
use kim_rpc.Reactor.Services.{find_method-notify_service}
use kim_rpc.Reactor.Startup.{System, start_listen, in_loop, run}
use kim_rpc.Registration.{
  EtcdClient, serves, address_text, address, instance_key, register_service_to_etcd,
}
use kim_rpc.Registration.Address.{connect_host-address}
use kim_rpc.Registration.Instances.{matching}
use kim_rpc.Registration.Rotation.{ask}
use kim_rpc.Registration.Reaches.{Holds, instances_at, run-connect_host}
use kim_rpc.Tests.Codec.{text_codec}
use kim_rpc.Tests.Server.{with_ctx, context}
use kim_rpc.Tests.EndToEnd.{any_body, call, world}

abbrev empty_server : Provider
empty_server = record (with_ctx context) { service_map = [] }

find_method-notify_service_example :
    find_method
      (lookup
        (codes "S")
        (notify_service
          (codes "S")
          1
          ((codes "m", 2) ∷ ((codes "m", 3) ∷ []))
          empty_server).service_map)
      (codes "m")
    ≡ some (1, 2)
unfolding lookup bytes_eq
find_method-notify_service_example =
    find_method-notify_service (codes "S") (codes "S") (codes "m") 1
      ((codes "m", 2) ∷ ((codes "m", 3) ∷ [])) empty_server

abbrev system : System
system = record {
  ring_ready = true;
  socket = some 4;
  inet_pton = λ ip. true;
  binds = λ ip port. true;
  listens = true;
  set_non_block = true;
  buf_ring = true;
}

abbrev etcd : EtcdClient
etcd = record { start = true; lease_grant = λ ttl. pos 77; put = λ key value lease. true }

abbrev config : List (Bytes × Bytes)
config = (codes "rpcserverip", codes "1.2.3.4") ∷ ((codes "rpcserverport", codes "80") ∷ [])

abbrev server : Provider
server = with_ctx context

abbrev puts : List KeyValue
puts = record { key = codes "/S/m/1.2.3.4:80"; value = codes "1.2.3.4:80" } ∷ []

abbrev looping : Provider
looping = record server { grants = []; sqes = read_notify ∷ (accept ∷ []) }

started : run system etcd config server ≡ in_loop 4 (pos 77) puts looping
unfolding run start_listen load lookup bytes_eq register_service_to_etcd address instance_key
    kim_rpc.Registration.service_keys kim_rpc.Reactor.Submit.submit_accept
    kim_rpc.Reactor.Submit.submit_notify_read kim_rpc.Reactor.Submit.submit
    kim_rpc.Prelude.to_string kim_rpc.Prelude.decimal_loop kim_rpc.Prelude.stoi
    kim_rpc.Prelude.skip_spaces kim_rpc.Prelude.digits_value kim_rpc.Prelude.parse_unsigned
    kim_rpc.Prelude.parse_signed kim_rpc.Prelude.in_range mathlib.Core.Option.bind
started = refl

abbrev cache : Cache
cache = record { etcd_ok = true; entries = []; watches = [] }

plain_ip : Without b':' (codes "1.2.3.4")
plain_ip = (
  omega arith,
  (omega arith, (omega arith, (omega arith, (omega arith, (omega arith, (omega arith, tt)))))),
)

short_address : length (address_text (codes "1.2.3.4") 80) ≤ 63
unfolding kim_rpc.Prelude.to_string kim_rpc.Prelude.decimal_loop
short_address = omega arith

-- etcd holds another server's instance of the method too.
abbrev store : List KeyValue
store = record { key = codes "/S/m/1.2.3.3:80"; value = codes "1.2.3.3:80" } ∷ puts

Holds-puts : Holds store puts
unfolding contains bytes_eq
Holds-puts key h = ground (arith, h)

run-connect_host_example :
    (port : ℕ) × (addr : Bytes) × (start_listen system (codes "1.2.3.4") port ≡ some 4)
    × ((n : ℕ) × (n < length (instances_at (method_path any_body text_codec call) store))
        × (ask (λ p. some (matching p store, pos 3)) (method_path any_body text_codec call) n cache
            ≡ found addr))
    × (connect_host world.kernel addr (find_byte b':' addr) new_channel
        ≡ connect_to world.kernel addr (codes "1.2.3.4") port new_channel)
unfolding lookup bytes_eq load seed matching kim_rpc.Etcd.PrefixEnd.is_prefix
run-connect_host_example =
    run-connect_host any_body text_codec system etcd config server looping 4 (pos 77) (pos 3) puts
      store call (record { service = 1; method_map = (codes "m", 2) ∷ [] }) 2 cache world.kernel
      new_channel started refl refl Holds-puts (omega arith) plain_ip (omega arith) refl refl

connect_host-address_example :
    connect_host world.kernel
      (address (codes "1.2.3.4") 80)
      (find_byte b':' (address (codes "1.2.3.4") 80))
      new_channel
    ≡ connect_to world.kernel (address (codes "1.2.3.4") 80) (codes "1.2.3.4") 80 new_channel
connect_host-address_example =
    connect_host-address world.kernel (codes "1.2.3.4") 80 new_channel plain_ip (omega arith)
      short_address
