-- ===== src/Reactor/Services.antt =====
-- The table of services that `NotifyService` fills, on both servers.
use kim_rpc.Prelude.{
  ℕ, ◌≡◌, List, [], ◌∷◌, none, some, arith, Bytes, bytes_eq, if◌then◌else◌, lookup, insert_new,
  lookup-insert_new, or_else, or_else_assoc, or_else-none,
}
use kim_rpc.Reactor.{Provider, ServiceInfo, insert_methods, notify_service}
use kim_rpc.Reactor.Request.{find_method}

-- The methods of a descriptor: the first of each name counts.
lookup-insert_methods :
    (key : Bytes) (ms m : List (Bytes × ℕ))
    → lookup key (insert_methods ms m) ≡ or_else (lookup key m) (lookup key ms)
unfolding insert_methods lookup
lookup-insert_methods key [] m = or_else-none (lookup key m)
lookup-insert_methods key ((name, desc) ∷ ms) m = ground (
  arith,
  lookup-insert_methods key ms (insert_new name desc m),
  lookup-insert_new key name desc m,
  or_else_assoc (lookup key m) (if bytes_eq name key then some desc else none) (lookup key ms),
)

-- The two ways to write the methods down are the same to a search.
pub find_method-insert_methods :
    (key name method : Bytes) (service : ℕ) (ms : List (Bytes × ℕ)) (m : List (Bytes × ServiceInfo))
    → find_method
        (lookup key
          (insert_new name (record { service = service; method_map = insert_methods ms [] }) m))
        method
      ≡ find_method
          (or_else (lookup key m) (
            if bytes_eq name key
            then some (record { service = service; method_map = ms })
            else none))
          method
unfolding lookup
find_method-insert_methods key name method service ms m = ground (
  arith,
  lookup-insert_new key name (record { service = service; method_map = insert_methods ms [] }) m,
  lookup-insert_methods method ms [],
)

-- After `NotifyService` of a service, a search for a service and a method finds what the table had of
-- the service before; where it had none and the name is the new one, it finds the method that stands
-- first under its name in the service's descriptor.
pub find_method-notify_service :
    (key name method : Bytes) (service : ℕ) (ms : List (Bytes × ℕ)) (s : Provider)
    → find_method (lookup key (notify_service name service ms s).service_map) method
      ≡ find_method
          (or_else (lookup key s.service_map) (
            if bytes_eq name key
            then some (record { service = service; method_map = ms })
            else none))
          method
unfolding notify_service
find_method-notify_service key name method service ms s =
    find_method-insert_methods key name method service ms s.service_map
