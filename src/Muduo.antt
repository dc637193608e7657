-- ===== src/Muduo.antt =====
-- `onMessage` and `sendRpcResponse` of src/provider.cc, the server on the muduo library. The calls of the
-- business services are recorded in their order.
pub mod Stream
pub mod Startup
use kim_rpc.Prelude.{
  ℕ, zero, suc, ◌+◌, Bool, true, false, List, [], ◌∷◌, ◌++◌, Option, none, some, Bytes, ltb,
  if◌then◌else◌, length, take, drop, substr, lookup,
}
use kim_rpc.Wire.{RpcHeader, of_le, response_frame}
use kim_rpc.Reactor.{ServiceInfo, Rpc}
use kim_rpc.Reactor.Request.{find_method}

-- `service->CallMethod`, with what the response will be tagged with.
pub record ServiceCall : Type 0 where
  pub service : ℕ
  pub method : ℕ
  pub request_id : ℕ
  pub request : Bytes

pub record Connection : Type 0 where
  pub buffer : Bytes
  pub calls : List ServiceCall
  pub is_shut_down : Bool
  pub outgoing : List Bytes

-- A request of a service and a method that exist, and that parses, is called; another one is skipped.
abbrev pub call_of : Rpc → Option (ℕ × ℕ) → RpcHeader → Bytes → List ServiceCall
call_of rpc none h args = []
call_of rpc (some (service, method)) h args =
    if rpc.parses_request method args
    then record { service = service; method = method; request_id = h.request_id; request = args }
      ∷ []
    else []

abbrev pub calls_for : Rpc → List (Bytes × ServiceInfo) → RpcHeader → Bytes → List ServiceCall
calls_for rpc services h args =
    call_of rpc (find_method (lookup h.service_name services) h.method_name) h args

-- `retrieve` of a frame of this length, and the call.
abbrev pub retrieved : Rpc → List (Bytes × ServiceInfo) → ℕ → RpcHeader → Connection → Connection
retrieved rpc services start h c = record c {
  buffer = drop (start + h.args_size) c.buffer;
  calls = c.calls ++ calls_for rpc services h (substr c.buffer start h.args_size);
}

-- The loop of `onMessage`, at most `fuel` frames; none where the fuel runs out.
unfoldable pub on_message_loop :
    Rpc → List (Bytes × ServiceInfo) → ℕ → Connection → Option Connection
on_message_loop rpc services zero c = none
on_message_loop rpc services (suc fuel) c =
    let header_size = of_le (take 4 c.buffer) in
    if ltb (length c.buffer) 4
    then some c
    else if ltb (length c.buffer) (4 + header_size)
    then some c
    else elim (rpc.codec.parse (substr c.buffer 4 header_size)) [
      | none ↦ some (record c { is_shut_down = true })
      | some h ↦ elim (ltb (length c.buffer) (4 + header_size + h.args_size)) [
        | true ↦ some c
        | false ↦ on_message_loop rpc services fuel (retrieved rpc services (4 + header_size) h c)
      ]
    ]

-- A frame has four bytes at least, so a round for each byte and one more are enough.
unfoldable pub on_message : Rpc → List (Bytes × ServiceInfo) → Connection → Option Connection
unfolding on_message_loop
on_message rpc services c = on_message_loop rpc services (suc (length c.buffer)) c

-- `body` is what `SerializeToString` made of the response, none where it failed.
unfoldable pub send_rpc_response : ℕ → Option Bytes → Connection → Connection
send_rpc_response request_id body c = elim body [
  | none ↦ c
  | some b ↦ record c { outgoing = c.outgoing ++ (response_frame request_id b ∷ []) }
]
