-- ===== src/Tests/Etcd.antt =====
-- The theorems on the etcd client and the address cache at concrete inputs.
use kim_rpc.Prelude.{
  ◌%◌, ◌≡◌, refl, List, [], ◌∷◌, ◌++◌, none, some, arith, codes, take, drop, pos, bytes_eq,
}
use kim_rpc.Etcd.{Json}
use kim_rpc.Etcd.Base64.{b64_encode, b64_decode}
use kim_rpc.Etcd.Base64RoundTrip
use kim_rpc.Etcd.Watch.{put, delete, WatchCtx, WatchEvent, write_all}
use kim_rpc.Etcd.Streaming
use kim_rpc.Discovery.{contains, MethodEntry, on_watch_event}
use kim_rpc.Discovery.RoundRobin.{picks, all_found, picks-rotation}
use kim_rpc.Discovery.Instances.{
  on_watch_events, last_event, on_watch_events-last, Distinct, on_watch_event-Distinct,
}

-- Two bytes, so that the last group is padded.
b64_decode-encode_example : b64_decode (b64_encode (104 ∷ 255 ∷ [])) ≡ 104 ∷ 255 ∷ []
b64_decode-encode_example =
    Base64RoundTrip.b64_decode-encode (104 ∷ 255 ∷ []) (omega arith, (omega arith, tt))

-- A JSON library whose every text is the empty object.
abbrev empty_json : Json
empty_json = record {
  Value = Unit {0};
  parse = λ s. some tt;
  find = λ field v. none;
  array? = λ v. none;
  string? = λ v. none;
  number? = λ v. none;
  string_field = λ field v. some [];
}

abbrev fresh_watch : WatchCtx
fresh_watch = record { buf = []; events = []; last_revision = pos 0 }

write_all-one_chunk_example :
    write_all empty_json ((123 ∷ []) ∷ (125 ∷ 10 ∷ []) ∷ []) fresh_watch
    ≡ write_all empty_json ((123 ∷ 125 ∷ 10 ∷ []) ∷ []) fresh_watch
unfolding mathlib.Core.List.flatten
write_all-one_chunk_example =
    Streaming.write_all-one_chunk empty_json (123 ∷ []) ((125 ∷ 10 ∷ []) ∷ []) fresh_watch

abbrev two_hosts : MethodEntry
two_hosts = record { instances = (1 ∷ []) ∷ (2 ∷ []) ∷ []; rr = 3 }

picks-rotation_example :
    picks 2 (codes "/S/m") two_hosts
    ≡ all_found (drop (3 % 2) two_hosts.instances ++ take (3 % 2) two_hosts.instances)
picks-rotation_example = picks-rotation (codes "/S/m") two_hosts (omega arith) (omega arith)

-- Address 2 is put and then deleted under the prefix "/".
abbrev put_and_deleted : List WatchEvent
put_and_deleted =
    record { type = put; key = 47 ∷ 2 ∷ []; value = [] }
    ∷ record { type = delete; key = 47 ∷ 2 ∷ []; value = [] }
    ∷ []

on_watch_events-last_example :
    contains (2 ∷ []) (on_watch_events (47 ∷ []) put_and_deleted two_hosts).instances
    ≡ last_event (47 ∷ 2 ∷ []) put_and_deleted (contains (2 ∷ []) two_hosts.instances)
on_watch_events-last_example =
    on_watch_events-last (47 ∷ []) put_and_deleted 2 [] two_hosts (refl, (refl, tt))

abbrev repeated_put : WatchEvent
repeated_put = record { type = put; key = 47 ∷ 1 ∷ []; value = [] }

two_hosts-Distinct : Distinct two_hosts.instances
unfolding contains bytes_eq
two_hosts-Distinct = ground arith

on_watch_event-Distinct_example :
    Distinct (on_watch_event (47 ∷ []) repeated_put two_hosts).instances
    × ((on_watch_event (47 ∷ []) repeated_put two_hosts).rr ≡ 3)
on_watch_event-Distinct_example =
    on_watch_event-Distinct (47 ∷ []) repeated_put two_hosts two_hosts-Distinct
