-- ===== src/Discovery.antt =====
-- src/rpcaddresscache.cc: the instances of each method, kept by a watch, and their round robin. The
-- watch threads and the callers hold the entry's mutex, so each step below is atomic. `range_prefix`
-- is the call of the etcd client.
pub mod RoundRobin
pub mod Instances
use kim_rpc.Prelude.{
  ℕ, ◌+◌, ◌%◌, ◌^◌, Bool, true, false, List, [], ◌∷◌, ◌++◌, Option, none, some, Bytes, codes,
  bytes_eq, leb, ltb, if◌then◌else◌, length, drop, get_or, lookup, insert_new, is_empty, ℤ, inc,
}
use kim_rpc.Etcd.Client.{KeyValue}
use kim_rpc.Etcd.Watch.{EventType, put, delete, WatchEvent}

pub record MethodEntry : Type 0 where
  pub instances : List Bytes
  pub rr : ℕ

-- `std::find` and `std::remove` with `erase`.
unfoldable pub contains : Bytes → List Bytes → Bool
contains a [] = false
contains a (x ∷ xs) = if bytes_eq x a then true else contains a xs

unfoldable pub remove_all : Bytes → List Bytes → List Bytes
remove_all a [] = []
remove_all a (x ∷ xs) = if bytes_eq x a then remove_all a xs else x ∷ remove_all a xs

unfoldable pub add_instance : Bytes → List Bytes → List Bytes
add_instance a xs = if contains a xs then xs else xs ++ (a ∷ [])

abbrev pub change : EventType → Bytes → List Bytes → List Bytes
change put a xs = add_instance a xs
change delete a xs = remove_all a xs

-- The watch callback: an instance is what follows the prefix in the key.
unfoldable pub on_watch_event : Bytes → WatchEvent → MethodEntry → MethodEntry
on_watch_event prefix ev entry =
    if leb (length ev.key) (length prefix)
    then entry
    else record entry { instances = change ev.type (drop (length prefix) ev.key) entry.instances }

unfoldable pub seed : Bytes → List KeyValue → List Bytes
seed prefix [] = []
seed prefix (kv ∷ kvs) =
    if ltb (length prefix) (length kv.key)
    then drop (length prefix) kv.key ∷ seed prefix kvs
    else seed prefix kvs

-- `g_entries`, whether etcd was reached, and the watches started: prefix and first revision.
pub record Cache : Type 0 where
  pub etcd_ok : Bool
  pub entries : List (Bytes × MethodEntry)
  pub watches : List (Bytes × ℤ)

pub data Address : Type 0 where
  found : Bytes → Address
  failed : Bytes → Address

-- The choice among the instances; the cursor is a `size_t`.
unfoldable pub pick : Bytes → MethodEntry → Address × MethodEntry
pick method_path entry =
    if is_empty entry.instances
    then (failed (method_path ++ codes " has no available instance"), entry)
    else (
      found (get_or entry.instances (entry.rr % length entry.instances) []),
      record entry { rr = (entry.rr + 1) % 2 ^ 64 },
    )

-- `g_entries[k] = e` for a key that is there.
unfoldable pub replace :
    Bytes → MethodEntry → List (Bytes × MethodEntry) → List (Bytes × MethodEntry)
replace k e [] = []
replace k e ((j, d) ∷ m) = if bytes_eq j k then (j, e) ∷ m else (j, d) ∷ replace k e m

abbrev picked : Bytes → Cache → Address × MethodEntry → Address × Cache
picked k c (a, e) = (a, record c { entries = replace k e c.entries })

unfoldable pub get_rpc_address :
    (Bytes → Option (List KeyValue × ℤ)) → Bytes → Cache → Address × Cache
get_rpc_address range_prefix method_path c =
    if c.etcd_ok
    then elim (lookup method_path c.entries) [
      | some entry ↦ picked method_path c (pick method_path entry)
      | none ↦
          let prefix = method_path ++ codes "/" in
          elim (range_prefix prefix) [
            | none ↦ (failed (method_path ++ codes " etcd range failed"), c)
            | some (kvs, rev) ↦
                let entry : MethodEntry = record { instances = seed prefix kvs; rr = 0 } in
                picked method_path
                  (record c {
                    entries = (method_path, entry) ∷ c.entries;
                    watches = (prefix, inc rev) ∷ c.watches;
                  })
                  (pick method_path entry)
          ]
    ]
    else (failed (codes "etcd not reachable"), c)
