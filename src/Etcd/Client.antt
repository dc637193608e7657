-- ===== src/Etcd/Client.antt =====
-- `Start`, `LeaseGrant`, `Put`, `RangePrefix` and the keep-alive loop of src/etcdclient.cc. `http_post`
-- stands for `httpPost`: the body of the answer to a request, empty on failure.
use kim_rpc.Prelude.{
  ℕ, ◌/◌, Bool, true, false, not, ◌&&◌, List, [], ◌∷◌, ◌++◌, Option, none, some, Bytes, codes, ltb,
  if◌then◌else◌, is_empty, to_string, ℤ, pos, negsuc, is_nonpos, is_zero,
}
use kim_rpc.Etcd.{Json, jint}
use kim_rpc.Etcd.Base64.{b64_encode, b64_decode}
use kim_rpc.Etcd.PrefixEnd.{prefix_end}

pub record KeyValue : Type 0 where
  pub key : Bytes
  pub value : Bytes

pub record Config : Type 0 where
  pub etcdip : Bytes
  pub etcdport : Bytes

-- `Start()`: the endpoint, with the defaults for what the configuration leaves empty.
unfoldable pub endpoint : Config → Bytes
endpoint c =
    codes "http://"
    ++ ((if is_empty c.etcdip then codes "127.0.0.1" else c.etcdip)
        ++ (codes ":" ++ (if is_empty c.etcdport then codes "2379" else c.etcdport)))

abbrev pub put_body : Bytes → Bytes → ℤ → Bytes
put_body key value lease =
    codes "{\"key\":\""
    ++ (b64_encode key
        ++ (codes "\",\"value\":\""
            ++ (b64_encode value
                ++ (codes "\""
                    ++ ((if is_nonpos lease then [] else codes ",\"lease\":" ++ to_string lease)
                        ++ codes "}")))))

abbrev pub range_body : Bytes → Bytes
range_body prefix =
    codes "{\"key\":\""
    ++ (b64_encode prefix
        ++ (codes "\",\"range_end\":\"" ++ (b64_encode (prefix_end prefix) ++ codes "\"}")))

module _ (J : Json) (http_post : Bytes → Bytes → Bytes) where
  open J use {Value}

  -- The answer parsed; `none` where the request failed or the text is no JSON.
  abbrev answer : Bytes → Bytes → Option Value
  answer path body = let resp = http_post path body in if is_empty resp then none else J.parse resp

  -- -1 on failure.
  unfoldable pub lease_grant : ℤ → ℤ
  lease_grant ttl =
      elim (answer (codes "/v3/lease/grant")
        (codes "{\"TTL\":" ++ (to_string ttl ++ codes ",\"ID\":0}"))) [
          | none ↦ negsuc 0
          | some j ↦ jint J j (codes "ID") (negsuc 0)
        ]

  -- The probe of `Start`.
  unfoldable pub start : Bool
  unfolding lease_grant
  start = not (is_nonpos (lease_grant (pos 2)))

  abbrev has : Bytes → Value → Bool
  has field j = elim (J.find field j) [ none ↦ false | some v ↦ true ]

  unfoldable pub put : Bytes → Bytes → ℤ → Bool
  put key value lease = elim (answer (codes "/v3/kv/put") (put_body key value lease)) [
    | none ↦ false
    | some j ↦ not (has (codes "error") j) && has (codes "header") j
  ]

  -- One entry of `kvs`; `none` where `value` throws.
  key_value : Value → Option KeyValue
  key_value kv = elim (J.string_field (codes "key") kv) [
    | none ↦ none
    | some key ↦ elim (J.string_field (codes "value") kv) [
      | none ↦ none
      | some value ↦ some (record { key = b64_decode key; value = b64_decode value })
    ]
  ]

  abbrev cons_entry : Option KeyValue → Option (List KeyValue) → Option (List KeyValue)
  cons_entry none rest = none
  cons_entry (some e) none = none
  cons_entry (some e) (some rest) = some (e ∷ rest)

  unfoldable pub key_values : List Value → Option (List KeyValue)
  unfolding key_value
  key_values [] = some []
  key_values (kv ∷ kvs) = cons_entry (key_value kv) (key_values kvs)

  abbrev entries : Option Value → Option (List KeyValue)
  entries none = some []
  entries (some kvs) = elim (J.array? kvs) [ none ↦ some [] | some l ↦ key_values l ]

  -- The revision of the answer's header, 0 without one.
  abbrev header_revision : Value → ℤ
  header_revision j = elim (J.find (codes "header") j) [
    | none ↦ pos 0
    | some h ↦ jint J h (codes "revision") (pos 0)
  ]

  abbrev with_revision : Option (List KeyValue) → ℤ → Option (List KeyValue × ℤ)
  with_revision none rev = none
  with_revision (some kvs) rev = some (kvs, rev)

  -- The keys with the prefix and the revision; `none` where the code returns false.
  unfoldable pub range_prefix : Bytes → Option (List KeyValue × ℤ)
  range_prefix prefix = elim (answer (codes "/v3/kv/range") (range_body prefix)) [
    | none ↦ none
    | some j ↦
        if has (codes "error") j
        then none
        else with_revision (entries (J.find (codes "kvs") j)) (header_revision j)
  ]

  -- `keepAliveLoop`: the interval, and one round of the loop.
  pub data Round : Type 0 where
    stopped failed expired kept : Round

  unfoldable pub keep_alive_round : Bool → ℤ → Round
  keep_alive_round stop lease =
      if stop
      then stopped
      else (let resp =
            http_post (codes "/v3/lease/keepalive")
              (codes "{\"ID\":" ++ (to_string lease ++ codes "}")) in
          if is_empty resp then failed else elim (J.parse resp) [
            | none ↦ kept
            | some j ↦
                let r = elim (J.find (codes "result") j) as (λ _. Value) [
                  | none ↦ j
                  | some r ↦ r
                ] in
                if is_zero (jint J r (codes "TTL") (negsuc 0)) then expired else kept
          ])

-- In seconds: a third of the lease's time, and one at least.
unfoldable pub keep_alive_interval : ℕ → ℕ
keep_alive_interval ttl = let interval = ttl / 3 in if ltb interval 1 then 1 else interval
