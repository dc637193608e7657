-- ===== src/Etcd.antt =====
-- src/etcdclient.cc: the client of etcd's JSON gateway. The JSON library (src/include/third_party) and
-- the HTTP transport (libcurl) are parameters.
pub mod Base64
pub mod Base64RoundTrip
pub mod PrefixEnd
pub mod Client
pub mod Watch
pub mod Streaming
use kim_rpc.Prelude.{
  ℕ, ◌+◌, Bool, List, Option, none, some, Bytes, ℤ, stoll, pos_part, neg_part, ltb,
}

-- nlohmann/json, as far as the client calls it: `parse` (`none`: it throws), `find` of a field, the
-- tests of kind with the value, and `value(field, "")`, which throws (`none`) on a value that is no
-- object and on a field that is no string.
pub record Json : Type 1 where
  pub Value : Type 0
  pub parse : Bytes → Option Value
  pub find : Bytes → Value → Option Value
  pub array? : Value → Option (List Value)
  pub string? : Value → Option Bytes
  pub number? : Value → Option ℤ
  pub string_field : Bytes → Value → Option Bytes

-- `a < b` on 64-bit integers.
abbrev pub ltb_ℤ : ℤ → ℤ → Bool
ltb_ℤ a b = ltb (pos_part a + neg_part b) (pos_part b + neg_part a)

-- `jint`: etcd writes 64-bit integers as JSON strings.
abbrev pub number_or : Option ℤ → ℤ → ℤ
number_or none d = d
number_or (some n) d = n

module _ (J : Json) where
  open J use {Value}

  unfoldable pub jint : Value → Bytes → ℤ → ℤ
  jint j field d = elim (J.find field j) [
    | none ↦ d
    | some it ↦ elim (J.string? it) [
      | some text ↦ number_or (stoll text) d
      | none ↦ number_or (J.number? it) d
    ]
  ]
