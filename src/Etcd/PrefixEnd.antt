-- ===== src/Etcd/PrefixEnd.antt =====
-- `prefixEnd` of src/etcdclient.cc: the end of the key range that etcd scans for a prefix.
use kim_rpc.Prelude.{
  ◌+◌, Bool, true, false, not, ◌&&◌, [], ◌∷◌, Option, none, some, Bytes, ltb, ◌==◌, if◌then◌else◌,
}

-- The loop from the last byte to the first: the last byte below 0xff goes up by one, and what follows
-- it is cut off. `none`: every byte is 0xff.
unfoldable pub bump : Bytes → Option Bytes
bump [] = none
bump (c ∷ s) = elim (bump s) [
  | some t ↦ some (c ∷ t)
  | none ↦ if ltb c 0xff then some ((c + 1) ∷ []) else none
]

-- One zero byte is etcd's mark for "up to the last key".
unfoldable pub prefix_end : Bytes → Bytes
unfolding bump
prefix_end p = elim (bump p) [ some e ↦ e | none ↦ 0 ∷ [] ]

-- The order of keys, byte by byte.
pub lex_lt : Bytes → Bytes → Bool
lex_lt [] [] = false
lex_lt [] (y ∷ ys) = true
lex_lt (x ∷ xs) [] = false
lex_lt (x ∷ xs) (y ∷ ys) = if x == y then lex_lt xs ys else ltb x y

unfoldable pub is_prefix : Bytes → Bytes → Bool
is_prefix [] k = true
is_prefix (x ∷ xs) [] = false
is_prefix (x ∷ xs) (y ∷ ys) = x == y && is_prefix xs ys

-- The keys from `p` on, below `e`.
abbrev pub in_range : Bytes → Bytes → Bytes → Bool
in_range p e k = not (lex_lt k p) && lex_lt k e
