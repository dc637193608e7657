-- ===== src/Config.antt =====
-- src/config.cc: the configuration file. The file's bytes are an argument (the process ends where it
-- cannot be opened); it holds no byte 0, at which the code's strings would end.
pub mod Lines
pub mod Printed
pub mod Entries
use kim_rpc.Prelude.{
  ℕ, zero, suc, ◌+◌, Bool, true, false, ◌&&◌, List, [], ◌∷◌, ◌++◌, Option, none, some, Bytes, ◌==◌,
  if◌then◌else◌, is_empty, length, take, drop, find_byte, lookup, insert_new,
}

-- `fgets` of at most `n` bytes: up to a line feed, and the rest of the file.
unfoldable pub fgets : ℕ → Bytes → Bytes × Bytes
fgets zero s = ([], s)
fgets (suc n) [] = ([], [])
fgets (suc n) (c ∷ s) =
    let (line, rest) = fgets n s in if c == 10 then (c ∷ [], s) else (c ∷ line, rest)

-- The buffers that the loop of `loadConfigFile` reads, 511 bytes at most each: a longer line of the
-- file is several of them.
unfoldable pub read_buffers : ℕ → Bytes → List Bytes
read_buffers zero s = []
read_buffers (suc fuel) [] = []
read_buffers (suc fuel) (c ∷ s) =
    let (line, rest) = fgets 511 (c ∷ s) in line ∷ read_buffers fuel rest

-- From the first byte that is no space on, and up to the last one; a text of spaces stays as it is.
unfoldable pub from_first : Bytes → Bytes
from_first [] = []
from_first (c ∷ s) = if c == 32 then from_first s else c ∷ s

unfoldable pub to_last : Bytes → Bytes
to_last [] = []
to_last (c ∷ s) = let rest = to_last s in if (c == 32) && is_empty rest then [] else c ∷ rest

abbrev pub or_whole : Bytes → Bytes → Bytes
or_whole s [] = s
or_whole s (c ∷ t) = c ∷ t

unfoldable pub trim : Bytes → Bytes
unfolding from_first to_last
trim s = let t = or_whole s (from_first s) in or_whole t (to_last t)

-- Up to a line feed, or all.
abbrev pub before_feed : Bytes → Bytes
before_feed s = elim (find_byte 10 s) [ none ↦ s | some i ↦ take i s ]

abbrev pub is_comment : Bytes → Bool
is_comment [] = true
is_comment (c ∷ s) = c == 35

-- The entry of one buffer, if it has one.
unfoldable pub entry_of : Bytes → Option (Bytes × Bytes)
unfolding trim
entry_of buf =
    let s = trim buf in
    if is_comment s then none else elim (find_byte 61 s) [
      | none ↦ none
      | some idx ↦ some (trim (take idx s), trim (before_feed (drop (idx + 1) s)))
    ]

abbrev pub insert_entry : Option (Bytes × Bytes) → List (Bytes × Bytes) → List (Bytes × Bytes)
insert_entry none m = m
insert_entry (some (k, v)) m = insert_new k v m

unfoldable pub load_lines : List Bytes → List (Bytes × Bytes) → List (Bytes × Bytes)
unfolding entry_of
load_lines [] m = m
load_lines (l ∷ ls) m = load_lines ls (insert_entry (entry_of l) m)

unfoldable pub load_config_file : Bytes → List (Bytes × Bytes) → List (Bytes × Bytes)
unfolding read_buffers load_lines
load_config_file file m = load_lines (read_buffers (suc (length file)) file) m

abbrev pub or_empty : Option Bytes → Bytes
or_empty none = []
or_empty (some v) = v

unfoldable pub load : Bytes → List (Bytes × Bytes) → Bytes
load key m = or_empty (lookup key m)
