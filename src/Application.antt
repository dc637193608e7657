-- ===== src/Application.antt =====
-- `KimRpcApplication::Init` of src/application.cc: the options of the command line and the configuration
-- file that they name. `getopt` and the files are arguments.
use kim_rpc.Prelude.{
  ℕ, suc, ◌≤◌, ◌≡◌, All, ap, ◌∙◌, refl, Bool, true, false, List, [], ◌∷◌, Option, none, some, arith,
  Bytes, ltb, if◌then◌else◌, length,
}
use kim_rpc.Config.{load_config_file, load, or_empty}
use kim_rpc.Config.Printed.{
  ConfLine, IsLine, printed, value_of, read_buffers-printed, length-printed,
}
use kim_rpc.Config.Entries.{first_value-lines}
use kim_rpc.Config.Lines.{first_value, load-load_config_file}

-- One result of `getopt(argc, argv, "i:")`: the option with its argument, `'?'`, `':'` or another one.
pub data Opt : Type 0 where
  config_file : Bytes → Opt
  unknown : Opt
  missing : Opt
  other : Opt

-- The loop: the file that the last `-i` names; none where the process exits.
unfoldable pub read_options : List Opt → Bytes → Option Bytes
read_options [] file = some file
read_options (config_file name ∷ opts) file = read_options opts name
read_options (unknown ∷ opts) file = none
read_options (missing ∷ opts) file = read_options opts file
read_options (other ∷ opts) file = none

-- `loadConfigFile` of a file that can be opened, into the empty map; else the process exits.
abbrev pub load_file : Option Bytes → Option (List (Bytes × Bytes))
load_file none = none
load_file (some bytes) = some (load_config_file bytes [])

abbrev pub load_named : (Bytes → Option Bytes) → Option Bytes → Option (List (Bytes × Bytes))
load_named files none = none
load_named files (some name) = load_file (files name)

-- `Init`: the configuration, or none where the process exits.
unfoldable pub init : ℕ → List Opt → (Bytes → Option Bytes) → Option (List (Bytes × Bytes))
unfolding read_options
init argc opts files = if ltb argc 2 then none else load_named files (read_options opts [])

-- The name that the last `-i` gives.
abbrev pub last_file : List Opt → Bytes → Bytes
last_file [] file = file
last_file (config_file name ∷ opts) file = last_file opts name
last_file (_ ∷ opts) file = last_file opts file

-- No option ends the process.
abbrev pub all_plain : List Opt → Bool
all_plain [] = true
all_plain (config_file name ∷ opts) = all_plain opts
all_plain (unknown ∷ opts) = false
all_plain (missing ∷ opts) = all_plain opts
all_plain (other ∷ opts) = false

read_options-last :
    (opts : List Opt) (file : Bytes)
    → all_plain opts ≡ true
    → read_options opts file ≡ some (last_file opts file)
unfolding read_options
read_options-last [] file p = refl
read_options-last (config_file name ∷ opts) file p = read_options-last opts name p
read_options-last (unknown ∷ opts) file p = cc
read_options-last (missing ∷ opts) file p = read_options-last opts file p
read_options-last (other ∷ opts) file p = cc

-- Where the command line has an argument, no option that ends the process, and the file that its last
-- `-i` names can be opened and is written in lines of fewer than 511 bytes, each with its line feed:
-- blank ones, comments after `#`, and settings `key = value` with any spaces around the key and the
-- value, which are words (of other bytes than a space or a line feed; the key has no `=` and does not
-- begin with `#`); then `Init` returns, and afterwards `load` of a key gives the value of the first
-- setting of that key, and the empty text where there is none.
pub load-init :
    (argc : ℕ) (opts : List Opt) (files : Bytes → Option Bytes) (ls : List ConfLine) (key : Bytes)
    → 2 ≤ argc
    → all_plain opts ≡ true
    → files (last_file opts []) ≡ some (printed ls)
    → All IsLine ls
    → (config : List (Bytes × Bytes)) × (init argc opts files ≡ some config)
      × (load key config ≡ or_empty (value_of key ls))
unfolding init
load-init argc opts files ls key a p f w = (
  load_config_file (printed ls) [],
  ground (arith, a, read_options-last opts [] p, f),
  load-load_config_file key (printed ls)
      ∙ ap (λ (bufs : List Bytes). or_empty (first_value key bufs))
          (read_buffers-printed (suc (length (printed ls))) ls w (omega (arith, length-printed ls)))
      ∙ ap or_empty (first_value-lines key ls w),
)
