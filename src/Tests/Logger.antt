-- ===== src/Tests/Logger.antt =====
-- The logger and the command line at concrete inputs.
use kim_rpc.Prelude.{
  take, All, ◌≡◌, refl, List, [], ◌∷◌, ◌++◌, Option, none, some, arith, Bytes, codes,
}
use kim_rpc.Application.{config_file, missing, init, load-init}
use kim_rpc.Config.{load, or_empty}
use kim_rpc.Config.Printed.{ConfLine, comment, setting, IsLine, printed, value_of}
use kim_rpc.Logger.{
  info, error, Time, file_name, stamp, Logger, Event, sets, logs, opens, writes, run, logged,
  messages,
}
use kim_rpc.Logger.Messages.{run-messages, last_level, run_mislabels}

abbrev noon : Time
noon = record { year = 2026; month = 1; day = 2; hour = 12; minute = 0; second = 5 }

abbrev idle : Logger
idle = record { m_loglevel = error; m_lck_que = []; opened = none; written = [] }

-- The writer waits for a message.
abbrev waiting : Logger
waiting = record idle { opened = some noon }

-- Two threads log, and the writer writes once.
abbrev events : List Event
events = opens noon ∷ (sets info ∷ (logs (codes "a") ∷ (writes ∷ (logs (codes "b") ∷ []))))

run-messages_example : messages (run events idle) ≡ [] ++ logged events
run-messages_example = run-messages events idle

run_mislabels_example :
    (run
      (sets info ∷ (logs (codes "a") ∷ ((sets error ∷ (logs (codes "b") ∷ [])) ++ (writes ∷ []))))
      waiting).written
    ≡ []
      ++ (record {
        file = file_name noon;
        stamp_text = stamp noon (last_level (sets error ∷ (logs (codes "b") ∷ [])) info);
        message = take 1023 (codes "a");
      }
          ∷ [])
run_mislabels_example =
    run_mislabels (sets error ∷ (logs (codes "b") ∷ [])) noon info (codes "a") waiting refl refl
      refl

-- A comment, " a = 1 ", and "a=2".
abbrev lines : List ConfLine
lines =
    comment 0 (codes "a=3")
    ∷ (setting 1 (codes "a") 1 1 (codes "1") 1 ∷ (setting 0 (codes "a") 0 0 (codes "2") 0 ∷ []))

abbrev files : Bytes → Option Bytes
files name = some (printed lines)

lines-IsLine : All IsLine lines
lines-IsLine = ground arith

load-init_example :
    (config : List (Bytes × Bytes)) × (init 3 (missing ∷ (config_file (codes "x.conf") ∷ [])) files
      ≡ some config)
    × (load (codes "a") config ≡ or_empty (value_of (codes "a") lines))
load-init_example =
    load-init 3 (missing ∷ (config_file (codes "x.conf") ∷ [])) files lines (codes "a")
      (omega arith) refl refl lines-IsLine
