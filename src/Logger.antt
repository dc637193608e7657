-- ===== src/Logger.antt =====
-- src/logger.cc and the macros of src/include/logger.h. Any number of threads log; one thread writes. An
-- event is what one of them does under one lock, or the writer's steps before and after it waits; the
-- time of day is what `localtime` gives. `m_loglevel` is one for all threads, and is read by the writer.
pub mod Messages
use kim_rpc.Prelude.{
  ℕ, zero, suc, ◌+◌, ◌-◌, ◌≡◌, refl, ap, sym, ◌∙◌, Bool, true, false, List, [], ◌∷◌, ◌++◌, Option,
  none, some, arith, Bytes, codes, length, take, to_string, pos, map, append_assoc, append-nil,
}
use kim_rpc.LockQueue.{push, pop}

pub data LogLevel : Type 0 where
  info error : LogLevel

-- The fields of `tm` that are printed, with the year and the month as they are shown.
pub record Time : Type 0 where
  pub year : ℕ
  pub month : ℕ
  pub day : ℕ
  pub hour : ℕ
  pub minute : ℕ
  pub second : ℕ

-- `%0wd`.
abbrev zeros : ℕ → Bytes
zeros zero = []
zeros (suc n) = b'0' ∷ zeros n

unfoldable pub padded : ℕ → ℕ → Bytes
padded width n = let s = to_string (pos n) in zeros (width - length s) ++ s

unfoldable pub file_name : Time → Bytes
unfolding padded
file_name t =
    padded 4 t.year ++ (b'-' ∷ (padded 2 t.month ++ (b'-' ∷ (padded 2 t.day ++ codes "-log.txt"))))

abbrev pub level_text : LogLevel → Bytes
level_text info = codes "info"
level_text error = codes "error"

unfoldable pub stamp : Time → LogLevel → Bytes
unfolding padded
stamp t level =
    padded 2 t.hour
    ++ (b':'
        ∷ (padded 2 t.minute
            ++ (b':' ∷ (padded 2 t.second ++ (codes " =>[" ++ (level_text level ++ codes "] "))))))

-- What is appended to a file.
pub record Line : Type 0 where
  pub file : Bytes
  pub stamp_text : Bytes
  pub message : Bytes

-- The bytes of a line.
abbrev pub line_bytes : Line → Bytes
line_bytes l = l.stamp_text ++ (l.message ++ (10 ∷ []))

-- `opened` is the time that the writer took before it waits for a message.
pub record Logger : Type 0 where
  pub m_loglevel : LogLevel
  pub m_lck_que : List Bytes
  pub opened : Option Time
  pub written : List Line

-- The buffer of a macro: 1024 bytes with the 0 at the end.
unfoldable pub formatted : Bytes → Bytes
formatted text = take 1023 text

-- The two steps of a macro, `SetLogLevel` and `Log`; the writer takes the time and opens the file; the
-- writer's `Pop` returns and it writes the line.
pub data Event : Type 0 where
  sets : LogLevel → Event
  logs : Bytes → Event
  opens : Time → Event
  writes : Event

abbrev pub write_line : Time → Option (Bytes × List Bytes) → Logger → Logger
write_line t none g = g
write_line t (some (msg, queue)) g = record g {
  m_lck_que = queue;
  opened = none;
  written =
      g.written
      ++ (record { file = file_name t; stamp_text = stamp t g.m_loglevel; message = msg } ∷ []);
}

abbrev pub open_file : Time → Option Time → Logger → Logger
open_file t none g = record g { opened = some t }
open_file t (some u) g = g

abbrev pub write_opened : Option Time → Logger → Logger
unfolding pop
write_opened none g = g
write_opened (some t) g = write_line t (pop g.m_lck_que) g

unfoldable pub step : Event → Logger → Logger
unfolding push formatted write_opened
step (sets level) g = record g { m_loglevel = level }
step (logs text) g = record g { m_lck_que = push (formatted text) g.m_lck_que }
step (opens t) g = open_file t g.opened g
step writes g = write_opened g.opened g

-- The events in their order.
unfoldable pub run : List Event → Logger → Logger
unfolding step
run [] g = g
run (e ∷ es) g = run es (step e g)

-- The messages that were logged, as they are to be written: 1023 bytes of each.
abbrev pub logged : List Event → List Bytes
logged [] = []
logged (logs text ∷ es) = take 1023 text ∷ logged es
logged (_ ∷ es) = logged es

abbrev pub messages : Logger → List Bytes
messages g = map (λ (l : Line). l.message) g.written ++ g.m_lck_que
