-- ===== src/Logger/Messages.antt =====
-- The messages on their way through the logger.
use kim_rpc.Prelude.{
  take, ◌≡◌, Bool, true, false, refl, ap, sym, ◌∙◌, List, [], ◌∷◌, ◌++◌, Option, none, some, arith,
  Bytes, map, append_assoc, append-nil,
}
use kim_rpc.LockQueue.{push, pop}
use kim_rpc.Logger.{
  LogLevel, Time, file_name, stamp, Line, Logger, formatted, Event, sets, logs, opens, writes,
  write_line, open_file, write_opened, step, run, logged, messages,
}

map-append_one :
    (xs : List Line) (l : Line)
    → map (λ (x : Line). x.message) (xs ++ (l ∷ []))
      ≡ map (λ (x : Line). x.message) xs ++ (l.message ∷ [])
map-append_one [] l = refl
map-append_one (x ∷ xs) l = ap (◌∷◌ x.message) (map-append_one xs l)

-- The writer's `Pop` takes the front message out of the queue and puts it behind those in the files.
write_line-messages :
    (t : Time) (q : List Bytes) (g : Logger)
    → g.m_lck_que ≡ q
    → messages (write_line t (pop q) g) ≡ messages g
unfolding pop
write_line-messages t [] g e = refl
write_line-messages t (x ∷ q) g e =
    let texts = map (λ (l : Line). l.message) g.written in
    let line : Line = record {
      file = file_name t;
      stamp_text = stamp t g.m_loglevel;
      message = x;
    } in
    ap (λ (l : List Bytes). l ++ q) (map-append_one g.written line)
    ∙ append_assoc texts (x ∷ []) q
    ∙ ap (λ (l : List Bytes). texts ++ l) (sym e)

open_file-messages :
    (t : Time) (o : Option Time) (g : Logger) → messages (open_file t o g) ≡ messages g
open_file-messages t none g = refl
open_file-messages t (some u) g = refl

write_opened-messages : (o : Option Time) (g : Logger) → messages (write_opened o g) ≡ messages g
unfolding write_opened
write_opened-messages none g = refl
write_opened-messages (some t) g = write_line-messages t g.m_lck_que g refl

step-messages : (e : Event) (g : Logger) → messages (step e g) ≡ messages g ++ logged (e ∷ [])
unfolding step push
step-messages (sets level) g = sym (append-nil (messages g))
step-messages (logs text) g =
    sym (append_assoc (map (λ (l : Line). l.message) g.written) g.m_lck_que (formatted text ∷ []))
step-messages (opens t) g = open_file-messages t g.opened g ∙ sym (append-nil (messages g))
step-messages writes g = write_opened-messages g.opened g ∙ sym (append-nil (messages g))

logged-cons : (e : Event) (es : List Event) → logged (e ∷ es) ≡ logged (e ∷ []) ++ logged es
logged-cons (sets level) es = refl
logged-cons (logs text) es = refl
logged-cons (opens t) es = refl
logged-cons writes es = refl

-- Whatever the threads do, the messages in the files, followed by those that wait, are those that were
-- there before, followed by the logged ones, each cut to 1023 bytes, in the order of the calls of `Log`.
pub run-messages : (es : List Event) (g : Logger) → messages (run es g) ≡ messages g ++ logged es
unfolding run
run-messages [] g = sym (append-nil (messages g))
run-messages (e ∷ es) g =
    run-messages es (step e g)
    ∙ ap (λ (l : List Bytes). l ++ logged es) (step-messages e g)
    ∙ append_assoc (messages g) (logged (e ∷ [])) (logged es)
    ∙ ap (λ (l : List Bytes). messages g ++ l) (sym (logged-cons e es))

-- The level that the last `SetLogLevel` among the events sets.
pub last_level : List Event → LogLevel → LogLevel
last_level [] level = level
last_level (sets level ∷ es) was = last_level es level
last_level (logs text ∷ es) was = last_level es was
last_level (opens t ∷ es) was = last_level es was
last_level (writes ∷ es) was = last_level es was

-- The writer does not get to write.
abbrev pub no_writes : List Event → Bool
no_writes [] = true
no_writes (writes ∷ es) = false
no_writes (sets level ∷ es) = no_writes es
no_writes (logs text ∷ es) = no_writes es
no_writes (opens t ∷ es) = no_writes es

run-append : (es fs : List Event) (g : Logger) → run (es ++ fs) g ≡ run fs (run es g)
unfolding run
run-append [] fs g = refl
run-append (e ∷ es) fs g = run-append es fs (step e g)

-- What the write after such events appends.
writes_next :
    (es : List Event) (t : Time) (text : Bytes) (q : List Bytes) (g : Logger)
    → no_writes es ≡ true
    → g.opened ≡ some t
    → g.m_lck_que ≡ text ∷ q
    → (step writes (run es g)).written
      ≡ g.written
        ++ (record {
          file = file_name t;
          stamp_text = stamp t (last_level es g.m_loglevel);
          message = text;
        }
            ∷ [])
unfolding run step last_level write_opened push pop formatted
writes_next [] t text q g n o e = ground (arith, o, e)
writes_next (sets level ∷ es) t text q g n o e =
    writes_next es t text q (record g { m_loglevel = level }) n o e
writes_next (logs x ∷ es) t text q g n o e =
    writes_next es t text (q ++ (formatted x ∷ [])) (step (logs x) g) n o
      (ap (λ (l : List Bytes). l ++ (formatted x ∷ [])) e)
writes_next (opens u ∷ es) t text q g n o e =
    writes_next es t text q (open_file u g.opened g) n (ground (arith, o)) (ground (arith, o, e))
    ∙ ground (arith, o)
writes_next (writes ∷ es) t text q g n o e = cc

-- The label of a message: a thread logs it at a level while the queue is empty and the writer waits for
-- a message; before the writer writes, any threads set levels and log other messages. The message is
-- written with the level that the last of them has set, and with its own only where none did, cut to
-- 1023 bytes and with the time and the file of the moment at which the writer began to wait, before it was logged.
pub run_mislabels :
    (es : List Event) (t : Time) (level : LogLevel) (text : Bytes) (g : Logger)
    → no_writes es ≡ true
    → g.opened ≡ some t
    → g.m_lck_que ≡ []
    → (run (sets level ∷ (logs text ∷ (es ++ (writes ∷ [])))) g).written
      ≡ g.written
        ++ (record {
          file = file_name t;
          stamp_text = stamp t (last_level es level);
          message = take 1023 text;
        }
            ∷ [])
unfolding run step push formatted
run_mislabels es t level text g n o e =
    let g' = step (logs text) (step (sets level) g) in
    ap (λ (x : Logger). x.written) (run-append es (writes ∷ []) g')
    ∙ writes_next es t (formatted text) [] g' n o
        (ap (λ (l : List Bytes). l ++ (formatted text ∷ [])) e)
