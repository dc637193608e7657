-- ===== src/Coro/Eval.antt =====
-- What a chain of coroutines computes, in direct style: a body is a function that calls others and
-- waits for each operation on the spot. Nothing is suspended and there are no frames.
use kim_rpc.Prelude.{ℕ, Bool, true, false, List, [], ◌∷◌, Option, none, some, ℤ, negsuc}
use kim_rpc.Coro.{
  IoOp, Outcome, returns, throws, Body, ret, throw, await, io, Event, other, answers, Ring,
}
use kim_rpc.Coro.Machine.{got_sqe, after_get, prepare}

-- An end with the ring that it leaves, or that the kernel answers no more.
pub data Ended (V : Type 0) : Type 0 where
  ends : Outcome V → Ring → Ended V
  hangs : Ring → Ended V

-- The first answer among the CQEs of one wait, and of all that come.
abbrev pub first_answer : List Event → Option (ℤ × ℕ)
first_answer [] = none
first_answer (other ∷ es) = first_answer es
first_answer (answers res flags ∷ es) = some (res, flags)

abbrev pub next_answer : List (List Event) → Option ((ℤ × ℕ) × List (List Event))
next_answer [] = none
next_answer (es ∷ script) = elim (first_answer es) [
  | some a ↦ some (a, script)
  | none ↦ next_answer script
]

abbrev pub rescript : List (List Event) → Ring → Ring
rescript script r = record r { script = script }

module _ {V : Type 0} where
  abbrev pub and_then : Ended V → (Outcome V → Ring → Ended V) → Ended V
  and_then (ends o r) k = k o r
  and_then (hangs r) k = hangs r

  abbrev pub answered :
      Option ((ℤ × ℕ) × List (List Event)) → (ℤ → ℕ → Ring → Ended V) → Ring → Ended V
  answered none k r = hangs (rescript [] r)
  answered (some ((res, flags), script)) k r = k res flags (rescript script r)

  abbrev pub perform : IoOp → (ℤ → ℕ → Ring → Ended V) → Bool → Ring → Ended V
  perform op k false r = k (negsuc 11) 0 r
  perform op k true r = answered (next_answer r.script) k (prepare op r)

  unfoldable pub eval : Body V → Ring → Ended V
  eval (ret v) r = ends (returns v) r
  eval (throw e) r = ends (throws e) r
  eval (await b k) r = and_then (eval b r) (λ o r'. eval (k o) r')
  eval (io op k) r = perform op (λ res flags r'. eval (k res flags) r') (got_sqe r) (after_get r)
