-- ===== src/Reactor/Progress/Resumes.antt =====
-- The requests on their way come to their end, whatever turns the workers and the reactor take.
use kim_rpc.Prelude.{ℕ, ◌≡◌, ◌⊎◌, true, List, Option, Bytes, is_empty, All}
use kim_rpc.Conn
use kim_rpc.Reactor.{Rpc, Task}
use kim_rpc.Reactor.Progress.{Pool, Step, sum, total, Idle}

-- What there is at the end of a run, or the step that goes on.
abbrev pub EndsOrGoes : Rpc → (Task → Option Bytes) → (Task → ℕ) → Pool → Pool → Type 0
EndsOrGoes rpc serialize f a b =
    (Idle b × (sum f b.resumed ≡ total f a)) ⊎ ((c : Pool) × Step rpc serialize b c)

-- The frames that are ready are empty.
abbrev pub NoFrames : List (Task × Bytes) → Type 0
NoFrames = All (λ (r : Task × Bytes). is_empty r.1 ≡ true)

-- The connections are as before, and no response is on its way.
record Uncounted (a b : Pool) : Type 0 where
  same_conn : b.provider.conn ≡ a.provider.conn
  no_frames : NoFrames b.provider.ready_coros
