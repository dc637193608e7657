-- ===== src/Coro/Drains.antt =====
-- One loop of `drainCqes` over its CQEs, with and without a coroutine's request in the kernel.
use kim_rpc.Prelude.{ℕ, ◌≡◌, refl, ap, ◌∙◌, List, [], ◌∷◌, Option, none, some, arith, ℤ, pos}
use kim_rpc.Coro.{Body, running, at_io, Frame, Event, other, answers}
use kim_rpc.Coro.Machine.{runs, drains, tests, Machine, go, put, at_point, resume}
use kim_rpc.Coro.Loop.{drain_next, answer_first, resume_from_cqe, resume_handle, step_control, run}
use kim_rpc.Coro.Eval.{first_answer}
use kim_rpc.Coro.Steps.{Leads, Leads-trans}

module _ {V : Type 0} where
  -- The frame of a coroutine that waits, and with the answer.
  abbrev pub parked_frame : ℕ → Frame V → (ℤ → ℕ → Body V) → Frame V
  parked_frame h f k = record f {
    point = at_io k;
    request = record { handle = some h; result = pos 0; cqe_flags = 0 };
  }

  pub step-drains :
      (root : ℕ) (es : List Event) (m : Machine V)
      → m.control ≡ drains
      → m.rest ≡ es
      → run 1 root m ≡ drain_next es m
  unfolding run step_control
  step-drains root es m e r =
      ap (λ c. step_control root c m) e ∙ ap (λ (x : List Event). drain_next x m) r

  -- CQEs while the kernel has no request of a coroutine.
  abbrev pub drained : Machine V → Machine V
  drained m = record m { control = tests; rest = [] }

  pub drains_idle :
      (root : ℕ) (es : List Event) (m : Machine V)
      → m.control ≡ drains
      → m.in_flight ≡ []
      → Leads root (record m { rest = es }) (drained m)
  unfolding drain_next answer_first
  drains_idle root [] m e n = (1, step-drains root [] (record m { rest = [] }) e refl)
  drains_idle root (other ∷ es) m e n =
      Leads-trans root _ _ _
        (1, step-drains root (other ∷ es) (record m { rest = other ∷ es }) e refl)
        (drains_idle root es m e n)
  drains_idle root (answers res flags ∷ es) m e n =
      Leads-trans root _ _ _
        (
          1,
          step-drains root (answers res flags ∷ es) (record m { rest = answers res flags ∷ es }) e
                refl
              ∙ ap (λ (q : List ℕ). answer_first res flags q (record m { rest = es })) n,
        )
        (drains_idle root es m e n)

  -- The answer reaches the coroutine.
  abbrev pub answered_frame : ℕ → Frame V → (ℤ → ℕ → Body V) → ℤ → ℕ → Frame V
  answered_frame h f k res flags = record f {
    point = at_io k;
    request = record { handle = some h; result = res; cqe_flags = flags };
  }

  abbrev pub woken : ℕ → Frame V → (ℤ → ℕ → Body V) → ℤ → ℕ → List Event → Machine V → Machine V
  woken h f k res flags es m = go (runs h (k res flags)) (
      put h (at_point running (answered_frame h f k res flags))
        (put h (answered_frame h f k res flags) (record m { in_flight = []; rest = es })))

  pub answer_wakes :
      (h : ℕ) (f : Frame V) (k : ℤ → ℕ → Body V) (res : ℤ) (flags : ℕ) (es : List Event)
      (m : Machine V)
      → m.frames h ≡ some (parked_frame h f k)
      → m.in_flight ≡ h ∷ []
      → drain_next (answers res flags ∷ es) m ≡ woken h f k res flags es m
  unfolding drain_next answer_first resume_from_cqe resume_handle resume
  answer_wakes h f k res flags es m e n = ground (arith, e, n)

  -- The loop over the CQEs of one wait, with the request of `h` in the kernel.
  abbrev pub Drains :
      ℕ → ℕ → Frame V → (ℤ → ℕ → Body V) → List Event → Machine V → Option (ℤ × ℕ) → Type 0
  Drains root h f k es m none = Leads root (record m { rest = es }) (drained m)
  Drains root h f k es m (some (res, flags)) =
      (es' : List Event) × Leads root (record m { rest = es }) (woken h f k res flags es' m)

  pub Drains-other :
      (root h : ℕ) (f : Frame V) (k : ℤ → ℕ → Body V) (es : List Event) (m : Machine V)
      (a : Option (ℤ × ℕ))
      → Leads root (record m { rest = other ∷ es }) (record m { rest = es })
      → Drains root h f k es m a
      → Drains root h f k (other ∷ es) m a
  Drains-other root h f k es m none p q = Leads-trans root _ _ _ p q
  Drains-other root h f k es m (some (res, flags)) p (es', q) = (es', Leads-trans root _ _ _ p q)

  pub drains_flight :
      (root h : ℕ) (f : Frame V) (k : ℤ → ℕ → Body V) (es : List Event) (m : Machine V)
      → m.control ≡ drains
      → m.frames h ≡ some (parked_frame h f k)
      → m.in_flight ≡ h ∷ []
      → Drains root h f k es m (first_answer es)
  unfolding drain_next
  drains_flight root h f k [] m e p n = (1, step-drains root [] (record m { rest = [] }) e refl)
  drains_flight root h f k (other ∷ es) m e p n =
      Drains-other root h f k es m (first_answer es)
        (1, step-drains root (other ∷ es) (record m { rest = other ∷ es }) e refl)
        (drains_flight root h f k es m e p n)
  drains_flight root h f k (answers res flags ∷ es) m e p n = (
    es,
    (
      1,
      step-drains root (answers res flags ∷ es) (record m { rest = answers res flags ∷ es }) e refl
          ∙ answer_wakes h f k res flags es (record m { rest = answers res flags ∷ es }) p n,
    ),
  )
