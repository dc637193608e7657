-- ===== src/Conn/Invariant.antt =====
-- The invariant of the connection tables, and the operations under it.
use kim_rpc.Prelude.{
  ℕ, suc, ◌+◌, ◌<◌, ◌≡◌, refl, ap, Bool, false, ◌&&◌, List, [], ◌∷◌, some, arith, inl, inr, ltb,
  ◌==◌, if◌then◌else◌, pos, is_neg, is_zero, Option-cases,
}
use kim_rpc.Conn.{
  ConnectionContext, ConnectionManager, Ptr, new_manager, enter, acquire_from, acquire, on_submit,
  complete, close_at, close,
}

-- How often a pointer stands in the pool.
abbrev pub occurs : Ptr → List Ptr → ℕ
occurs p [] = 0
occurs p (q ∷ qs) = (if q == p then 1 else 0) + occurs p qs

-- A context is at rest when it was closed and its last operation has come back.
abbrev pub at_rest : ConnectionContext → Bool
at_rest c = c.closing && is_zero c.inflight

pub record Inv (m : ConnectionManager) : Type 0 where
  -- An active entry points to an open context of that descriptor.
  pub active_open :
      (fd p : ℕ)
      → m.active fd ≡ some p
      → (p < m.conn_count) × ((m.conns p).fd ≡ fd) × ((m.conns p).closing ≡ false)
  -- The pool holds each context at rest once, and nothing else.
  pub pool :
      (p : ℕ) → occurs p m.idle_pool ≡ (if ltb p m.conn_count && at_rest (m.conns p) then 1 else 0)
  -- No context has fewer than no operations in flight.
  pub counted : (p : ℕ) → is_neg (m.conns p).inflight ≡ false

pub new_manager-Inv : Inv new_manager
unfolding new_manager
new_manager-Inv = record {
  active_open = λ fd p e. cc;
  pool = λ p. ground arith;
  counted = λ p. refl;
}

acquire_from-Inv :
    (l : List Ptr) (fd : ℕ) (m : ConnectionManager)
    → Inv m
    → m.idle_pool ≡ l
    → Inv (acquire_from l fd m).1
unfolding enter
acquire_from-Inv [] fd m v e = record {
  active_open = λ f p a. ground (arith, v.active_open f p);
  pool = λ p. ground (arith, v.pool p, ap (occurs p) e);
  counted = λ p. ground (arith, v.counted p);
}
acquire_from-Inv (q ∷ rest) fd m v e = record {
  active_open = λ f p a. ground (arith, v.active_open f p, v.pool q, ap (occurs q) e);
  pool = λ p. ground (arith, v.pool p, v.pool q, ap (occurs p) e, ap (occurs q) e);
  counted = λ p. ground (arith, v.counted p);
}

pub acquire-Inv : (fd : ℕ) (m : ConnectionManager) → Inv m → Inv (acquire fd m).1
unfolding acquire
acquire-Inv fd m v = acquire_from-Inv m.idle_pool fd m v refl

-- An operation is submitted for a context that is not at rest.
pub on_submit-Inv :
    (p : Ptr) (m : ConnectionManager) → at_rest (m.conns p) ≡ false → Inv m → Inv (on_submit p m)
unfolding on_submit
on_submit-Inv p m live v = record {
  active_open = λ f q a. ground (arith, v.active_open f q);
  pool = λ q. ground (arith, v.pool q, v.counted q, v.counted p);
  counted = λ q. ground (arith, v.counted q);
}

-- The kernel completes an operation that was submitted.
pub complete-Inv :
    (p n : ℕ) (m : ConnectionManager)
    → p < m.conn_count
    → (m.conns p).inflight ≡ pos (suc n)
    → Inv m
    → Inv (complete p m).1
unfolding complete
complete-Inv p n m inside e v = record {
  active_open = λ f q a. ground (arith, v.active_open f q);
  pool = λ q. ground (arith, v.pool q);
  counted = λ q. ground (arith, v.counted q);
}

close_at-Inv :
    (fd p : ℕ) (m : ConnectionManager) → m.active fd ≡ some p → Inv m → Inv (close_at fd p m)
unfolding close_at
close_at-Inv fd p m e v = record {
  active_open = λ f q a. ground (arith, v.active_open f q, v.active_open fd p);
  pool = λ q. ground (arith, v.pool q, v.active_open fd p);
  counted = λ q. ground (arith, v.counted q);
}

pub close-Inv : (fd : ℕ) (m : ConnectionManager) → Inv m → Inv (close fd m)
unfolding close
close-Inv fd m v = elim (Option-cases (m.active fd)) [
  | inl e ↦ rw (e, close) v
  | inr (p, e) ↦ rw (e, close) (close_at-Inv fd p m e v)
]
