-- ===== src/Conn/Reach.antt =====
-- The connection manager under the calls of its reactor, from its start on.
use kim_rpc.Prelude.{
  ap, ◌≤◌, ℕ, suc, ◌+◌, ◌^◌, ◌<◌, ◌≡◌, refl, sym, ◌∙◌, false, List, [], ◌∷◌, arith, pos,
}
use kim_rpc.Conn.{
  ConnectionManager, Ptr, new_manager, acquire_from, enter, acquire, on_submit, complete, close,
  update,
}
use kim_rpc.Conn.Invariant.{
  Inv, occurs, at_rest, new_manager-Inv, acquire-Inv, on_submit-Inv, complete-Inv, close-Inv,
}
use kim_rpc.Conn.Aliasing.{HasIds, Keeps, on_submit-Keeps, complete-Keeps, close-Keeps}

-- The operations that the kernel has for each context, by its own books.
abbrev pub Kernel : Type 0
Kernel = Ptr → ℕ

-- One call, with what the kernel has after it. An operation is submitted for a context that is not at
-- rest; the kernel completes only what it has, one at a time. Ids stay below 2 ^ 64.
pub data Step (m : ConnectionManager) (k : Kernel) : ConnectionManager → Kernel → Type 0 where
  acquires : (fd : ℕ) → m.next_id + 1 < 2 ^ 64 → Step m k (acquire fd m).1 k
  submits :
      (p : Ptr)
      → p < m.conn_count
      → at_rest (m.conns p) ≡ false
      → Step m k (on_submit p m) (update k p (suc (k p)))
  completes : (p n : ℕ) → k p ≡ suc n → Step m k (complete p m).1 (update k p n)
  closes : (fd : ℕ) → Step m k (close fd m) k

pub data Reach : ConnectionManager → Kernel → Type 0 where
  start : Reach new_manager (λ p. 0)
  next : {m m' : ConnectionManager} {k k' : Kernel} → Reach m k → Step m k m' k' → Reach m' k'

-- The manager's counts are the kernel's.
pub record Counts (m : ConnectionManager) (k : Kernel) : Type 0 where
  pub in_flight : (p : ℕ) → p < m.conn_count → (m.conns p).inflight ≡ pos (k p)
  pub none_beyond : (p : ℕ) → m.conn_count ≤ p → k p ≡ 0

inside :
    (m : ConnectionManager) (k : Kernel) (p n : ℕ) → Counts m k → k p ≡ suc n → p < m.conn_count
inside m k p n c e = ground (arith, c.none_beyond p, e)

counted :
    (m : ConnectionManager) (k : Kernel) (p n : ℕ)
    → Counts m k
    → k p ≡ suc n
    → (m.conns p).inflight ≡ pos (suc n)
counted m k p n c e = c.in_flight p (inside m k p n c e) ∙ ap pos e

Step-Inv : {m m' : ConnectionManager} {k k' : Kernel} → Step m k m' k' → Counts m k → Inv m → Inv m'
Step-Inv {m} {k = k} (acquires fd h) c v = acquire-Inv fd m v
Step-Inv {m} {k = k} (submits p b h) c v = on_submit-Inv p m h v
Step-Inv {m} {k = k} (completes p n e) c v =
    complete-Inv p n m (inside m k p n c e) (counted m k p n c e) v
Step-Inv {m} {k = k} (closes fd) c v = close-Inv fd m v

-- A context that is handed out again has nothing in flight.
acquire_from-Counts :
    (l : List Ptr) (fd : ℕ) (m : ConnectionManager) (k : Kernel)
    → Inv m
    → m.idle_pool ≡ l
    → Counts m k
    → Counts (acquire_from l fd m).1 k
unfolding enter
acquire_from-Counts [] fd m k v e c = record {
  in_flight = λ p b. ground (arith, b, c.in_flight p, c.none_beyond p);
  none_beyond = λ p b. ground (arith, b, c.none_beyond p);
}
acquire_from-Counts (q ∷ rest) fd m k v e c = record {
  in_flight = λ p b. ground (arith, b, c.in_flight p, v.pool q, ap (occurs q) e);
  none_beyond = λ p b. ground (arith, b, c.none_beyond p);
}

Step-Counts :
    {m m' : ConnectionManager} {k k' : Kernel} → Step m k m' k' → Inv m → Counts m k → Counts m' k'
unfolding acquire on_submit complete close
Step-Counts {m} {k = k} (acquires fd h) v c = acquire_from-Counts m.idle_pool fd m k v refl c
Step-Counts {m} {k = k} (submits p b h) v c = record {
  in_flight = λ q d. ground (arith, b, d, c.in_flight q, c.in_flight p);
  none_beyond = λ q d. ground (arith, b, d, c.none_beyond q);
}
Step-Counts {m} {k = k} (completes p n e) v c = record {
  in_flight =
      λ q d. ground (arith, d, e, c.in_flight q, c.in_flight p, c.none_beyond p, c.none_beyond q);
  none_beyond = λ q d. ground (arith, d, e, c.none_beyond q, c.none_beyond p);
}
Step-Counts {m} {k = k} (closes fd) v c = record {
  in_flight = λ q d. ground (arith, d, c.in_flight q);
  none_beyond = λ q d. ground (arith, d, c.none_beyond q);
}

acquire_from-HasIds :
    (l : List Ptr) (fd : ℕ) (m : ConnectionManager)
    → m.next_id + 1 < 2 ^ 64
    → HasIds m
    → HasIds (acquire_from l fd m).1
unfolding enter
acquire_from-HasIds [] fd m h ids = record {
  below = λ p b. ground (arith, ids.below p);
  distinct = λ p q b c d e. ground (arith, ids.below p, ids.below q, ids.distinct p q, b, c, d, e);
}
acquire_from-HasIds (r ∷ rest) fd m h ids = record {
  below = λ p b. ground (arith, ids.below p);
  distinct = λ p q b c d e. ground (arith, ids.below p, ids.below q, ids.distinct p q, b, c, d, e);
}

-- Only `acquire` allocates.
pub record SameCount (m m' : ConnectionManager) : Type 0 where
  same_count : m'.conn_count ≡ m.conn_count

on_submit-SameCount : (p : Ptr) (m : ConnectionManager) → SameCount m (on_submit p m)
unfolding on_submit
on_submit-SameCount p m = record { same_count = refl }

complete-SameCount : (p : Ptr) (m : ConnectionManager) → SameCount m (complete p m).1
unfolding complete
complete-SameCount p m = record { same_count = ground arith }

close-SameCount : (fd : ℕ) (m : ConnectionManager) → SameCount m (close fd m)
unfolding close
close-SameCount fd m = record { same_count = ground arith }

Keeps-HasIds : {m m' : ConnectionManager} → SameCount m m' → Keeps m m' → HasIds m → HasIds m'
Keeps-HasIds {m} {m'} c s ids = record {
  below =
      λ p b. omega (arith, ids.below p (omega (arith, c.same_count)), s.same_next, s.same_ids p);
  distinct = λ p q b b' d e.
      ids.distinct p q (omega (arith, c.same_count)) (omega (arith, c.same_count)) d
        (sym (s.same_ids p) ∙ e ∙ s.same_ids q);
}

Step-HasIds : {m m' : ConnectionManager} {k k' : Kernel} → Step m k m' k' → HasIds m → HasIds m'
unfolding acquire
Step-HasIds {m} (acquires fd h) ids = acquire_from-HasIds m.idle_pool fd m h ids
Step-HasIds {m} (submits p b h) ids =
    Keeps-HasIds (on_submit-SameCount p m) (on_submit-Keeps p m) ids
Step-HasIds {m} (completes p n e) ids =
    Keeps-HasIds (complete-SameCount p m) (complete-Keeps p m) ids
Step-HasIds {m} (closes fd) ids = Keeps-HasIds (close-SameCount fd m) (close-Keeps fd m) ids

new_manager-HasIds : HasIds new_manager
unfolding new_manager
new_manager-HasIds = record { below = λ p b. ground arith; distinct = λ p q b c d e. ground arith }

-- In every state that the manager reaches, as long as operations are submitted only for contexts that
-- are not at rest, the kernel completes only operations that it has, and ids stay below 2 ^ 64: the
-- count of operations in flight of every context is exactly the number that the kernel has for it;
-- the tables agree (an active entry points to an open context of its descriptor; the idle pool
-- holds every closed context with nothing in flight, once, and no other); and no two contexts share
-- an id.
pub Reach-Inv : {m : ConnectionManager} {k : Kernel} → Reach m k → Inv m × Counts m k × HasIds m
unfolding new_manager
Reach-Inv start = (
  new_manager-Inv,
  record { in_flight = λ p b. ground (arith, b); none_beyond = λ p b. refl },
  new_manager-HasIds,
)
Reach-Inv (next r st) =
    let (v, c, ids) = Reach-Inv r in (Step-Inv st c v, Step-Counts st v c, Step-HasIds st ids)
