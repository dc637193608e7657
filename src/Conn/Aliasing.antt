-- ===== src/Conn/Aliasing.antt =====
-- Connection ids: `deliverResponse` compares them to see whether a descriptor was taken over by
-- another connection.
use kim_rpc.Prelude.{
  ℕ, ◌+◌, ◌%◌, ◌^◌, ◌<◌, ◌≡◌, refl, sym, ◌∙◌, ◌≢◌, List, [], ◌∷◌, Option, none, some, arith, inl,
  inr, length, Option-cases,
}
use kim_rpc.Conn.{
  ConnectionManager, Ptr, acquire_from, enter, acquire, find, on_submit, complete, on_complete,
  close_at, close,
}
use kim_rpc.Conn.Invariant.{Inv}

-- Every context has an id of its own, and all of them were handed out.
pub record HasIds (m : ConnectionManager) : Type 0 where
  pub below : (p : Ptr) → p < m.conn_count → (m.conns p).conn_id < m.next_id
  pub distinct :
      (p q : Ptr)
      → p < m.conn_count
      → q < m.conn_count
      → p ≢ q
      → (m.conns p).conn_id ≢ (m.conns q).conn_id

-- The id `k` was handed out, and no active entry has it.
pub record Retired (k : ℕ) (m : ConnectionManager) : Type 0 where
  pub handed_out : k < m.next_id
  pub unused : (fd p : ℕ) → m.active fd ≡ some p → (m.conns p).conn_id ≢ k

-- The calls of the reactor on its connections.
pub data Op : Type 0 where
  acquires : ℕ → Op
  submits : Ptr → Op
  completes : Option Ptr → Op
  closes : ℕ → Op

unfoldable pub apply : Op → ConnectionManager → ConnectionManager
apply (acquires fd) m = (acquire fd m).1
apply (submits p) m = on_submit p m
apply (completes p) m = (on_complete p m).1
apply (closes fd) m = close fd m

unfoldable pub run : List Op → ConnectionManager → ConnectionManager
run [] m = m
run (o ∷ os) m = run os (apply o m)

-- How an operation other than `acquire` changes the parts that ids depend on: entries are only
-- removed, and no context gets another id.
pub record Keeps (m m' : ConnectionManager) : Type 0 where
  pub same_next : m'.next_id ≡ m.next_id
  pub same_ids : (p : Ptr) → (m'.conns p).conn_id ≡ (m.conns p).conn_id
  pub removed : (fd p : ℕ) → m'.active fd ≡ some p → m.active fd ≡ some p

pub on_submit-Keeps : (p : Ptr) (m : ConnectionManager) → Keeps m (on_submit p m)
unfolding on_submit
on_submit-Keeps p m = record {
  same_next = refl;
  same_ids = λ q. ground arith;
  removed = λ fd q e. e;
}

pub complete-Keeps : (p : Ptr) (m : ConnectionManager) → Keeps m (complete p m).1
unfolding complete
complete-Keeps p m = record {
  same_next = ground arith;
  same_ids = λ q. ground arith;
  removed = λ fd q e. ground arith;
}

on_complete-Keeps : (p : Option Ptr) (m : ConnectionManager) → Keeps m (on_complete p m).1
unfolding on_complete
on_complete-Keeps none m = record { same_next = refl; same_ids = λ q. refl; removed = λ fd q e. e }
on_complete-Keeps (some p) m = complete-Keeps p m

close_at-Keeps : (fd p : ℕ) (m : ConnectionManager) → Keeps m (close_at fd p m)
unfolding close_at
close_at-Keeps fd p m = record {
  same_next = ground arith;
  same_ids = λ q. ground arith;
  removed = λ f q e. ground arith;
}

pub close-Keeps : (fd : ℕ) (m : ConnectionManager) → Keeps m (close fd m)
unfolding close
close-Keeps fd m = elim (Option-cases (m.active fd)) [
  | inl e ↦ rw (e, close) (record { same_next = refl; same_ids = λ q. refl; removed = λ f q a. a })
  | inr (p, e) ↦ rw (e, close) (close_at-Keeps fd p m)
]

Keeps-Retired : {k : ℕ} {m m' : ConnectionManager} → Keeps m m' → Retired k m → Retired k m'
Keeps-Retired {k} {m} {m'} s r = record {
  handed_out = omega (arith, s.same_next, r.handed_out);
  unused = λ fd p e i. r.unused fd p (s.removed fd p e) (sym (s.same_ids p) ∙ i);
}

acquire_from-Retired :
    (l : List Ptr) (fd k : ℕ) (m : ConnectionManager)
    → m.next_id + 1 < 2 ^ 64
    → Retired k m
    → Retired k (acquire_from l fd m).1
unfolding enter
acquire_from-Retired [] fd k m h r = record {
  handed_out = omega (arith, r.handed_out);
  unused = λ f p e. ground (arith, r.unused f p, r.handed_out);
}
acquire_from-Retired (q ∷ rest) fd k m h r = record {
  handed_out = omega (arith, r.handed_out);
  unused = λ f p e. ground (arith, r.unused f p, r.handed_out);
}

apply-Retired :
    (o : Op) (k : ℕ) (m : ConnectionManager)
    → m.next_id + 1 < 2 ^ 64
    → Retired k m
    → Retired k (apply o m)
unfolding apply acquire
apply-Retired (acquires fd) k m h r = acquire_from-Retired m.idle_pool fd k m h r
apply-Retired (submits p) k m h r = Keeps-Retired (on_submit-Keeps p m) r
apply-Retired (completes p) k m h r = Keeps-Retired (on_complete-Keeps p m) r
apply-Retired (closes fd) k m h r = Keeps-Retired (close-Keeps fd m) r

acquire_from-next :
    (l : List Ptr) (fd : ℕ) (m : ConnectionManager)
    → (acquire_from l fd m).1.next_id ≡ (m.next_id + 1) % 2 ^ 64
unfolding enter
acquire_from-next [] fd m = refl
acquire_from-next (q ∷ rest) fd m = refl

apply-next :
    (o : Op) (m : ConnectionManager) → m.next_id + 1 < 2 ^ 64 → (apply o m).next_id < m.next_id + 2
unfolding apply acquire
apply-next (acquires fd) m h = omega (arith, acquire_from-next m.idle_pool fd m)
apply-next (submits p) m h = omega (arith, (on_submit-Keeps p m).same_next)
apply-next (completes p) m h = omega (arith, (on_complete-Keeps p m).same_next)
apply-next (closes fd) m h = omega (arith, (close-Keeps fd m).same_next)

run-Retired :
    (os : List Op) (k : ℕ) (m : ConnectionManager)
    → m.next_id + length os < 2 ^ 64
    → Retired k m
    → Retired k (run os m)
unfolding run
run-Retired [] k m h r = r
run-Retired (o ∷ os) k m h r =
    run-Retired os k (apply o m) (omega (arith, apply-next o m (omega arith)))
      (apply-Retired o k m (omega arith) r)

close_at-gone : (fd p : ℕ) (m : ConnectionManager) → (close_at fd p m).active fd ≡ none
unfolding close_at
close_at-gone fd p m = ground arith

pub close-gone : (fd : ℕ) (m : ConnectionManager) → (close fd m).active fd ≡ none
unfolding close
close-gone fd m = elim (Option-cases (m.active fd)) [
  | inl e ↦ rw (e, close) e
  | inr (p, e) ↦ rw (e, close) (close_at-gone fd p m)
]

-- Closing a connection retires its id.
close-Retired :
    (fd p : ℕ) (m : ConnectionManager)
    → Inv m
    → HasIds m
    → find fd m ≡ some p
    → Retired (m.conns p).conn_id (close fd m)
unfolding find close
close-Retired fd p m v ids e =
    rw (e, close)
      (record {
        handed_out =
            omega (arith, (close_at-Keeps fd p m).same_next, ids.below p (v.active_open fd p e).0);
        unused = λ f q a i.
            ids.distinct q p (v.active_open f q ((close_at-Keeps fd p m).removed f q a)).0
              (v.active_open fd p e).0
              (λ s. ground (
                arith,
                close_at-gone fd p m,
                v.active_open fd p e,
                v.active_open f q ((close_at-Keeps fd p m).removed f q a),
                a,
                s,
              ))
              (sym ((close_at-Keeps fd p m).same_ids q) ∙ i);
      })

-- After `close` of a connection, and after any calls that follow, no descriptor finds a connection
-- with the id of the closed one, also where the descriptor and the context were taken over. (The
-- number of ids handed out stays below 2 ^ 64.)
pub close_retires_id :
    (fd p : ℕ) (m : ConnectionManager) (os : List Op) (f q : ℕ)
    → Inv m
    → HasIds m
    → m.next_id + length os < 2 ^ 64
    → find fd m ≡ some p
    → find f (run os (close fd m)) ≡ some q
    → ((run os (close fd m)).conns q).conn_id ≢ (m.conns p).conn_id
unfolding find
close_retires_id fd p m os f q v ids h e a =
    (run-Retired os _ (close fd m) (omega (arith, (close-Keeps fd m).same_next))
        (close-Retired fd p m v ids e)).unused
      f q a
