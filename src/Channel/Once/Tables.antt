-- ===== src/Channel/Once/Tables.antt =====
-- The invariant of the tables of calls, and what the operations on a table keep.
use kim_rpc.Prelude.{
  ℕ, ◌+◌, ◌≡◌, ◌≤◌, List, [], ◌∷◌, Option, none, some, arith, inl, inr, ◌==◌, All, Bool-cases,
}
use kim_rpc.Channel.{Pending, find, erase, assign, alive, is_expired}
use kim_rpc.Channel.Calls.{Call, slot}
use kim_rpc.Channel.Once.{State}
use kim_rpc.Channel.Once.Counts.{one, count, done_of, owned_done, runs}

abbrev pub occurs : ℕ → List ℕ → ℕ
occurs d [] = 0
occurs d (a ∷ l) = one a d + occurs d l

abbrev pub call_done : ℕ → Call → ℕ
call_done k call = call.done

pub one_same : (d : ℕ) → one d d ≡ 1
one_same d = ground arith

abbrev pub key : {V : Type 0} → ℕ → V → ℕ
key k v = k

-- The calls that are under way with a callback: before their slot, in the table, and taken out of it.
abbrev pub under_way : ℕ → State → ℕ
under_way d s =
    count call_done d s.started + (count done_of d s.channel.m_pending + count owned_done d s.owned)

abbrev pub SameDone : List (ℕ × Call) → ℕ × Pending → Type 0
SameDone sending (id, p) = (call : Call) → find id sending ≡ some call → p.done ≡ call.done

pub record Inv (s : State) : Type 0 where
  -- An id is in use once, and only below the next one.
  pub keys : (i : ℕ) → count key i s.started + count key i s.channel.m_pending ≤ 1
  pub fresh :
      (i : ℕ)
      → s.channel.m_next_id ≤ i
      → count key i s.started + count key i s.channel.m_pending ≡ 0
  pub same : All (SameDone s.sending) s.channel.m_pending
  pub conserved : (d : ℕ) → occurs d s.calls ≡ under_way d s + runs d s.channel.log

pub find-All :
    (P : ℕ × Pending → Type 0) (i : ℕ) (m : List (ℕ × Pending)) (p : Pending)
    → All P m
    → find i m ≡ some p
    → P (i, p)
unfolding find
find-All P i [] p h e = ground arith
find-All P i ((k, q) ∷ m) p (a, h) e = elim (Bool-cases (k == i)) [
  | inl b ↦ ground (arith, b, a)
  | inr b ↦ find-All P i m p h (ground (arith, b, e))
]

pub erase-All :
    (P : ℕ × Pending → Type 0) (i : ℕ) (m : List (ℕ × Pending)) → All P m → All P (erase i m)
unfolding erase
erase-All P i [] h = h
erase-All P i ((k, q) ∷ m) (a, h) = elim (Bool-cases (k == i)) [
  | inl b ↦ rw b h
  | inr b ↦ rw b (a, erase-All P i m h)
]

pub alive-All :
    (P : ℕ × Pending → Type 0) (now : ℕ) (m : List (ℕ × Pending)) → All P m → All P (alive now m)
unfolding alive
alive-All P now [] h = h
alive-All P now ((k, q) ∷ m) (a, h) = elim (Bool-cases (is_expired now q.deadline)) [
  | inl b ↦ rw b (alive-All P now m h)
  | inr b ↦ rw b (a, alive-All P now m h)
]

pub assign-same :
    (sending : List (ℕ × Call)) (id : ℕ) (call : Call) (deadline : Option ℕ)
    (m : List (ℕ × Pending))
    → All (SameDone sending) m
    → find id m ≡ none
    → All (SameDone ((id, call) ∷ sending)) (assign id (slot call deadline) m)
unfolding find assign
assign-same sending id call deadline [] h e = ((λ c q. ground (arith, q)), h)
assign-same sending id call deadline ((k, q) ∷ m) (a, h) e = elim (Bool-cases (k == id)) [
  | inl b ↦ absurd (ground (arith, b, e))
  | inr b ↦ rw b (
    (λ c r. a c (ground (arith, b, r))),
    assign-same sending id call deadline m h (ground (arith, b, e)),
  )
]
