-- ===== src/LockQueue.antt =====
-- src/include/lockqueue.h: the log queue. Each call holds the mutex throughout, so the calls of the
-- threads stand in one order; `pop` waits on an empty queue, so a `pop` that returns is a step that
-- takes the front. The front of `m_queue` is the head of the list.
use kim_rpc.Prelude.{
  ◌≡◌, refl, sym, ap, ◌∙◌, List, [], ◌∷◌, ◌++◌, Option, none, some, append-nil, append_assoc,
}

module _ {ℓ} {A : Type ℓ} where
  unfoldable pub push : A → List A → List A
  push x queue = queue ++ (x ∷ [])

  -- `none`: the caller waits.
  unfoldable pub pop : List A → Option (A × List A)
  pop [] = none
  pop (x ∷ queue) = some (x, queue)

  -- One call of one thread, with what it put in or took out.
  pub data Step : List A → List A → List A → List A → Type ℓ where
    pushes : (x : A) {q q' : List A} → push x q ≡ q' → Step q (x ∷ []) [] q'
    pops : (x : A) {q q' : List A} → pop q ≡ some (x, q') → Step q [] (x ∷ []) q'

  -- A history of calls of any threads, with all that was put in and taken out so far.
  pub data Reach : List A → List A → List A → Type ℓ where
    start : Reach [] [] []
    next :
        {ins outs xs ys q q' : List A}
        → Reach ins outs q
        → Step q xs ys q'
        → Reach (ins ++ xs) (outs ++ ys) q'

  Step-fifo :
      {xs ys q q' : List A} (outs : List A)
      → Step q xs ys q'
      → (outs ++ q) ++ xs ≡ (outs ++ ys) ++ q'
  unfolding push pop
  Step-fifo outs (pushes x {q = q} e) =
      rw (← e)
        (append_assoc outs q (x ∷ []) ∙ ap (λ l. l ++ (q ++ (x ∷ []))) (sym (append-nil outs)))
  Step-fifo outs (pops x {q = []} e) = cc
  Step-fifo outs (pops x {q = y ∷ q} {q' = q'} e) = rw (append-nil, append_assoc) (cc)

  -- Whatever the threads do, what was taken out so far, followed by what waits, is what was put in,
  -- in that order: nothing is lost, repeated or reordered.
  pub Reach-fifo : {ins outs q : List A} → Reach ins outs q → ins ≡ outs ++ q
  Reach-fifo start = refl
  Reach-fifo (next {outs = outs} {xs = xs} r st) =
      ap (λ l. l ++ xs) (Reach-fifo r) ∙ Step-fifo outs st
