-- ===== src/Reactor/Sending.antt =====
-- The responses of a connection on their way out: `handleSend`, `submitSend` and `deliverResponse`.
use kim_rpc.Prelude.{
  ℕ, suc, ◌+◌, ◌≤◌, ◌<◌, ◌≡◌, refl, ap, sym, subst, ◌∙◌, ◌⊎◌, inl, inr, Bool, true, false, List, [],
  ◌∷◌, ◌++◌, arith, Bytes, length, drop, drop-add, drop-append, Bool-cases, pos, dec, ltb, ltb→lt,
  leb, not, ◌&&◌, is_empty,
}
use kim_rpc.Conn.{Ptr, ConnectionContext}
use kim_rpc.Conn
use kim_rpc.Reactor.{Provider, ctx_at, on_ctx, close}
use kim_rpc.Reactor.Submit.{submit, submit_recv, submit_send}
use kim_rpc.Reactor.Handlers.{
  or_close, front_of, rest_of, pop_sent, unpaused, advanced, send_on, resumed, resume_read, sent,
  handle_send, at_limit,
}

-- The bytes that a connection has still to send.
abbrev pub concat : List Bytes → Bytes
concat [] = []
concat (f ∷ fs) = f ++ concat fs

abbrev pub unsent : ConnectionContext → Bytes
unsent c = drop c.written (concat c.out_queue)

-- Two contexts agree on the responses that wait.
pub record SameOut (c c' : ConnectionContext) : Type 0 where
  pub same_queue : c'.out_queue ≡ c.out_queue
  pub same_written : c'.written ≡ c.written
  pub same_pending : c'.pending_reqs ≡ c.pending_reqs

pub SameOut-refl : (c : ConnectionContext) → SameOut c c
SameOut-refl c = record { same_queue = refl; same_written = refl; same_pending = refl }

pub SameOut-trans : {a b c : ConnectionContext} → SameOut a b → SameOut b c → SameOut a c
SameOut-trans h k = record {
  same_queue = k.same_queue ∙ h.same_queue;
  same_written = k.same_written ∙ h.same_written;
  same_pending = k.same_pending ∙ h.same_pending;
}

pub close-SameOut : (fd p : ℕ) (s : Provider) → SameOut (ctx_at p s) (ctx_at p (close fd s))
unfolding close Conn.close Conn.close_at
close-SameOut fd p s = ground arith

submit_recv-SameOut :
    (fd p : ℕ) (s : Provider) → SameOut (ctx_at p s) (ctx_at p (submit_recv fd s).1)
unfolding submit_recv submit Conn.find Conn.on_submit
submit_recv-SameOut fd p s = ground arith

pub submit_send-SameOut :
    (fd p : ℕ) (s : Provider) → SameOut (ctx_at p s) (ctx_at p (submit_send fd s).1)
unfolding submit_send submit Conn.find Conn.on_submit on_ctx
submit_send-SameOut fd p s = ground arith

pub or_close-SameOut :
    (fd p : ℕ) (r : Bool × Provider) {c : ConnectionContext}
    → SameOut c (ctx_at p r.1)
    → SameOut c (ctx_at p (or_close fd r))
or_close-SameOut fd p (true, s) h = h
or_close-SameOut fd p (false, s) h = SameOut-trans h (close-SameOut fd p s)

send_on-SameOut : (fd q p : ℕ) (s : Provider) → SameOut (ctx_at p s) (ctx_at p (send_on fd q s))
unfolding send_on
send_on-SameOut fd q p s = elim (Bool-cases (is_empty (ctx_at q s).out_queue)) [
  | inl e ↦ rw e (unfold on_ctx in ground arith)
  | inr e ↦ rw e (or_close-SameOut fd p (submit_send fd s) (submit_send-SameOut fd p s))
]

resumed-SameOut :
    (fd q p : ℕ) (r : Bool × Provider) {c : ConnectionContext}
    → SameOut c (ctx_at p r.1)
    → SameOut c (ctx_at p (resumed fd q r))
resumed-SameOut fd q p (true, s) h = SameOut-trans h (send_on-SameOut fd q p s)
resumed-SameOut fd q p (false, s) h = SameOut-trans h (close-SameOut fd p s)

unpaused-SameOut : (q p : ℕ) (s : Provider) → SameOut (ctx_at p s) (ctx_at p (unpaused q s))
unfolding on_ctx
unpaused-SameOut q p s = ground arith

resume_read-SameOut :
    (fd q p : ℕ) (s : Provider) → SameOut (ctx_at p s) (ctx_at p (resume_read fd q s))
unfolding resume_read
resume_read-SameOut fd q p s =
    elim (Bool-cases ((ctx_at q s).read_paused && not (at_limit (ctx_at q s)))) [
      | inl e ↦ rw e (
          resumed-SameOut fd q p (submit_recv fd (unpaused q s))
            (SameOut-trans (unpaused-SameOut q p s) (submit_recv-SameOut fd p (unpaused q s))))
      | inr e ↦ rw e (send_on-SameOut fd q p s)
    ]

pub on_ctx_self :
    (p : ℕ) (f : ConnectionContext → ConnectionContext) (s : Provider)
    → ctx_at p (on_ctx p f s) ≡ f (ctx_at p s)
unfolding on_ctx
on_ctx_self p f s = ground arith

sent-partial :
    (fd p : ℕ) (s : Provider)
    → (ctx_at p s).written < length (front_of (ctx_at p s).out_queue)
    → SameOut (ctx_at p s) (ctx_at p (sent fd p s))
unfolding sent
sent-partial fd p s h =
    let t : leb (length (front_of (ctx_at p s).out_queue)) (ctx_at p s).written ≡ false =
      ground arith in
    rw t (send_on-SameOut fd p p s)

sent-whole :
    (fd p : ℕ) (s : Provider)
    → length (front_of (ctx_at p s).out_queue) ≤ (ctx_at p s).written
    → SameOut (pop_sent (ctx_at p s)) (ctx_at p (sent fd p s))
unfolding sent
sent-whole fd p s h =
    let t : leb (length (front_of (ctx_at p s).out_queue)) (ctx_at p s).written ≡ true =
      ground arith in
    rw t (
      subst (λ c. SameOut c (ctx_at p (resume_read fd p (on_ctx p pop_sent s))))
        (on_ctx_self p pop_sent s) (resume_read-SameOut fd p p (on_ctx p pop_sent s)))

sent-advanced :
    (p n : ℕ) (s : Provider)
    → handle_send p (pos (suc n)) s ≡ sent (ctx_at p s).fd p (on_ctx p (advanced (suc n)) s)
unfolding handle_send
sent-advanced p n s = ground arith

module _ (p n : ℕ) (s : Provider) where
  abbrev after : ConnectionContext
  after = ctx_at p (handle_send p (pos (suc n)) s)

  moved : ctx_at p (on_ctx p (advanced (suc n)) s) ≡ advanced (suc n) (ctx_at p s)
  moved = on_ctx_self p (advanced (suc n)) s

  handle_send-partial :
      (ctx_at p s).written + suc n < length (front_of (ctx_at p s).out_queue)
      → SameOut (advanced (suc n) (ctx_at p s)) after
  handle_send-partial h = rw (sent-advanced p n s) (
      subst (λ c. SameOut c (ctx_at p (sent (ctx_at p s).fd p (on_ctx p (advanced (suc n)) s))))
        moved (sent-partial (ctx_at p s).fd p (on_ctx p (advanced (suc n)) s) (rw moved h)))

  handle_send-whole :
      length (front_of (ctx_at p s).out_queue) ≤ (ctx_at p s).written + suc n
      → SameOut (pop_sent (ctx_at p s)) after
  handle_send-whole h = rw (sent-advanced p n s) (
      subst
        (λ c.
          SameOut (pop_sent c) (ctx_at p (sent (ctx_at p s).fd p (on_ctx p (advanced (suc n)) s))))
        moved (sent-whole (ctx_at p s).fd p (on_ctx p (advanced (suc n)) s) (rw moved h)))

-- When the kernel has sent `n + 1` bytes of the response at the front of a connection's queue (no more
-- than were left of it), the bytes that the connection has still to send are the ones before, less
-- the first `n + 1`. The response leaves the queue, and the count of requests goes down by one,
-- exactly when its last byte is sent.
pub handle_send-advances :
    (p n : ℕ) (s : Provider) (front : Bytes) (rest : List Bytes)
    → (ctx_at p s).out_queue ≡ front ∷ rest
    → (ctx_at p s).written + suc n ≤ length front
    → let c = ctx_at p s in
      let c' = ctx_at p (handle_send p (pos (suc n)) s) in
      (unsent c' ≡ drop (suc n) (unsent c))
      × (((c.written + suc n < length front)
            × (c'.out_queue ≡ front ∷ rest)
            × (c'.pending_reqs ≡ c.pending_reqs))
          ⊎ ((c.written + suc n ≡ length front)
              × (c'.out_queue ≡ rest)
              × (c'.pending_reqs ≡ dec c.pending_reqs)))
handle_send-advances p n s front rest e h =
    let c = ctx_at p s in
    let is_front : front_of c.out_queue ≡ front = ap front_of e in
    elim (Bool-cases (ltb (c.written + suc n) (length front))) [
      | inl t ↦
          let lt = ltb→lt _ (length front) t in
          let o = handle_send-partial p n s (rw is_front lt) in
          (
            rw (o.same_queue, o.same_written) (drop-add c.written (suc n) (concat c.out_queue)),
            inl (lt, o.same_queue ∙ e, o.same_pending),
          )
      | inr t ↦
          let whole : c.written + suc n ≡ length front = ground arith in
          let o = handle_send-whole p n s (rw is_front (omega arith)) in
          (
            rw (o.same_queue, o.same_written, e)
                (sym (drop-append front (concat rest) _ whole)
                  ∙ drop-add c.written (suc n) (front ++ concat rest)),
            inr (whole, o.same_queue ∙ ap rest_of e, o.same_pending),
          )
    ]
