-- ===== src/Reactor/Progress/Bounded.antt =====
-- Each step of the workers and the reactor keeps all requests and brings them nearer to their end, and no
-- wake-up is lost.
use kim_rpc.Prelude.{
  ℕ, suc, ◌+◌, ◌≤◌, ◌≡◌, refl, ap, subst, ◌∙◌, Bool, true, false, List, [], ◌∷◌, ◌++◌, Option, some,
  arith, Bytes, ℤ, length, length-append, is_empty, if◌then◌else◌, Bool-cases, inl, inr,
}
use kim_rpc.Reactor.{Provider, Rpc, Task, close, on_ctx}
use kim_rpc.Reactor.Handlers.{deliver_response}
use kim_rpc.Reactor.Submit.{submit, submit_send, submit_accept, submit_notify_read}
use kim_rpc.Reactor.Pool.{
  runs, worker_round, frame_of, on_pool_done, write_notify, resume, resume_all, handle_notify,
}
use kim_rpc.Reactor.EventLoop.{handle_cqe, on_notify, retry_deferred}
use kim_rpc.Reactor.Progress.{
  Pool, tasks_of, notify_reads, notify_cqe, Step, takes, finishes, writes, notifies, retries, Steps,
  here, then_, IsWakeable, weight, sum, total,
}

sum-append : (f : Task → ℕ) (xs ys : List Task) → sum f (xs ++ ys) ≡ sum f xs + sum f ys
sum-append f [] ys = omega arith
sum-append f (x ∷ xs) ys = omega (arith, sum-append f xs ys)

tasks_of-append : (xs ys : List (Task × Bytes)) → tasks_of (xs ++ ys) ≡ tasks_of xs ++ tasks_of ys
tasks_of-append [] ys = refl
tasks_of-append ((t, b) ∷ xs) ys = ap (◌∷◌ t) (tasks_of-append xs ys)

-- What the way of the requests sees of the server is alike in both.
pub record SameWay (s s' : Provider) : Type 0 where
  pub same_tasks : s'.task_queue ≡ s.task_queue
  pub same_ready : s'.ready_coros ≡ s.ready_coros
  pub same_reads : notify_reads s'.sqes ≡ notify_reads s.sqes
  pub same_pending : s'.notify_pending ≡ s.notify_pending

deliver-SameWay :
    (fd conn_id : ℕ) (frame : Bytes) (s : Provider)
    → SameWay s (deliver_response fd conn_id frame s)
unfolding deliver_response submit_send submit on_ctx close
deliver-SameWay fd conn_id frame s = record {
  same_tasks = ground arith;
  same_ready = ground arith;
  same_reads = ground arith;
  same_pending = ground arith;
}

SameWay-refl : (s : Provider) → SameWay s s
SameWay-refl s = record {
  same_tasks = refl;
  same_ready = refl;
  same_reads = refl;
  same_pending = refl;
}

SameWay-trans : {a b c : Provider} → SameWay a b → SameWay b c → SameWay a c
SameWay-trans h k = record {
  same_tasks = k.same_tasks ∙ h.same_tasks;
  same_ready = k.same_ready ∙ h.same_ready;
  same_reads = k.same_reads ∙ h.same_reads;
  same_pending = k.same_pending ∙ h.same_pending;
}

resume-SameWay : (t : Task) (frame : Bytes) (s : Provider) → SameWay s (resume (t, frame) s)
unfolding resume
resume-SameWay t frame s = elim (Bool-cases (is_empty frame)) [
  | inl e ↦ rw e (SameWay-refl s)
  | inr e ↦ rw e (deliver-SameWay t.fd t.conn_id frame s)
]

resume_all-SameWay : (rs : List (Task × Bytes)) (s : Provider) → SameWay s (resume_all rs s)
unfolding resume_all
resume_all-SameWay [] s = SameWay-refl s
resume_all-SameWay ((t, frame) ∷ rs) s =
    SameWay-trans (resume-SameWay t frame s) (resume_all-SameWay rs (resume (t, frame) s))

-- A completed read of the eventfd: what was ready is resumed, and one more read is submitted or put off.
pub record Notified (s s' : Provider) : Type 0 where
  pub kept_tasks : s'.task_queue ≡ s.task_queue
  pub none_ready : s'.ready_coros ≡ []
  pub one_more :
      notify_reads s'.sqes + (if s'.notify_pending then 1 else 0)
      ≡ suc (notify_reads s.sqes + (if s.notify_pending then 1 else 0))

-- The next read after a completed one, on the server that the resumptions left.
on_notify_way :
    (s h : Provider)
    → s.notify_pending ≡ false
    → SameWay (record s { ready_coros = [] }) h
    → handle_notify s ≡ h
    → Notified s (on_notify s)
unfolding on_notify submit_notify_read submit
on_notify_way s h p w e = rw e (record {
  kept_tasks = ground (arith, w.same_tasks);
  none_ready = ground (arith, w.same_ready);
  one_more = ground (arith, p, w.same_reads, w.same_pending);
})

pub on_notify-Notified : (s : Provider) → s.notify_pending ≡ false → Notified s (on_notify s)
unfolding handle_notify
on_notify-Notified s p =
    on_notify_way s (handle_notify s) p
      (resume_all-SameWay s.ready_coros (record s { ready_coros = [] })) refl

-- The event loop reaches `on_notify`.
pub notify-reaches :
    (rpc : Rpc) (result : ℤ) (s s' : Provider)
    → handle_cqe rpc (notify_cqe result) s ≡ some s'
    → on_notify s ≡ s'
unfolding handle_cqe kim_rpc.Conn.on_complete
notify-reaches rpc result s s' e = cc

-- The event loop comes round with slots: the read that was put off is submitted.
pub record Retried (s s' : Provider) : Type 0 where
  pub tasks_left : s'.task_queue ≡ s.task_queue
  pub ready_left : s'.ready_coros ≡ s.ready_coros
  pub read_submitted : notify_reads s'.sqes ≡ suc (notify_reads s.sqes)
  pub not_put_off : s'.notify_pending ≡ false

pub retry_deferred-Retried :
    (gs : List Bool) (s : Provider)
    → s.notify_pending ≡ true
    → Retried s (retry_deferred (record s { grants = true ∷ (true ∷ gs) }))
unfolding retry_deferred submit_accept submit_notify_read submit
retry_deferred-Retried gs s p = elim (Bool-cases s.accept_pending) [
  | inl a ↦ record {
    tasks_left = ground (arith, a, p);
    ready_left = ground (arith, a, p);
    read_submitted = ground (arith, a, p);
    not_put_off = ground (arith, a, p);
  }
  | inr a ↦ record {
    tasks_left = ground (arith, a, p);
    ready_left = ground (arith, a, p);
    read_submitted = ground (arith, a, p);
    not_put_off = ground (arith, a, p);
  }
]

-- Each step keeps all requests, brings them nearer to their end, and loses no wake-up.
pub record Advances (a b : Pool) : Type 0 where
  pub nearer : suc (weight b) ≤ weight a
  pub kept : (f : Task → ℕ) → total f b ≡ total f a
  pub wakeable : IsWakeable b

taken :
    (stop : Bool) (q : List Task) (t : Task) (s s' : Provider)
    → s.task_queue ≡ q
    → worker_round stop s ≡ runs t s'
    → (s.task_queue ≡ t ∷ s'.task_queue) × (s' ≡ record s { task_queue = s'.task_queue })
unfolding worker_round
taken stop [] t s s' e r = ground (arith, e, r)
taken stop (x ∷ q) t s s' e r = ground (arith, e, r)

takes-Advances :
    (stop : Bool) (t : Task) (a : Pool) (s : Provider)
    → IsWakeable a
    → worker_round stop a.provider ≡ runs t s
    → Advances a (record a { provider = s; busy = t ∷ a.busy })
unfolding weight total
takes-Advances stop t a s v e =
    let (q, p) = taken stop a.provider.task_queue t a.provider s refl e in
    let r : s.ready_coros ≡ a.provider.ready_coros = ap (λ (x : Provider). x.ready_coros) p in
    let d : s.notify_pending ≡ a.provider.notify_pending =
      ap (λ (x : Provider). x.notify_pending) p in
    let n : s.sqes ≡ a.provider.sqes = ap (λ (x : Provider). x.sqes) p in
    record {
      nearer = rw d (omega (arith, ap length q, ap length r));
      kept =
          λ f. omega (arith, ap (sum f) q, ap (λ (x : List (Task × Bytes)). sum f (tasks_of x)) r);
      wakeable = record { woken = rw r v.woken; armed = rw (n, d) v.armed };
    }

finishes-Advances :
    (t : Task) (body : Option Bytes) (before after : List Task) (a : Pool)
    → IsWakeable a
    → a.busy ≡ before ++ (t ∷ after)
    → Advances a (record a {
      provider = on_pool_done t body a.provider;
      busy = before ++ after;
      writing = suc a.writing;
    })
unfolding on_pool_done weight total
finishes-Advances t body before after a v e =
    let ready = a.provider.ready_coros in
    let one : List (Task × Bytes) = (t, frame_of t body) ∷ [] in
    record {
      nearer = omega (
        arith,
        ap length e,
        length-append before (t ∷ after),
        length-append before after,
        length-append ready one,
      );
      kept = λ f. omega (
        arith,
        ap (sum f) e,
        sum-append f before (t ∷ after),
        sum-append f before after,
        ap (sum f) (tasks_of-append ready one),
        sum-append f (tasks_of ready) (t ∷ []),
      );
      wakeable = record { woken = λ h. omega arith; armed = v.armed };
    }

writes-Advances :
    (n : ℕ) (a : Pool)
    → IsWakeable a
    → a.writing ≡ suc n
    → Advances a (record a { writing = n; counter = write_notify a.counter })
unfolding weight total write_notify
writes-Advances n a v e = record {
  nearer = omega (arith, e);
  kept = λ f. refl;
  wakeable = record { woken = λ h. omega (arith, e); armed = v.armed };
}

-- Where a submitted read has not completed, none is put off.
not_put_off_yet : (d : Bool) (n r : ℕ) → n + (if d then 1 else 0) ≡ suc r → suc r ≤ n → d ≡ false
not_put_off_yet true n r e h = absurd (omega (arith, e))
not_put_off_yet false n r e h = refl

at_most_one : (d : Bool) → (if d then 1 else 0) ≤ 1
at_most_one true = omega arith
at_most_one false = omega arith

notifies-Advances :
    (rpc : Rpc) (result : ℤ) (gs : List Bool) (a : Pool) (s : Provider)
    → IsWakeable a
    → 1 ≤ a.counter
    → suc a.reads ≤ notify_reads a.provider.sqes
    → handle_cqe rpc (notify_cqe result) (record a.provider { grants = gs }) ≡ some s
    → Advances a (record a {
      provider = s;
      counter = 0;
      reads = suc a.reads;
      resumed = a.resumed ++ tasks_of a.provider.ready_coros;
    })
unfolding weight total
notifies-Advances rpc result gs a s v c r e =
    let ready = a.provider.ready_coros in
    let s0 : Provider = record a.provider { grants = gs } in
    let p = not_put_off_yet a.provider.notify_pending _ a.reads v.armed r in
    let n = subst (Notified s0) (notify-reaches rpc result s0 s e) (on_notify-Notified s0 p) in
    record {
      nearer =
          omega
            (arith, ap length n.kept_tasks, ap length n.none_ready, at_most_one s.notify_pending);
      kept = λ f. omega (
        arith,
        ap (sum f) n.kept_tasks,
        ap (λ (x : List (Task × Bytes)). sum f (tasks_of x)) n.none_ready,
        sum-append f a.resumed (tasks_of ready),
      );
      wakeable = record {
        woken = λ h. ground (arith, n.none_ready, h);
        armed = omega (arith, n.one_more, v.armed);
      };
    }

retries-Advances :
    (gs : List Bool) (a : Pool)
    → IsWakeable a
    → a.provider.notify_pending ≡ true
    → Advances a
        (record a { provider = retry_deferred (record a.provider { grants = true ∷ (true ∷ gs) }) })
unfolding weight total
retries-Advances gs a v p =
    let n = retry_deferred-Retried gs a.provider p in
    let put_off = ap {B = ℕ} (λ d. if d then 1 else 0) p in
    let not_now = ap {B = ℕ} (λ d. if d then 1 else 0) n.not_put_off in
    record {
      nearer = omega (arith, ap length n.tasks_left, ap length n.ready_left, put_off, not_now);
      kept = λ f. omega (
        arith,
        ap (sum f) n.tasks_left,
        ap (λ (x : List (Task × Bytes)). sum f (tasks_of x)) n.ready_left,
      );
      wakeable = record {
        woken = rw n.ready_left v.woken;
        armed = omega (arith, n.read_submitted, v.armed, put_off, not_now);
      };
    }

pub Step-Advances :
    {rpc : Rpc} {serialize : Task → Option Bytes} {a b : Pool}
    → Step rpc serialize a b
    → IsWakeable a
    → Advances a b
Step-Advances (takes stop t a s e) v = takes-Advances stop t a s v e
Step-Advances {serialize = serialize} (finishes t before after a e) v =
    finishes-Advances t (serialize t) before after a v e
Step-Advances (writes n a e) v = writes-Advances n a v e
Step-Advances {rpc = rpc} (notifies result gs a s c r e) v =
    notifies-Advances rpc result gs a s v c r e
Step-Advances (retries gs a p) v = retries-Advances gs a v p

-- A run that begins without a lost wake-up.
pub record Runs (n : ℕ) (a b : Pool) : Type 0 where
  pub bounded : n + weight b ≤ weight a
  pub same_total : (f : Task → ℕ) → total f b ≡ total f a
  pub still_wakeable : IsWakeable b

pub Steps-Runs :
    {rpc : Rpc} {serialize : Task → Option Bytes} {n : ℕ} {a b : Pool}
    → Steps rpc serialize n a b
    → IsWakeable a
    → Runs n a b
Steps-Runs here v = record { bounded = omega arith; same_total = λ f. refl; still_wakeable = v }
Steps-Runs (then_ st r) v =
    let s = Step-Advances st v in
    let k = Steps-Runs r s.wakeable in
    record {
      bounded = omega (arith, s.nearer, k.bounded);
      same_total = λ f. k.same_total f ∙ s.kept f;
      still_wakeable = k.still_wakeable;
    }
