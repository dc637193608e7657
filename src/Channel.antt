-- ===== src/Channel.antt =====
-- src/channel.cc and include/channel.h, built as the header says (KIMRPC_ASYNC_CLIENT): the client
-- channel that multiplexes calls over one connection. A message object, a controller and a callback
-- are numbers; what is done to them is logged, latest first. Each function below runs under one lock
-- of the source, or outside of all locks.
pub mod Receive
pub mod Calls
pub mod Once
pub mod Frames
pub mod Requests
pub mod Late
pub mod CallMethod
pub mod Blocking
use kim_rpc.Prelude.{
  ℕ, ◌+◌, Bool, true, false, List, [], ◌∷◌, Option, none, some, Bytes, codes, leb, ◌==◌,
  if◌then◌else◌, ℤ, pos, is_nonpos, pos_part,
}

-- `deadline` is none for `time_point::max()`; times count milliseconds.
pub record Pending : Type 0 where
  pub response : ℕ
  pub controller : Option ℕ
  pub done : ℕ
  pub deadline : Option ℕ

pub data Effect : Type 0 where
  -- `controller->SetFailed(reason)`, `response->ParseFromArray(body)` and `done->Run()`.
  set_failed : ℕ → Bytes → Effect
  parsed : ℕ → Bytes → Effect
  run : ℕ → Effect

pub record KimRpcChannel : Type 0 where
  pub m_clientfd : Option ℕ
  pub m_connected_host : Bytes
  -- The receiving thread is joinable, and it has come to its end.
  pub m_recv_thread : Bool
  pub recv_over : Bool
  pub m_running : Bool
  pub m_pending : List (ℕ × Pending)
  pub m_next_id : ℕ
  pub m_timeout_ms : ℤ
  pub m_timer_running : Bool
  -- The descriptors that were closed, and what was done to the caller's objects.
  pub closed : List ℕ
  pub log : List Effect

abbrev pub k_default_timeout_ms : ℤ
k_default_timeout_ms = pos 5000

abbrev pub new_channel : KimRpcChannel
new_channel = record {
  m_clientfd = none;
  m_connected_host = [];
  m_recv_thread = false;
  recv_over = false;
  m_running = false;
  m_pending = [];
  m_next_id = 1;
  m_timeout_ms = k_default_timeout_ms;
  m_timer_running = true;
  closed = [];
  log = [];
}

-- `m_pending.find(id)`, `m_pending.erase(it)` and `m_pending[id] = p`.
module _ {V : Type 0} where
  unfoldable pub find : ℕ → List (ℕ × V) → Option V
  find id [] = none
  find id ((k, p) ∷ m) = if k == id then some p else find id m

  unfoldable pub erase : ℕ → List (ℕ × V) → List (ℕ × V)
  erase id [] = []
  erase id ((k, p) ∷ m) = if k == id then m else (k, p) ∷ erase id m

unfoldable pub assign : ℕ → Pending → List (ℕ × Pending) → List (ℕ × Pending)
assign id p [] = (id, p) ∷ []
assign id p ((k, q) ∷ m) = if k == id then (k, p) ∷ m else (k, q) ∷ assign id p m

-- How a call ends: with a response body, or with a reason for the controller.
pub data Ending : Type 0 where
  answer : Bytes → Ending
  failure : Bytes → Ending

abbrev pub fail_controller : Option ℕ → Bytes → List Effect → List Effect
fail_controller none reason l = l
fail_controller (some ctl) reason l = set_failed ctl reason ∷ l

-- `parse` is `ParseFromArray` of the response's class.
module _ (parse : ℕ → Bytes → Bool) where
  -- What the thread that took a slot out of the table does with it, outside of the lock.
  unfoldable pub end_log : Pending → Ending → List Effect → List Effect
  end_log p (answer body) l =
      run p.done
      ∷ (if parse p.response body
          then parsed p.response body ∷ l
          else fail_controller p.controller (codes "parse response error!")
              (parsed p.response body ∷ l))
  end_log p (failure reason) l = run p.done ∷ fail_controller p.controller reason l

  unfoldable pub end_call : Pending → Ending → KimRpcChannel → KimRpcChannel
  end_call p e c = record c { log = end_log p e c.log }

  -- The loops over the slots that were taken out together.
  unfoldable pub fail_each : Bytes → List (ℕ × Pending) → KimRpcChannel → KimRpcChannel
  fail_each reason [] c = c
  fail_each reason ((k, p) ∷ m) c = fail_each reason m (end_call p (failure reason) c)

  unfoldable pub fail_all_pending : Bytes → KimRpcChannel → KimRpcChannel
  unfolding fail_each
  fail_all_pending reason c = fail_each reason c.m_pending (record c { m_pending = [] })

abbrev pub is_expired : ℕ → Option ℕ → Bool
is_expired now none = false
is_expired now (some d) = leb d now

-- The sweep of the table in `timerLoop`: the slots that are taken out, and those that stay.
unfoldable pub expired : ℕ → List (ℕ × Pending) → List (ℕ × Pending)
expired now [] = []
expired now ((k, p) ∷ m) =
    if is_expired now p.deadline then (k, p) ∷ expired now m else expired now m

unfoldable pub alive : ℕ → List (ℕ × Pending) → List (ℕ × Pending)
alive now [] = []
alive now ((k, p) ∷ m) = if is_expired now p.deadline then alive now m else (k, p) ∷ alive now m

-- One round of `timerLoop` after its sleep.
unfoldable pub timer_round : (parse : ℕ → Bytes → Bool) → ℕ → KimRpcChannel → KimRpcChannel
unfolding fail_each expired alive
timer_round parse now c =
    if c.m_timer_running
    then fail_each parse (codes "rpc timeout") (expired now c.m_pending)
        (record c { m_pending = alive now c.m_pending })
    else c

-- The deadline of a call that is registered at `now`.
abbrev pub deadline_at : ℤ → ℕ → Option ℕ
deadline_at timeout now = if is_nonpos timeout then none else some (now + pos_part timeout)
