-- ===== src/Tests/Coro.antt =====
-- A chain of coroutines run on a ring.
use kim_rpc.Prelude.{ℕ, ◌+◌, ◌≡◌, refl, true, false, [], ◌∷◌, some, none, ℤ, pos, pos_part, codes}
use kim_rpc.Coro.{
  Outcome, returns, throws, Body, ret, throw, await, io, recv, Ring, other, answers, std_exception,
}
use kim_rpc.Coro.Machine.{returned}
use kim_rpc.Coro.Loop.{sync_wait}
use kim_rpc.Coro.Eval.{ends}
use kim_rpc.Coro.Refines.{observe, sync_wait-eval, sync_wait_frees}

-- A task that receives twice and throws where that fails, and a parent that counts its bytes.
on_received : ℤ → Body ℕ
on_received (pos n) = io (recv 5 100 64 0) (λ res flags. ret (n + pos_part res))
on_received (ℤ.negsuc e) = throw (std_exception (codes "recv failed"))

abbrev reader : Body ℕ
reader = io (recv 5 100 64 0) (λ res flags. on_received res)

caught : Outcome ℕ → Body ℕ
caught (returns n) = ret (n + 100)
caught (throws e) = throw e

abbrev counter : Body ℕ
counter = await reader caught

-- The second operation gets no slot at first; other CQEs come in between.
abbrev ring : Ring
ring = record {
  grants = true ∷ (false ∷ (true ∷ []));
  prepared = [];
  script = (other ∷ []) ∷ ((answers (pos 7) 0 ∷ (other ∷ [])) ∷ ((answers (pos 4) 0 ∷ []) ∷ []));
}

abbrev ring_after : Ring
ring_after = record {
  grants = [];
  prepared = recv 5 100 64 0 ∷ (recv 5 100 64 0 ∷ []);
  script = [];
}

sync_wait-eval_example :
    (n : ℕ) × ((k : ℕ)
      → observe (sync_wait (n + k) counter ring) ≡ some (ends (returns 111) ring_after))
unfolding on_received caught kim_rpc.Coro.Eval.eval
sync_wait-eval_example = sync_wait-eval counter ring

counter_returns : (sync_wait 30 counter ring).control ≡ returned (returns 111)
unfolding on_received caught sync_wait kim_rpc.Coro.Loop.run kim_rpc.Coro.Loop.launch
    kim_rpc.Coro.Machine.resume kim_rpc.Coro.Loop.step_control kim_rpc.Coro.Machine.execute
    kim_rpc.Coro.Machine.transfer kim_rpc.Coro.Machine.end_with kim_rpc.Coro.Machine.co_await
    kim_rpc.Coro.Machine.await_io kim_rpc.Coro.Machine.await_suspend kim_rpc.Coro.Loop.drain_next
    kim_rpc.Coro.Loop.answer_first kim_rpc.Coro.Loop.resume_from_cqe kim_rpc.Coro.Loop.resume_handle
    kim_rpc.Coro.Loop.test_done kim_rpc.Coro.await_ready kim_rpc.Coro.result
counter_returns = refl

sync_wait_frees_example : (sync_wait 30 counter ring).frames 0 ≡ none
sync_wait_frees_example = sync_wait_frees 30 counter ring (returns 111) 0 counter_returns
