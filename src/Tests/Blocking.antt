-- ===== src/Tests/Blocking.antt =====
-- Two calls of the blocking build: the answers come in the other order, and the connection ends.
use kim_rpc.Prelude.{◌≡◌, refl, true, false, List, [], ◌∷◌, some, arith}
use kim_rpc.Channel.Blocking.{
  Slots, Event, registers, receives, fails_all, withdraws, has, future, fresh_ids, run, first_end,
}
use kim_rpc.Channel.Blocking.Promises.{Sound}
use kim_rpc.Channel.Blocking.Futures.{run-first_end}

abbrev one_waits : Slots
one_waits = record { m_pending = 1 ∷ []; promises = []; set_twice = false; registered = 1 ∷ [] }

one_waits-Sound : Sound one_waits
unfolding has kim_rpc.Channel.Blocking.without future
one_waits-Sound = record {
  once = refl;
  distinct = (refl, tt);
  apart = λ k. ground arith;
  known = λ k. ground arith;
  known_set = λ k. refl;
}

abbrev events : List Event
events =
    registers 2
    ∷ (receives (record { id = 2; body = 8 ∷ [] })
        ∷ (receives (record { id = 1; body = 7 ∷ [] }) ∷ (fails_all ∷ [])))

all_fresh : fresh_ids events one_waits ≡ true
unfolding fresh_ids has kim_rpc.Channel.Blocking.step kim_rpc.Channel.Blocking.without
    kim_rpc.Channel.Blocking.set_value kim_rpc.Channel.Blocking.fail_each future
all_fresh = refl

waits : has 1 one_waits.m_pending ≡ true
unfolding has
waits = refl

run-first_end_example :
    (future 1 (run events one_waits).promises ≡ some (true, 7 ∷ []))
    × ((run events one_waits).set_twice ≡ false)
run-first_end_example = run-first_end events 1 one_waits one_waits-Sound all_fresh waits
