-- ===== src/Channel/Once.antt =====
-- The threads of the channel (callers, the receiving thread and the timer) interleaved: an event is
-- what one of them does under one lock, or with a slot that it took out of the table.
pub mod Counts
pub mod Tables
pub mod Steps
pub mod Exactly
use kim_rpc.Prelude.{
  Bool, ℕ, ◌+◌, ◌%◌, ◌^◌, List, [], ◌∷◌, ◌++◌, Option, none, some, Bytes, codes, ℤ,
}
use kim_rpc.Wire.{HeaderCodec}
use kim_rpc.Channel.{
  KimRpcChannel, Pending, Ending, answer, failure, new_channel, find, erase, end_call, expired,
  alive,
}
use kim_rpc.Channel.Receive.{Frame}
use kim_rpc.Channel.Calls.{Call, fail, register, withdraw}

pub record State : Type 0 where
  pub channel : KimRpcChannel
  -- The callbacks that were given to `callAsync`.
  pub calls : List ℕ
  -- The calls with an id and without a slot yet, and those that had a slot: `callAsync` holds on to
  -- the call that it sends.
  pub started : List (ℕ × Call)
  pub sending : List (ℕ × Call)
  -- The slots that a thread took out of the table and did not end yet.
  pub owned : List (ℕ × (Pending × Ending))

abbrev pub initial : State
initial = record { channel = new_channel; calls = []; started = []; sending = []; owned = [] }

pub data Event : Type 0 where
  -- `callAsync`: the request is not serialised; an id is given; a step before the slot fails; the slot
  -- is made; the send failed.
  unserializable : Call → Event
  begins : Call → Event
  aborts : ℕ → Bytes → Event
  registers : ℕ → ℕ → Event
  withdraws : ℕ → Bytes → Event
  -- A frame, a round of the timer and a lost connection take slots out; a thread ends one.
  receives : Frame → Event
  expires : ℕ → Event
  fails_all : Bytes → Event
  finishes : ℕ → Event
  sets_timeout : ℤ → Event

abbrev pub owned_by : Bytes → List (ℕ × Pending) → List (ℕ × (Pending × Ending))
owned_by reason [] = []
owned_by reason ((k, p) ∷ m) = (k, (p, failure reason)) ∷ owned_by reason m

module _ (parse : ℕ → Bytes → Bool) (codec : HeaderCodec) where
  abbrev pub abort : Option Call → ℕ → Bytes → State → State
  abort none id reason s = s
  abort (some call) id reason s = record s {
    channel = fail parse codec call reason s.channel;
    started = erase id s.started;
  }

  abbrev pub make_slot : Option Call → ℕ → ℕ → State → State
  make_slot none id now s = s
  make_slot (some call) id now s = record s {
    channel = register parse codec id call now s.channel;
    started = erase id s.started;
    sending = (id, call) ∷ s.sending;
  }

  abbrev pub take_back : Option Call → ℕ → Bytes → State → State
  take_back none id error s = s
  take_back (some call) id error s = record s {
    channel = withdraw parse codec id call error s.channel;
  }

  abbrev pub take_slot : Option Pending → Frame → State → State
  take_slot none f s = s
  take_slot (some p) f s = record s {
    channel = record (s.channel) { m_pending = erase f.id s.channel.m_pending };
    owned = (f.id, (p, answer f.body)) ∷ s.owned;
  }

  abbrev pub finish : Option (Pending × Ending) → ℕ → State → State
  finish none id s = s
  finish (some (p, e)) id s = record s {
    channel = end_call parse p e s.channel;
    owned = erase id s.owned;
  }

  unfoldable pub step : Event → State → State
  step (unserializable call) s = record s {
    channel = fail parse codec call (codes "serialize request error!") s.channel;
    calls = call.done ∷ s.calls;
  }
  step (begins call) s =
      let id = s.channel.m_next_id in
      record s {
        channel = record (s.channel) { m_next_id = (id + 1) % 2 ^ 64 };
        calls = call.done ∷ s.calls;
        started = (id, call) ∷ s.started;
      }
  step (aborts id reason) s = abort (find id s.started) id reason s
  step (registers id now) s = make_slot (find id s.started) id now s
  step (withdraws id error) s = take_back (find id s.sending) id error s
  step (receives f) s = take_slot (find f.id s.channel.m_pending) f s
  step (expires now) s = record s {
    channel = record (s.channel) { m_pending = alive now s.channel.m_pending };
    owned = owned_by (codes "rpc timeout") (expired now s.channel.m_pending) ++ s.owned;
  }
  step (fails_all reason) s = record s {
    channel = record (s.channel) { m_pending = [] };
    owned = owned_by reason s.channel.m_pending ++ s.owned;
  }
  step (finishes id) s = finish (find id s.owned) id s
  step (sets_timeout t) s = record s { channel = record (s.channel) { m_timeout_ms = t } }

  -- The events so far, latest first.
  unfoldable pub run : List Event → State
  unfolding step
  run [] = initial
  run (e ∷ es) = step e (run es)
