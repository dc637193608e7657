-- ===== src/Tests/Progress.antt =====
-- One request through the pool.
use kim_rpc.Prelude.{ℕ, true, false, Option, none, some, [], ◌∷◌, Bytes}
use kim_rpc.Reactor.{Task, Provider, read_notify}
use kim_rpc.Reactor.Pool.{on_pool_done}
use kim_rpc.Reactor.EventLoop.{on_notify}
use kim_rpc.Reactor.Progress.{Pool}
use kim_rpc.Tests.Server.{with_ctx, context}

abbrev task : Task
task = record { fd = 8; conn_id = 1; request_id = 5; service = 1; method = 2; request = [] }

-- The server with its read of the eventfd submitted.
abbrev reading : Provider
reading = record (with_ctx context) { sqes = read_notify ∷ []; notify_pending = false }

abbrev start : Pool
start = record {
  provider = record reading { task_queue = task ∷ [] };
  busy = [];
  writing = 0;
  counter = 0;
  reads = 0;
  resumed = [];
}

abbrev pool : Provider → ℕ → ℕ → Pool
pool s writing counter = record {
  provider = s;
  busy = [];
  writing = writing;
  counter = counter;
  reads = 0;
  resumed = [];
}

module _ (serialize : Task → Option Bytes) where
  abbrev worked : Provider
  worked = on_pool_done task (serialize task) reading

  abbrev over : Pool
  over = record {
    provider = on_notify (record worked { grants = true ∷ [] });
    busy = [];
    writing = 0;
    counter = 0;
    reads = 1;
    resumed = task ∷ [];
  }

abbrev serialized : Task → Option Bytes
serialized t = some (4 ∷ [])

abbrev unserialized : Task → Option Bytes
unserialized t = none
