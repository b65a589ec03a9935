-- ===== src/Delivery/Tests.antt =====
-- Delivery states on concrete tables.
use herdr_bridge.Prelude.{ℕ, ◌≡◌, refl, none, some, List, [], ◌∷◌, Any}
use herdr_bridge.Delivery.State.{
  State, init, dispatch_pending, await_pong, pong_received, timeout, completed, degraded,
}
use herdr_bridge.Delivery.Store.{Row, TaskKey, write_state, read_state}
use herdr_bridge.Delivery.Machine.{Turn, Update, Memory, update_delivery_state}
use herdr_bridge.Delivery.Machine.Updates.{IsQuiet}
use herdr_bridge.Delivery.Machine.Runs.{Call, run, Reports, done_was_reported, finished_stays}

abbrev task : TaskKey
task = ("project", "TASK-1", "agent")

abbrev quiet : ℕ → Memory → Turn
quiet now memory = record {
  before_read = λ t. t;
  before_write = λ t. t;
  before_verify = λ t. t;
  now = now;
  memory = memory;
}

quiet-IsQuiet : (now : ℕ) (memory : Memory) → IsQuiet (quiet now memory)
quiet-IsQuiet now memory = record {
  reads_alone = λ t. refl;
  writes_alone = λ t. refl;
  verifies_alone = λ t. refl;
}

abbrev to : State → Update
to s = record { key = task; new_state = s; context = none; correlation = none }

abbrev call : ℕ → State → Call
call now s = record { turn = quiet now Memory.stored; update = to s }

abbrev calls : List Call
calls =
    call 1 init
    ∷ call 2 dispatch_pending
    ∷ call 3 await_pong
    ∷ call 4 pong_received
    ∷ call 5 completed
    ∷ []

-- A late report is blocked and a late failure is refused.
abbrev late_calls : List Call
late_calls = call 6 pong_received ∷ call 7 timeout ∷ []

abbrev done_row : Row
done_row = record {
  project_id = "project";
  task_id = "TASK-1";
  agent_id = "agent";
  state = completed;
  context = none;
  correlation = none;
  created_at = 1;
  updated_at = 5;
  expires_at = 86400005;
}

done_was_reported_example : Any (Reports task) calls
unfolding update_delivery_state herdr_bridge.Table.find herdr_bridge.Delivery.State.validate
    write_state herdr_bridge.Table.sweep herdr_bridge.Table.upsert
done_was_reported_example =
    done_was_reported task calls [] completed
      (
        quiet-IsQuiet 1 Memory.stored,
        (
          quiet-IsQuiet 2 Memory.stored,
          (
            quiet-IsQuiet 3 Memory.stored,
            (quiet-IsQuiet 4 Memory.stored, (quiet-IsQuiet 5 Memory.stored, tt)),
          ),
        ),
      )
      tt refl refl refl

finished_stays_example : read_state task (run late_calls (done_row ∷ [])) ≡ some done_row
unfolding herdr_bridge.Table.find
finished_stays_example =
    finished_stays task late_calls (done_row ∷ []) done_row
      (quiet-IsQuiet 6 Memory.stored, (quiet-IsQuiet 7 Memory.stored, tt)) (refl, tt)
      (refl, (refl, tt)) refl refl
