-- ===== src/Signal/Tests/Acks.antt =====
-- The ACK rows and their table.
use mathlib.Core.List.{Perm}
use herdr_bridge.Prelude.{ℕ, ◌≡◌, refl, List, arith, none, some, [], ◌∷◌, text_key, ok, take}
use herdr_bridge.Table.{find}
use herdr_bridge.Signal.State.{accepted, completed, injected}
use herdr_bridge.Signal.Store.{
  Row, Rows, Fields, read_state, write_state, list_recent, find_active_by_target, or_empty,
  default_ttl,
}
use herdr_bridge.Signal.Store.Writes.{IsTable, write_state-IsTable}
use herdr_bridge.Signal.Store.History.{Write, write_all, writes_of, summary, read-write_all}
use herdr_bridge.Signal.Store.Queries.{
  IsNewestInFlight, IsInFlight, IsDescending, find_active_by_target-IsNewest,
  list_recent-IsDescending,
}
use herdr_bridge.Signal.Ack.{Turn, mark_accepted, mark_completed}
use herdr_bridge.Signal.Ack.Race.{IsDaemon}
use herdr_bridge.Signal.Ack.Lost.{mark_accepted_loses_completed}
use herdr_bridge.Signal.Ack.Marks.{mark_completed-IsDaemon}
use herdr_bridge.Signal.Tests.Data.{row_in, idle, idle-IsAtomic}

abbrev one_row : Rows
one_row = row_in accepted ∷ []

one_row-IsTable : IsTable one_row
unfolding find
one_row-IsTable = (refl, tt)

abbrev some_fields : Fields
some_fields = record {
  from_project = "x";
  to_project = "y";
  inbox_ref = "z";
  state = injected;
  attempt_count = none;
  accepted_at = none;
  injected_at = some 9;
  seen_at = none;
}

-- Three writes, the newest first: of "m1", of "m2" and again of "m1".
abbrev three_writes : List Write
three_writes =
    record { message = "m1"; now = 12; fields = some_fields }
    ∷ record { message = "m2"; now = 11; fields = some_fields }
    ∷ record {
      message = "m1";
      now = 10;
      fields = record some_fields { state = accepted; accepted_at = some 10; from_project = "a" };
    }
    ∷ []

read-write_all_example :
    read_state "m1" (write_all default_ttl three_writes)
    ≡ summary default_ttl "m1" (writes_of "m1" three_writes)
read-write_all_example =
    read-write_all 100 default_ttl "m1" three_writes
      (ground arith, (ground arith, (ground arith, tt)))

write_state-IsTable_example : IsTable (write_state 9 default_ttl "m1" some_fields one_row)
write_state-IsTable_example =
    write_state-IsTable 9 default_ttl "m1" some_fields one_row one_row-IsTable

find_active_by_target-IsNewest_example :
    IsNewestInFlight
      (IsInFlight 10 1800000 "b" "r1" (or_empty none))
      one_row
      (find_active_by_target 10 1800000 "b" "r1" none one_row)
find_active_by_target-IsNewest_example =
    find_active_by_target-IsNewest 10 1800000 "b" "r1" none one_row

recent_example : (s : Rows) × Perm s one_row × IsDescending s × (list_recent 10 one_row ≡ take 10 s)
recent_example = list_recent-IsDescending 10 one_row

mark_completed-IsDaemon_example : IsDaemon "m1" (λ t. (mark_completed idle "m1" t).1)
mark_completed-IsDaemon_example = mark_completed-IsDaemon idle "m1" idle-IsAtomic (λ t. refl)

-- The daemon completes the row between the check and the write.
abbrev overtaken : ℕ → Turn
overtaken i = record idle { before_write = λ t. row_in completed ∷ [] }

completed-IsTable : IsTable (row_in completed ∷ [])
unfolding find
completed-IsTable = (refl, tt)

lost_example :
    (row : Row) × ((mark_accepted overtaken "m1" "a" "b" "r1" one_row).0 ≡ ok row)
    × (read_state "m1" (mark_accepted overtaken "m1" "a" "b" "r1" one_row).1 ≡ some row)
    × (row.state ≡ accepted)
unfolding find
lost_example =
    mark_accepted_loses_completed overtaken "m1" "a" "b" "r1" one_row (row_in completed ∷ [])
      (record { reads = refl; checks = refl; writes = refl; verifies = λ x. refl })
      completed-IsTable refl refl
