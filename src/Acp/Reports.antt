-- ===== src/Acp/Reports.antt =====
-- The side reports of acp/router.py: `_handle_structured_report`, `_sweep_side_reports`,
-- `wait_for_side_report` and the clean-up at the end of a dispatch. Times are in milliseconds.
pub mod Counts
pub mod Bounds
mod Tests
use herdr_bridge.Prelude.{
  ℕ, suc, ◌+◌, ◌-◌, Bool, true, false, Option, none, some, List, [], ◌∷◌, String, ◌==◌, text_key,
  ltb, leb, length, take, if◌then◌else◌,
}
use herdr_bridge.Tasks.Dict.{Dict, get, put, pop}

-- A report, as far as its fields are texts.
abbrev pub Report : Type 0
Report = Dict String

-- `_side_reports`, `_side_report_times` and `_side_events`; an event is set or not.
pub record SideReports : Type 0 where
  pub reports : Dict Report
  pub times : Dict ℕ
  pub events : Dict Bool

abbrev pub no_reports : SideReports
no_reports = record { reports = []; times = []; events = [] }

abbrev pub max_entries : ℕ
max_entries = 200

abbrev pub max_age : ℕ
max_age = 3600000

-- Every dictionary forgets the task.
abbrev pub forget : String → SideReports → SideReports
forget task s = record {
  reports = pop task s.reports;
  times = pop task s.times;
  events = pop task s.events;
}

abbrev pub forget_all : Dict ℕ → SideReports → SideReports
forget_all [] s = s
forget_all ((task, t) ∷ l) s = forget_all l (forget task s)

-- now - ts > _SIDE_REPORT_MAX_AGE_SEC
abbrev pub expired : ℕ → Dict ℕ → Dict ℕ
expired now [] = []
expired now ((task, t) ∷ l) =
    let later = expired now l in if ltb (t + max_age) now then (task, t) ∷ later else later

abbrev pub insert_by_time : String → ℕ → Dict ℕ → Dict ℕ
insert_by_time task t [] = (task, t) ∷ []
insert_by_time task t ((k, u) ∷ l) =
    let later = insert_by_time task t l in
    if leb t u then (task, t) ∷ (k, u) ∷ l else (k, u) ∷ later

-- sorted(items, key=lambda kv: kv[1])
abbrev pub by_time : Dict ℕ → Dict ℕ
by_time [] = []
by_time ((task, t) ∷ l) = insert_by_time task t (by_time l)

abbrev pub evict : ℕ → SideReports → SideReports
evict reserve s = forget_all (take (length s.times + reserve - max_entries) (by_time s.times)) s

-- _sweep_side_reports
unfoldable pub sweep : ℕ → ℕ → SideReports → SideReports
sweep reserve now s = evict reserve (forget_all (expired now s.times) s)

abbrev pub set_event : String → Option Bool → Dict Bool → Dict Bool
set_event task none events = events
set_event task (some b) events = put task true events

abbrev pub store : String → ℕ → Report → SideReports → SideReports
store task now report s = record {
  reports = put task report s.reports;
  times = put task now s.times;
  events = set_event task (get task s.events) s.events;
}

-- report.get(key) or report.get(other)
abbrev pub first_filled : Option String → Option String → Option String
first_filled (some t) other = if t == "" then other else some t
first_filled none other = other

abbrev pub filled : Option String → Option String
filled none = none
filled (some t) = if t == "" then none else some t

abbrev pub handle : Option String → Option String → ℕ → Report → SideReports → SideReports
handle none agent now report s = s
handle (some task) none now report s = s
handle (some task) (some agent) now report s = store task now report (sweep 1 now s)

-- _handle_structured_report, up to the memory layer
unfoldable pub handle_structured_report : ℕ → Report → SideReports → SideReports
handle_structured_report now report s =
    handle (filled (first_filled (get "task_id" report) (get "id" report)))
      (filled (first_filled (get "agent_id" report) (get "source" report))) now report s

abbrev pub with_event : String → Option Bool → SideReports → SideReports
with_event task (some b) s = s
with_event task none s = record s { events = put task false s.events }

-- wait_for_side_report, up to the wait
unfoldable pub begin_wait : String → ℕ → SideReports → SideReports
begin_wait task now s = let t = sweep 0 now s in with_event task (get task t.events) t

pub data Act : Type 0 where
  reporting : ℕ → Report → Act
  waiting : String → ℕ → Act
  -- the end of dispatch_with_memory_confirm
  clearing : String → Act

abbrev pub act : Act → SideReports → SideReports
act (reporting now report) s = handle_structured_report now report s
act (waiting task now) s = begin_wait task now s
act (clearing task) s = forget task s

unfoldable pub act_all : List Act → SideReports → SideReports
act_all [] s = s
act_all (a ∷ l) s = act_all l (act a s)
