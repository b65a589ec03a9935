-- ===== src/Session/Tests.antt =====
-- Runs of the tool layer, and the theorems about it at concrete inputs.
use herdr_bridge.Prelude.{
  ℕ, ◌≤◌, ◌≡◌, ◌≢◌, refl, true, false, arith, none, some, List, [], ◌∷◌, All,
}
use herdr_bridge.Tasks.Dict.{Dict, get, put, pop}
use herdr_bridge.Session.Controls.{acquire, release, Act, acquiring, releasing, perform_all}
use herdr_bridge.Session.Controls.Runs.{one_controller}
use herdr_bridge.Session.Cache.{text, Fields, SessionCache, new_cache, status_of, agent_info}
use herdr_bridge.Session.Cache.Events.{EventData, apply_event}
use herdr_bridge.Session.Cache.Events.Mirror.{mirror_of, change_of, apply}
use herdr_bridge.Session.Cache.Events.Index.{IsIndexed, new-IsIndexed}
use herdr_bridge.Session.Cache.Events.Refines.{apply_event-refines}
use herdr_bridge.Session.Cache.Snapshot.{
  Snapshot, panes_by_id, index_agents, refresh_snapshot, Pushed, apply_events,
}
use herdr_bridge.Session.Cache.Snapshot.Refines.{
  vacant, arrive, IsRoster, replay, AllFit, session_mirrored,
}
use herdr_bridge.Session.Cache.Rebuild.{Answers, subscribing, snapshotting, closing, rebuild}
use herdr_bridge.Session.Cache.Rebuild.Order.{opened, held, rebuild-held, rebuild-order}
use herdr_bridge.Session.Client.{ended, read, envelope, raise_for_error}
use herdr_bridge.Session.Client.Reader.{
  Reader, defaults, new_reader, Cycle, dropped, broken, pushed, read_all, failed, serve, attempt,
  cycle,
}
use herdr_bridge.Session.Client.Reader.Traces.{gather}
use herdr_bridge.Session.Client.Reader.Backoff.{waits}
use herdr_bridge.Session.Client.Reader.Schedule.{doubling, waits-doubling}
use herdr_bridge.Session.Client.Reader.Endings.{IsLive, read_all-some}
use herdr_bridge.Session.Client.Reader.Outages.{are_spaced, firsts, read_all-alarms}

abbrev acts : List Act
acts =
    acquiring "p1" "a" "control"
    ∷ acquiring "p1" "b" "control"
    ∷ releasing 0
    ∷ acquiring "p1" "b" "control"
    ∷ []

abbrev second : ℕ
second = 1

one_controller_example : second ≡ second
unfolding perform_all acquire release get put pop
one_controller_example = one_controller acts second second "p1" refl refl

abbrev pane_one : Fields
pane_one =
    ("pane_id", text "p1")
    ∷ ("terminal_id", text "t1")
    ∷ ("agent", text "claude")
    ∷ ("agent_status", text "idle")
    ∷ []

abbrev pane_two : Fields
pane_two = ("pane_id", text "p2") ∷ ("terminal_id", text "t2") ∷ ("agent", text "codex") ∷ []

abbrev working_one : EventData
working_one = record {
  fields = ("pane_id", text "p1") ∷ ("agent_status", text "working") ∷ [];
  pane = [];
}

abbrev opened_two : EventData
opened_two = record { fields = []; pane = pane_two }

abbrev snap : Snapshot
snap = record {
  panes = pane_one ∷ [];
  agents = pane_one ∷ [];
  focus = record { focused_workspace = none; focused_tab = none; focused_pane = some "p1" };
}

apply_event-refines_example :
    IsIndexed (apply_event 5 "pane_created" opened_two new_cache)
    × (mirror_of (apply_event 5 "pane_created" opened_two new_cache)
        ≡ apply (change_of "pane_created" opened_two (mirror_of new_cache)) (mirror_of new_cache))
unfolding change_of get
apply_event-refines_example =
    apply_event-refines 5 "pane_created" opened_two new_cache new-IsIndexed
      (record { alone = λ b h. ground (arith, h); only = λ p b h k. ground (arith, h) })

abbrev known : Dict Fields
known = ("p1", pane_one) ∷ []

abbrev pushes : List Pushed
pushes = (5, "pane_agent_status_changed", working_one) ∷ (6, "pane_exited", working_one) ∷ []

snap-IsRoster : IsRoster snap.agents (vacant known)
unfolding IsRoster get agent_info apply
snap-IsRoster =
    (refl, record { alone = λ b h. ground (arith, h); only = λ p b h k. ground (arith, h) }, tt)

pushes-AllFit : AllFit pushes (arrive snap.agents (vacant known))
unfolding AllFit arrive apply change_of get agent_info
pushes-AllFit = (tt, (tt, tt))

snap-panes : panes_by_id snap.panes [] ≡ some known
unfolding panes_by_id get put
snap-panes = refl

session_mirrored_example :
    mirror_of (apply_events pushes (refresh_snapshot (some snap) new_cache).1)
    ≡ replay pushes (arrive snap.agents (vacant known))
session_mirrored_example =
    session_mirrored snap known pushes new_cache snap-panes snap-IsRoster pushes-AllFit

abbrev answers : Answers
answers = record { subscribed = some 8; acked = true; snapshot = some snap; stopped_after = false }

abbrev live_cache : SessionCache
live_cache = record new_cache { subscription = some 7 }

snap-taken : (refresh_snapshot answers.snapshot live_cache).0 ≡ true
unfolding refresh_snapshot panes_by_id index_agents get put agent_info status_of
snap-taken = refl

rebuild-held_example :
    opened (rebuild answers live_cache).1 (7 ∷ [])
    ≡ held (rebuild answers live_cache).0.subscription
rebuild-held_example = rebuild-held answers live_cache (λ e. ground (arith, e)) snap-taken

rebuild_replaces : (rebuild answers live_cache).0.subscription ≢ live_cache.subscription
unfolding rebuild refresh_snapshot panes_by_id index_agents get put agent_info status_of
rebuild_replaces e = ground (arith, e)

rebuild-order_example :
    (new : ℕ) × ((rebuild answers live_cache).0.subscription ≡ some new)
    × (live_cache.stopped ≡ false)
    × (answers.acked ≡ true)
    × ((refresh_snapshot answers.snapshot live_cache).0 ≡ true)
    × ((rebuild answers live_cache).1 ≡ subscribing new ∷ snapshotting ∷ closing 7 ∷ [])
rebuild-order_example = rebuild-order answers live_cache rebuild_replaces

-- The new subscription stays open beside the old one when the snapshot cannot be taken.
rebuild_leaves_open :
    opened (rebuild (record answers { snapshot = none }) live_cache).1 (7 ∷ []) ≡ 8 ∷ 7 ∷ []
unfolding rebuild refresh_snapshot opened
rebuild_leaves_open = refl

abbrev refused : Cycle
refused = record {
  has_connection = false;
  ack = ended;
  lines = [];
  ending = dropped;
  now = 100;
  closed = false;
  closed_waiting = false;
}

abbrev served : Cycle
served = record {
  has_connection = true;
  ack = read 20 true (envelope none []);
  lines = pushed "pane_created" ∷ [];
  ending = broken;
  now = 200;
  closed = false;
  closed_waiting = false;
}

abbrev cycles : List Cycle
cycles = refused ∷ refused ∷ served ∷ refused ∷ []

-- Two failures, then a connection that breaks: the backoff starts over.
cycles-waits :
    waits (read_all defaults cycles (new_reader defaults)).1 ≡ 500 ∷ 1000 ∷ 500 ∷ 1000 ∷ []
unfolding read_all cycle attempt serve failed gather raise_for_error
cycles-waits = refl

waits-doubling_example :
    waits (read_all defaults (refused ∷ refused ∷ refused ∷ []) (new_reader defaults)).1
    ≡ doubling 30000 500 3
waits-doubling_example =
    waits-doubling defaults (refused ∷ refused ∷ refused ∷ []) (ground arith)
      ((refl, refl, refl), ((refl, refl, refl), ((refl, refl, refl), tt)))

read_all-alarms_example :
    (are_spaced false (read_all defaults cycles (new_reader defaults)).1 ≡ true)
    × (firsts (read_all defaults cycles (new_reader defaults)).1 ≤ 1)
read_all-alarms_example = read_all-alarms defaults cycles

served-IsLive : All IsLive (served ∷ refused ∷ [])
unfolding raise_for_error
served-IsLive = ((refl, refl, refl), ((refl, refl, refl), tt))

read_all-some_example :
    (t : Reader) × ((read_all defaults (served ∷ refused ∷ []) (new_reader defaults)).0 ≡ some t)
read_all-some_example =
    read_all-some defaults (served ∷ refused ∷ []) (new_reader defaults) served-IsLive
