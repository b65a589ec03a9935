-- ===== src/Session/Cache/Events/Refines.antt =====
-- `SessionCache._apply_event` of cache.py does to the panes and their agents what the event means.
use herdr_bridge.Prelude.{
  text_key, ℕ, ◌≡◌, refl, Bool, true, false, ◌||◌, Option, none, some, String, ◌==◌, if◌then◌else◌,
}
use herdr_bridge.Tasks.Dict.{get}
use herdr_bridge.Session.Cache.{
  AgentStatus, unknown, text_at, filled, status_of, SessionCache, agent_of,
}
use herdr_bridge.Session.Cache.Events.{
  EventData, pane_created, pane_closed, or_empty, terminal_in, pane_exited, pane_focused, reported,
  note_status, report, agent_reported, apply_event,
}
use herdr_bridge.Session.Cache.Events.Mirror.{
  seat_of, mirror_of, Change, change_reported, change_of, apply, Fits,
}
use herdr_bridge.Session.Cache.Events.Index.{IsIndexed}
use herdr_bridge.Session.Cache.Events.Branches.{
  Implements, created-opening, close_pane-closing, mark-terminal, report-change,
}

-- The record of the reported status is beside the point here.
noted-change :
    (s : SessionCache) (event : String) (now : ℕ) (status : AgentStatus) (e : EventData)
    (o : Option String)
    → let noted = note_status event now status o s in
      let pane = reported "pane_id" e in
      Implements s
        (report event (agent_of noted.agents (terminal_in pane noted)) e noted)
        (change_reported event e (get (or_empty pane) s.panes) (seat_of s (or_empty pane)))
noted-change s event now status e none =
    report-change s event e (seat_of s (or_empty (reported "pane_id" e)))
noted-change s event now status e (some pane) =
    report-change (note_status event now status (some pane) s) event e
      (seat_of s (or_empty (reported "pane_id" e)))

record IsStep (s t : SessionCache) (c : Change) : Type 0 where
  step : Implements s t c

test :
    {s x y : SessionCache} {c d : Change} (b : Bool)
    → IsStep s x c
    → IsStep s y d
    → IsStep s (if b then x else y) (if b then c else d)
test true u v = u
test false u v = v

apply_event-IsStep :
    (now : ℕ) (event : String) (e : EventData) (s : SessionCache)
    → IsStep s (apply_event now event e s) (change_of event e (mirror_of s))
unfolding apply_event change_of pane_created pane_closed pane_exited pane_focused agent_reported
    apply
apply_event-IsStep now event e s =
    test (event == "pane_created")
      (record { step = created-opening s (filled (text_at "pane_id" e.pane)) e.pane refl })
      (test (event == "pane_closed")
        (record { step = close_pane-closing s (filled (text_at "pane_id" e.fields)) })
        (test (event == "pane_exited")
          (record {
            step =
                mark-terminal s unknown (or_empty (text_at "pane_id" e.fields))
                  (terminal_in (text_at "pane_id" e.fields) s) refl;
          })
          (test (event == "pane_focused") (record { step = λ i f. (i, refl) })
            (test (event == "pane_agent_detected" || event == "pane_agent_status_changed")
              (record {
                step =
                    noted-change s event now (status_of (reported "agent_status" e)) e
                      (filled (reported "pane_id" e));
              })
              (record { step = λ i f. (i, refl) })))))

-- An event does to the agent of each pane, and to the known panes, exactly what it means for them: the two
-- dictionaries of agents implement one map from panes to agents, and stay in agreement. This holds for
-- every event, known or not, of a cache whose dictionaries agree, if the event does not seat an agent in
-- two panes or two agents in one pane.
pub apply_event-refines :
    (now : ℕ) (event : String) (e : EventData) (s : SessionCache)
    → IsIndexed s
    → Fits (change_of event e (mirror_of s)) (mirror_of s)
    → IsIndexed (apply_event now event e s)
      × (mirror_of (apply_event now event e s)
          ≡ apply (change_of event e (mirror_of s)) (mirror_of s))
apply_event-refines now event e s = (apply_event-IsStep now event e s).step
