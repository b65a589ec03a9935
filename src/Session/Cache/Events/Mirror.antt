-- ===== src/Session/Cache/Events/Mirror.antt =====
-- What the session cache of cache.py promises: for each pane, the agent that sits in it. The index by
-- terminal, which the cache keeps in two dictionaries, is forgotten.
use herdr_bridge.Prelude.{◌≡◌, ◌||◌, Option, none, some, String, ◌==◌, text_key, if◌then◌else◌}
use herdr_bridge.Tasks.Dict.{get}
use herdr_bridge.Session.Cache.{
  Fields, AgentStatus, unknown, AgentInfo, text_at, filled, status_of, SessionCache, agent_of,
}
use herdr_bridge.Session.Cache.Events.{EventData, hosted, with_status, or_empty, reported, merged}

pub record Mirror : Type 0 where
  pub known : String → Option Fields
  pub seats : String → Option AgentInfo

-- The agent that a pane leads to.
abbrev pub seat_of : SessionCache → String → Option AgentInfo
seat_of s pane = agent_of s.agents (filled (get pane s.pane_to_terminal))

abbrev pub mirror_of : SessionCache → Mirror
mirror_of s = record { known = λ p. get p s.panes; seats = seat_of s }

-- What an event means for the panes.
pub data Change : Type 0 where
  unchanged : Change
  opened : String → Fields → Option AgentInfo → Change
  removed : String → Change
  marked : AgentStatus → String → Change
  arrived : AgentInfo → Change

abbrev pub opening : Option String → Fields → Change
opening none pane = unchanged
opening (some id) pane = opened id pane (hosted pane)

abbrev pub closing : Option String → Change
closing none = unchanged
closing (some id) = removed id

abbrev pub arrival : Option AgentInfo → Change
arrival none = unchanged
arrival (some a) = arrived a

abbrev pub detection : Option Fields → EventData → Change
detection none e = unchanged
detection (some pane) e = arrival (hosted (merged pane e))

abbrev pub change_reported : String → EventData → Option Fields → Option AgentInfo → Change
change_reported event e pane none =
    if event == "pane_agent_detected" then detection pane e else unchanged
change_reported event e pane (some a) =
    marked (status_of (reported "agent_status" e)) (or_empty (reported "pane_id" e))

unfoldable pub change_of : String → EventData → Mirror → Change
change_of event e m =
    if event == "pane_created"
    then opening (filled (text_at "pane_id" e.pane)) e.pane
    else if event == "pane_closed"
    then closing (filled (text_at "pane_id" e.fields))
    else if event == "pane_exited"
    then marked unknown (or_empty (text_at "pane_id" e.fields))
    else if event == "pane_focused"
    then unchanged
    else if event == "pane_agent_detected" || event == "pane_agent_status_changed"
    then change_reported event e (m.known (or_empty (reported "pane_id" e)))
        (m.seats (or_empty (reported "pane_id" e)))
    else unchanged

abbrev pub at {ℓ} : {A : Type ℓ} → String → A → (String → A) → String → A
at p v f q = if p == q then v else f q

abbrev pub marked_as : AgentStatus → Option AgentInfo → Option AgentInfo
marked_as status none = none
marked_as status (some a) = some (with_status status a)

unfoldable pub apply : Change → Mirror → Mirror
apply unchanged m = m
apply (opened id pane none) m = record m { known = at id (some pane) m.known }
apply (opened id pane (some a)) m = record {
  known = at id (some pane) m.known;
  seats = at id (some a) m.seats;
}
apply (removed id) m = record { known = at id none m.known; seats = at id none m.seats }
apply (marked status pane) m = record m {
  seats = at pane (marked_as status (m.seats pane)) m.seats;
}
apply (arrived a) m = record m { seats = at a.pane_id (some a) m.seats }

-- A pane may take an agent if it holds no other agent, and the agent sits in no other pane.
pub record IsFree (a : AgentInfo) (pane : String) (m : Mirror) : Type 0 where
  pub alone : (b : AgentInfo) → m.seats pane ≡ some b → b.agent_id ≡ a.agent_id
  pub only : (p : String) (b : AgentInfo) → m.seats p ≡ some b → b.agent_id ≡ a.agent_id → pane ≡ p

-- No event seats an agent in a pane that holds another, or in two panes.
abbrev pub Fits : Change → Mirror → Type 0
Fits (opened id pane (some a)) m = IsFree a id m
Fits (arrived a) m = IsFree a a.pane_id m
Fits c m = Unit
