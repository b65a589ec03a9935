-- ===== src/Session/Cache/Rebuild.antt =====
-- How the cache of cache.py keeps its subscription: `_rebuild`, `stop`, `_consistency_tick` and
-- `_on_conn_state`. What the client answers is given, what is done to subscriptions is listed in order.
pub mod Order
use herdr_bridge.Prelude.{
  ℕ, suc, Bool, true, false, not, ◌&&◌, ◌||◌, Option, none, some, List, [], ◌∷◌, String, ◌==◌,
  text_key, nat_eq, if◌then◌else◌,
}
use Prim.Native.Nat.{◌%◌}
use herdr_bridge.Tasks.Dict.{Dict, get, put}
use herdr_bridge.Session.Cache.{
  Fields, AgentStatus, idle, working, blocked, done, unknown, agent_prompt_stalled, AgentInfo,
  PaneState, Timer, at_once, SessionCache, request_rebuild,
}
use herdr_bridge.Session.Cache.Events.{set_status}
use herdr_bridge.Session.Cache.Snapshot.{Snapshot, refresh_snapshot}

pub data Effect : Type 0 where
  subscribing : ℕ → Effect
  snapshotting : Effect
  closing : ℕ → Effect

-- The subscription that the client makes, or none if it raises, whether it is acknowledged in time, the
-- snapshot, and whether the cache is stopped meanwhile.
pub record Answers : Type 0 where
  pub subscribed : Option ℕ
  pub acked : Bool
  pub snapshot : Option Snapshot
  pub stopped_after : Bool

abbrev pub Done : Type 0
Done = SessionCache × List Effect

abbrev pub close_old : Option ℕ → List Effect
close_old none = []
close_old (some old) = closing old ∷ []

abbrev pub replace : Answers → Option ℕ → ℕ → Bool × SessionCache → Done
replace a old new (false, s) = (s, subscribing new ∷ snapshotting ∷ [])
replace a old new (true, s) =
    if a.stopped_after
    then (record s { stopped = true }, subscribing new ∷ snapshotting ∷ closing new ∷ [])
    else (record s { subscription = some new }, subscribing new ∷ snapshotting ∷ close_old old)

abbrev pub resubscribe : Answers → Option ℕ → SessionCache → Done
resubscribe a none s = (s, [])
resubscribe a (some new) s =
    if a.acked
    then replace a s.subscription new (refresh_snapshot a.snapshot s)
    else (s, subscribing new ∷ closing new ∷ [])

-- SessionCache._rebuild
unfoldable pub rebuild : Answers → SessionCache → Done
rebuild a s = if s.stopped then (s, []) else resubscribe a a.subscribed s

-- SessionCache.stop
unfoldable pub stop : SessionCache → Done
stop s = (
  record s { stopped = true; rebuild_timer = none; subscription = none },
  close_old s.subscription,
)

abbrev pub status_code : AgentStatus → ℕ
status_code idle = 0
status_code working = 1
status_code blocked = 2
status_code done = 3
status_code unknown = 4
status_code agent_prompt_stalled = 5

-- {a.agent_id: a.status for a in self.list_agents()}
abbrev pub statuses : Dict AgentInfo → Dict ℕ
statuses [] = []
statuses ((t, a) ∷ l) = put a.agent_id (status_code a.status) (statuses l)

abbrev pub has_status : Option ℕ → ℕ → Bool
has_status none n = false
has_status (some m) n = nat_eq m n

abbrev pub within : Dict ℕ → Dict ℕ → Bool
within [] e = true
within ((k, n) ∷ d) e = let later = within d e in has_status (get k e) n && later

abbrev pub is_known : {A : Type 0} → Option A → Bool
is_known none = false
is_known (some a) = true

abbrev pub panes_within : Dict Fields → Dict Fields → Bool
panes_within [] e = true
panes_within ((p, f) ∷ d) e = let later = panes_within d e in is_known (get p e) && later

abbrev pub same_panes : SessionCache → SessionCache → Bool
same_panes s t = panes_within s.panes t.panes && panes_within t.panes s.panes

abbrev pub same_agents : SessionCache → SessionCache → Bool
same_agents s t =
    within (statuses s.agents) (statuses t.agents) && within (statuses t.agents) (statuses s.agents)

abbrev pub drifted : SessionCache → SessionCache → SessionCache
drifted s t =
    if same_agents s t && same_panes s t
    then t
    else let u = record t { drift_count = suc t.drift_count } in
      if same_panes s t then u else request_rebuild at_once u

-- self._pane_state.setdefault(pid, {})
abbrev pub with_default : Option PaneState → String → Dict PaneState → Dict PaneState
with_default (some st) pane d = d
with_default none pane d =
    put pane (record { last_status = none; last_event_ts = none; last_event = none }) d

abbrev pub with_panes : Dict Fields → Dict PaneState → Dict PaneState
with_panes [] d = d
with_panes ((p, f) ∷ l) d = with_panes l (with_default (get p d) p d)

abbrev pub noted : SessionCache → SessionCache
noted s = record s { pane_state = with_panes s.panes s.pane_state }

-- An exception of the snapshot is logged, and ends the tick.
abbrev pub checked : SessionCache → Bool × SessionCache → SessionCache
checked s (false, t) = t
checked s (true, t) = noted (drifted s t)

abbrev pub is_dead : Bool → Option ℕ → Bool
is_dead closed none = true
is_dead closed (some sub) = closed

-- SessionCache._consistency_tick: `closed` tells whether the subscription is closed.
unfoldable pub consistency_tick : Bool → Option Snapshot → SessionCache → SessionCache
consistency_tick closed snap s =
    let t = record s { tick_count = suc s.tick_count } in
    if is_dead closed t.subscription
    then request_rebuild at_once t
    else if nat_eq (t.tick_count % 3) 0
    then checked t (refresh_snapshot snap t)
    else noted t

-- The first agent of the dictionary that sits in the pane.
abbrev pub agent_in : String → Dict AgentInfo → Option (String × AgentInfo)
agent_in pane [] = none
agent_in pane ((t, a) ∷ l) =
    let later = agent_in pane l in if a.pane_id == pane then some (t, a) else later

abbrev pub set_found : AgentStatus → Option (String × AgentInfo) → SessionCache → SessionCache
set_found status none s = s
set_found status (some (t, a)) s = set_status status t (some a) s

abbrev pub reconcile_pane :
    String → Option Fields → Option AgentStatus → SessionCache → SessionCache
reconcile_pane pane (some rec) (some status) s = set_found status (agent_in pane s.agents) s
reconcile_pane pane none status s = s
reconcile_pane pane (some rec) none s = s

abbrev pub reconcile : Dict PaneState → SessionCache → SessionCache
reconcile [] s = s
reconcile ((p, st) ∷ l) s = reconcile l (reconcile_pane p (get p s.panes) st.last_status s)

-- SessionCache._on_conn_state
unfoldable pub on_conn_state : String → SessionCache → SessionCache
on_conn_state state s =
    if state == "reconnected" then request_rebuild at_once (reconcile s.pane_state s) else s
