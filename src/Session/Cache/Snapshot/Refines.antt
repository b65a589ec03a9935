-- ===== src/Session/Cache/Snapshot/Refines.antt =====
-- A snapshot of cache.py and the events after it, as changes to one map from panes to agents.
use herdr_bridge.Prelude.{
  ◌≡◌, refl, sym, ap, ◌∙◌, Bool, true, false, Option, none, some, List, [], ◌∷◌, ◌==◌, text_key,
}
use mathlib.Core.Path.{subst}
use herdr_bridge.Tasks.Dict.{Dict, get}
use herdr_bridge.Session.Cache.{Fields, AgentInfo, agent_record, Focus, SessionCache}
use herdr_bridge.Session.Cache.Events.{store_agent, apply_event}
use herdr_bridge.Session.Cache.Events.Mirror.{Mirror, mirror_of, arrived, apply, change_of, Fits}
use herdr_bridge.Session.Cache.Events.Index.{
  IsIndexed, new-IsIndexed, store_agent-seat, store_agent-IsIndexed,
}
use herdr_bridge.Session.Cache.Events.Branches.{mirror_path}
use herdr_bridge.Session.Cache.Events.Refines.{apply_event-refines}
use herdr_bridge.Session.Cache.Snapshot.{
  Snapshot, panes_by_id, stored_first, index_agents, emptied, focused, overwrite, refresh_snapshot,
  Pushed, apply_events,
}

abbrev pub arrive_first : (Mirror → Mirror) → Option AgentInfo → Mirror → Mirror
arrive_first next none m = m
arrive_first next (some a) m = next (apply (arrived a) m)

-- The agents of a snapshot sit down one after the other.
unfoldable pub arrive : List Fields → Mirror → Mirror
arrive [] = λ m. m
arrive (rec ∷ l) = arrive_first (arrive l) (agent_record rec)

abbrev pub FitsFirst : (Mirror → Type 0) → Option AgentInfo → Mirror → Type 0
FitsFirst Next none m = ⊥
FitsFirst Next (some a) m =
    ((a.agent_id == "") ≡ false) × Fits (arrived a) m × Next (apply (arrived a) m)

-- Each agent of a snapshot has both ids and takes a seat that is free.
unfoldable pub IsRoster : List Fields → Mirror → Type 0
IsRoster [] = λ m. Unit
IsRoster (rec ∷ l) = FitsFirst (IsRoster l) (agent_record rec)

abbrev pub vacant : Dict Fields → Mirror
vacant panes = record { known = λ p. get p panes; seats = λ p. none }

-- What a run of events means.
unfoldable pub replay : List Pushed → Mirror → Mirror
replay [] m = m
replay ((now, event, e) ∷ l) m = replay l (apply (change_of event e m) m)

unfoldable pub AllFit : List Pushed → Mirror → Type 0
AllFit [] m = Unit
AllFit ((now, event, e) ∷ l) m =
    Fits (change_of event e m) m × AllFit l (apply (change_of event e m) m)

-- What a loop over agents makes of a cache.
abbrev Stores :
    (SessionCache → Bool × SessionCache) → (Mirror → Mirror) → (Mirror → Type 0) → Type 0
Stores f g P =
    (s : SessionCache)
    → IsIndexed s
    → P (mirror_of s)
    → ((f s).0 ≡ true) × IsIndexed (f s).1 × (mirror_of (f s).1 ≡ g (mirror_of s))

stored_first-arrive :
    (f : SessionCache → Bool × SessionCache) (g : Mirror → Mirror) (P : Mirror → Type 0)
    → Stores f g P
    → (o : Option AgentInfo) → Stores (stored_first f o) (arrive_first g o) (FitsFirst P o)
unfolding apply
stored_first-arrive f g P h none = λ s i r. elim r [ ]
stored_first-arrive f g P h (some a) = λ s i r.
    let t : SessionCache = store_agent a.pane_id a s in
    let m : mirror_of t ≡ apply (arrived a) (mirror_of s) =
      mirror_path (λ p. refl) (store_agent-seat s i a.pane_id a r.1 refl r.0) in
    let v : ((f t).0 ≡ true) × IsIndexed (f t).1 × (mirror_of (f t).1 ≡ g (mirror_of t)) =
      h t (store_agent-IsIndexed s i a.pane_id a r.1 refl r.0) (subst P (sym m) r.2) in
    (v.0, v.1, v.2 ∙ ap g m)

index_agents-arrive : (l : List Fields) → Stores (index_agents l) (arrive l) (IsRoster l)
unfolding index_agents IsRoster arrive
index_agents-arrive [] = λ s i r. (refl, i, refl)
index_agents-arrive (rec ∷ l) =
    stored_first-arrive (index_agents l) (arrive l) (IsRoster l) (index_agents-arrive l)
      (agent_record rec)

apply_events-refines :
    (l : List Pushed) (s : SessionCache)
    → IsIndexed s
    → AllFit l (mirror_of s)
    → IsIndexed (apply_events l s) × (mirror_of (apply_events l s) ≡ replay l (mirror_of s))
unfolding apply_events AllFit replay
apply_events-refines [] s i f = (i, refl)
apply_events-refines ((now, event, e) ∷ l) s i f =
    let t : SessionCache = apply_event now event e s in
    let u : IsIndexed t × (mirror_of t ≡ apply (change_of event e (mirror_of s)) (mirror_of s)) =
      apply_event-refines now event e s i f.0 in
    let v : IsIndexed (apply_events l t) × (mirror_of (apply_events l t) ≡ replay l (mirror_of t)) =
      apply_events-refines l t u.0 (subst (AllFit l) (sym u.1) f.1) in
    (v.0, v.1 ∙ ap (replay l) u.1)

-- A loop ended with a cache that mirrors `m`.
abbrev Mirrors : Mirror → Bool × SessionCache → Type 0
Mirrors m r = (r.0 ≡ true) × IsIndexed r.1 × (mirror_of r.1 ≡ m)

focused-Mirrors :
    (focus : Focus) (m : Mirror) (r : Bool × SessionCache)
    → Mirrors m r
    → Mirrors m (focused focus r)
focused-Mirrors focus m (true, s) h = h
focused-Mirrors focus m (false, s) h = h

emptied-Mirrors :
    (snap : Snapshot) (panes : Dict Fields) (s : SessionCache)
    → IsRoster snap.agents (vacant panes)
    → Mirrors (arrive snap.agents (vacant panes)) (overwrite snap (some panes) s)
unfolding get
emptied-Mirrors snap panes s r =
    focused-Mirrors snap.focus (arrive snap.agents (vacant panes))
      (index_agents snap.agents (emptied panes s))
      (index_agents-arrive snap.agents (emptied panes s) new-IsIndexed r)

refresh_snapshot-Mirrors :
    (snap : Snapshot) (panes : Dict Fields) (s : SessionCache)
    → panes_by_id snap.panes [] ≡ some panes
    → IsRoster snap.agents (vacant panes)
    → Mirrors (arrive snap.agents (vacant panes)) (refresh_snapshot (some snap) s)
unfolding refresh_snapshot
refresh_snapshot-Mirrors snap panes s e r =
    subst (λ o. Mirrors (arrive snap.agents (vacant panes)) (overwrite snap o s)) (sym e)
      (emptied-Mirrors snap panes s r)

-- After a snapshot in which every agent has its own id and pane, and any events that seat no agent in two
-- panes and no two agents in one pane, the cache leads from each pane to the agent that the snapshot, as
-- changed by the events in their order, puts there. What the cache held before does not matter.
pub session_mirrored :
    (snap : Snapshot) (panes : Dict Fields) (l : List Pushed) (s : SessionCache)
    → panes_by_id snap.panes [] ≡ some panes
    → IsRoster snap.agents (vacant panes)
    → AllFit l (arrive snap.agents (vacant panes))
    → mirror_of (apply_events l (refresh_snapshot (some snap) s).1)
      ≡ replay l (arrive snap.agents (vacant panes))
session_mirrored snap panes l s e r f =
    let t : SessionCache = (refresh_snapshot (some snap) s).1 in
    let u : Mirrors (arrive snap.agents (vacant panes)) (refresh_snapshot (some snap) s) =
      refresh_snapshot-Mirrors snap panes s e r in
    (apply_events-refines l t u.1 (subst (AllFit l) (sym u.2) f)).1 ∙ ap (replay l) u.2
