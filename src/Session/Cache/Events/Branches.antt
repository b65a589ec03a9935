-- ===== src/Session/Cache/Events/Branches.antt =====
-- What each branch of `SessionCache._apply_event` of cache.py does to the panes and their agents.
use herdr_bridge.Prelude.{
  ◌≡◌, refl, sym, ◌∙◌, Bool, true, false, Option, none, some, String, ◌==◌, text_key, if◌then◌else◌,
  arith,
}
use mathlib.Core.Path.{subst}
use herdr_bridge.Tasks.Dict.{get, put, get-put, get-pop}
use herdr_bridge.Session.Cache.{
  Fields, AgentStatus, AgentInfo, text_at, filled, status_of, SessionCache, agent_info, Timer,
  at_once, debounced, request_rebuild,
}
use herdr_bridge.Session.Cache.Events.{
  EventData, hosted, store_hosted, created, drop_agent, close_pane, set_status, mark, or_empty,
  terminal_in, reported, merged, store_own, detect, report,
}
use herdr_bridge.Session.Cache.Events.Mirror.{
  Mirror, mirror_of, Change, unchanged, opened, removed, marked, opening, closing, arrival,
  detection, change_reported, apply, IsFree, Fits,
}
use herdr_bridge.Session.Cache.Events.Index.{
  IsIndexed, store_agent-seat, store_agent-IsIndexed, index-named, without,
}
use herdr_bridge.Session.Cache.Events.Marking.{set_status-seat, set_status-IsIndexed}
use herdr_bridge.Session.Cache.Events.Removal.{
  drop_some-seat, drop_some-IsIndexed, drop_none-seat, drop_none-IsIndexed,
}

-- The cache `t` is what the change makes of `s`, whenever the change fits.
abbrev pub Implements : SessionCache → SessionCache → Change → Type 0
Implements s t c =
    IsIndexed s → Fits c (mirror_of s) → IsIndexed t × (mirror_of t ≡ apply c (mirror_of s))

pub mirror_path :
    {m n : Mirror}
    → ((p : String) → m.known p ≡ n.known p)
    → ((p : String) → m.seats p ≡ n.seats p)
    → m ≡ n
mirror_path k h = λ j. record { known = λ p. k p j; seats = λ p. h p j }

branch :
    (s x y : SessionCache) (c d : Change) (b : Bool)
    → Implements s x c
    → Implements s y d
    → Implements s (if b then x else y) (if b then c else d)
branch s x y c d true u v = u
branch s x y c d false u v = v

rebuilding :
    (delay : Timer) (s t : SessionCache) (c : Change) (b : Bool)
    → Implements s t c
    → Implements s (if b then t else record t { rebuild_timer = some delay }) c
rebuilding delay s t c true u = u
rebuilding delay s t c false u =
    λ i f. let v : IsIndexed t × (mirror_of t ≡ apply c (mirror_of s)) = u i f in v

requesting :
    (delay : Timer) (s t : SessionCache) (c : Change)
    → Implements s t c
    → Implements s (request_rebuild delay t) c
unfolding request_rebuild
requesting delay s t c = rebuilding delay s t c t.stopped

hosted-agent :
    (rec : Fields) (a : AgentInfo)
    → hosted rec ≡ some a
    → (text_at "pane_id" rec ≡ some a.pane_id) × ((a.agent_id == "") ≡ false)
unfolding agent_info
hosted-agent rec a h = ground (arith, h)

opened-hosted :
    (s : SessionCache) (id : String) (pane : Fields) (h : Option AgentInfo)
    → hosted pane ≡ h
    → text_at "pane_id" pane ≡ some id
    → Implements s (store_hosted id h (record s { panes = put id pane s.panes })) (opened id pane h)
unfolding apply
opened-hosted s id pane none h e i f = (i, mirror_path (λ p. get-put p id pane s.panes) (λ p. refl))
opened-hosted s id pane (some a) h e i f =
    let t : SessionCache = record s { panes = put id pane s.panes } in
    let j : IsIndexed t = i in
    let k : a.pane_id ≡ id = ground (arith, e, hosted-agent pane a h) in
    let g : IsFree a id (mirror_of t) = record { alone = f.alone; only = f.only } in
    (
      store_agent-IsIndexed t j id a g k (hosted-agent pane a h).1,
      mirror_path (λ p. get-put p id pane s.panes)
          (store_agent-seat t j id a g k (hosted-agent pane a h).1),
    )

pub created-opening :
    (s : SessionCache) (o : Option String) (pane : Fields)
    → filled (text_at "pane_id" pane) ≡ o
    → Implements s (created o pane s) (opening o pane)
unfolding apply
created-opening s none pane h = λ i f. (i, refl)
created-opening s (some id) pane h =
    requesting at_once s (store_hosted id (hosted pane) (record s { panes = put id pane s.panes }))
      (opened id pane (hosted pane))
      (opened-hosted s id pane (hosted pane) refl (ground (arith, h)))

module _ (s : SessionCache) where
  close_pane-index :
      (id : String) (o : Option String)
      → get id s.pane_to_terminal ≡ o
      → Implements s (drop_agent (filled o) (without s id)) (removed id)
  unfolding apply
  close_pane-index id none g = λ i f. (
    drop_none-IsIndexed s i id g,
    mirror_path (λ p. get-pop p id s.panes) (drop_none-seat s i id g),
  )
  close_pane-index id (some t) g = λ i f.
      let n : some t ≡ filled (some t) = sym (index-named s i id t g) in
      subst
        (λ o.
          IsIndexed (drop_agent o (without s id))
          × (mirror_of (drop_agent o (without s id)) ≡ apply (removed id) (mirror_of s)))
        n
        (
          drop_some-IsIndexed s i id t g,
          mirror_path (λ p. get-pop p id s.panes) (drop_some-seat s i id t g),
        )

  pub close_pane-closing : (o : Option String) → Implements s (close_pane o s) (closing o)
  unfolding apply
  close_pane-closing none = λ i f. (i, refl)
  close_pane-closing (some id) =
      requesting debounced s (drop_agent (filled (get id s.pane_to_terminal)) (without s id))
        (removed id) (close_pane-index id (get id s.pane_to_terminal) refl)

  module _ (status : AgentStatus) (p : String) where
    -- Marking the terminal of a pane marks the seat of the pane.
    mark-agent :
        (t : String) (m : Option AgentInfo)
        → filled (get p s.pane_to_terminal) ≡ some t
        → get t s.agents ≡ m
        → Implements s (set_status status t m s) (marked status p)
    unfolding apply
    mark-agent t none h e =
        λ i f. (i, mirror_path (λ q. refl) (λ q. ground (arith, h, e, text_key.eqb_iff p q)))
    mark-agent t (some a) h e = λ i f.
        let g : get p s.pane_to_terminal ≡ some t = ground (arith, h) in
        let b : (b : AgentInfo) × (get t s.agents ≡ some b) × (b.pane_id ≡ p) = i.seated p t g in
        let k : a.pane_id ≡ p = ground (arith, e, b.1, b.2) in
        (
          set_status-IsIndexed s i status t a e,
          mirror_path (λ q. refl)
              (λ q. set_status-seat s i status t a e q (i.hosting t a e) ∙ ground (arith, h, e, k)),
        )

    pub mark-terminal :
        (o : Option String)
        → filled (get p s.pane_to_terminal) ≡ o
        → Implements s (mark status o s) (marked status p)
    unfolding apply
    mark-terminal none h =
        λ i f. (i, mirror_path (λ q. refl) (λ q. ground (arith, h, text_key.eqb_iff p q)))
    mark-terminal (some t) h = mark-agent t (get t s.agents) h refl

  detect-arrival :
      (rec : Fields) (h : Option AgentInfo)
      → hosted rec ≡ h
      → Implements s (store_own h s) (arrival h)
  unfolding apply
  detect-arrival rec none e = λ i f. (i, refl)
  detect-arrival rec (some a) e = λ i f.
      let n : (a.agent_id == "") ≡ false = (hosted-agent rec a e).1 in
      (
        store_agent-IsIndexed s i a.pane_id a f refl n,
        mirror_path (λ p. refl) (store_agent-seat s i a.pane_id a f refl n),
      )

  detect-detection :
      (e : EventData) (known : Option Fields) → Implements s (detect known e s) (detection known e)
  unfolding apply
  detect-detection e none = λ i f. (i, refl)
  detect-detection e (some pane) = detect-arrival (merged pane e) (hosted (merged pane e)) refl

  pub report-change :
      (event : String) (e : EventData) (m : Option AgentInfo)
      → Implements s
          (report event m e s)
          (change_reported event e (get (or_empty (reported "pane_id" e)) s.panes) m)
  unfolding apply
  report-change event e none =
      branch s (detect (get (or_empty (reported "pane_id" e)) s.panes) e s) s
        (detection (get (or_empty (reported "pane_id" e)) s.panes) e) unchanged
        (event == "pane_agent_detected")
        (detect-detection e (get (or_empty (reported "pane_id" e)) s.panes)) (λ i f. (i, refl))
  report-change event e (some a) =
      mark-terminal (status_of (reported "agent_status" e)) (or_empty (reported "pane_id" e))
        (terminal_in (reported "pane_id" e) s) refl
