-- ===== src/Session/Actions/Leases.antt =====
-- The lease of a pane does not depend on the name by which actions.py's acquire_control is asked for it.
use herdr_bridge.Prelude.{
  ◌≡◌, sym, ap, ◌∙◌, Bool, true, ◌||◌, Option, none, some, String, ◌==◌, text_key, if◌then◌else◌,
  ok, arith,
}
use herdr_bridge.Tasks.Dict.{get}
use herdr_bridge.Session.Controls.{Registry}
use herdr_bridge.Session.Cache.{AgentInfo, SessionCache, resolve}
use herdr_bridge.Session.Cache.Snapshot.{Snapshot}
use herdr_bridge.Session.Cache.Events.Index.{IsIndexed, index-named}
use herdr_bridge.Session.Actions.{
  resolve_from, resolve_with_refresh, is_pane, lease, lease_resolved, bad_mode, acquire_control,
}

module _ (s : SessionCache) (i : IsIndexed s) (t : String) (a : AgentInfo)
    (h : get t s.agents ≡ some a) where
  resolve-terminal : resolve t s ≡ some a
  unfolding resolve
  resolve-terminal = ground (arith, h)

  resolve-pane : get a.pane_id s.agents ≡ none → resolve a.pane_id s ≡ some a
  unfolding resolve
  resolve-pane n =
      let g : get a.pane_id s.pane_to_terminal ≡ some t = i.hosting t a h in
      ground (arith, n, g, h, index-named s i a.pane_id t g)

resolved :
    (target : String) (exists : Bool) (snap : Option Snapshot) (s : SessionCache) (a : AgentInfo)
    → resolve target s ≡ some a
    → resolve_with_refresh target exists snap s ≡ (ok (some a), s)
unfolding resolve_with_refresh
resolved target exists snap s a h = ap (resolve_from target exists snap s) h

leased_pane :
    (actor target mode : String) (snap : Option Snapshot) (s : SessionCache) (r : Registry)
    (a : AgentInfo)
    → resolve target s ≡ some a
    → (mode == "observe" || mode == "control") ≡ true
    → acquire_control actor target mode snap s r ≡ lease actor a.pane_id mode r s
unfolding acquire_control
leased_pane actor target mode snap s r a h m =
    ap
      (λ b.
        if b
        then lease_resolved actor target mode r
            (resolve_with_refresh target (is_pane target s) snap s)
        else (bad_mode, s, r))
      m
    ∙ ap (lease_resolved actor target mode r) (resolved target (is_pane target s) snap s a h)

-- An agent's pane gets the same lease whether it is asked for by the terminal of the agent or by the pane,
-- if the pane is not the name of another terminal: an actor cannot get around a lease by the other name.
pub acquire_control-same :
    (actor mode : String) (snap : Option Snapshot) (s : SessionCache) (r : Registry) (t : String)
    (a : AgentInfo)
    → IsIndexed s
    → get t s.agents ≡ some a
    → get a.pane_id s.agents ≡ none
    → (mode == "observe" || mode == "control") ≡ true
    → acquire_control actor t mode snap s r ≡ acquire_control actor a.pane_id mode snap s r
acquire_control-same actor mode snap s r t a i h n m =
    leased_pane actor t mode snap s r a (resolve-terminal s i t a h) m
    ∙ sym (leased_pane actor a.pane_id mode snap s r a (resolve-pane s i t a h n) m)
