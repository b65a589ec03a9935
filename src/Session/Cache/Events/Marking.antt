-- ===== src/Session/Cache/Events/Marking.antt =====
-- A status that cache.py sets in place keeps the two dictionaries in agreement.
use herdr_bridge.Prelude.{
  ◌≡◌, Bool-cases, some, String, ◌==◌, text_key, arith, Option-cases, inl, inr,
}
use herdr_bridge.Tasks.Dict.{get, get-put}
use herdr_bridge.Session.Cache.{AgentStatus, AgentInfo, SessionCache}
use herdr_bridge.Session.Cache.Events.{with_status, set_status}
use herdr_bridge.Session.Cache.Events.Mirror.{seat_of, at}
use herdr_bridge.Session.Cache.Events.Index.{IsIndexed, index-injective, index-named}

module _ (s : SessionCache) (i : IsIndexed s) where
  -- A status is set in place.
  module _ (status : AgentStatus) (t : String) (a : AgentInfo) (h : get t s.agents ≡ some a) where
    pub set_status-seat :
        (q : String)
        → get a.pane_id s.pane_to_terminal ≡ some t
        → seat_of (set_status status t (some a) s) q
          ≡ at a.pane_id (some (with_status status a)) (seat_of s) q
    set_status-seat q g = elim (Option-cases (get q s.pane_to_terminal)) [
      | inl e ↦ ground (arith, e, g, text_key.eqb_iff a.pane_id q)
      | inr e ↦ ground (
        arith,
        e.1,
        g,
        h,
        index-named s i q e.0 e.1,
        index-injective s i a.pane_id q t g,
        get-put e.0 t (with_status status a) s.agents,
        text_key.eqb_iff a.pane_id q,
        text_key.eqb_iff t e.0,
      )
    ]

    set_status-seated :
        (q u : String)
        → get q s.pane_to_terminal ≡ some u
        → (b : AgentInfo) × (get u (set_status status t (some a) s).agents ≡ some b)
          × (b.pane_id ≡ q)
    set_status-seated q u g =
        let b : (b : AgentInfo) × (get u s.agents ≡ some b) × (b.pane_id ≡ q) = i.seated q u g in
        elim (Bool-cases (t == u)) [
          | inl e ↦ (
            with_status status a,
            ground (arith, e, get-put u t (with_status status a) s.agents),
            ground (arith, e, b.1, b.2, h, text_key.eqb_iff t u),
          )
          | inr e ↦ (b.0, ground (arith, e, b.1, get-put u t (with_status status a) s.agents), b.2)
        ]

    pub set_status-IsIndexed : IsIndexed (set_status status t (some a) s)
    set_status-IsIndexed = record {
      seated = set_status-seated;
      hosting = λ u b g. ground (
        arith,
        g,
        h,
        i.hosting u b,
        i.hosting t a,
        get-put u t (with_status status a) s.agents,
        text_key.eqb_iff t u,
      );
      keyed = λ u b g. ground (
        arith,
        g,
        h,
        i.keyed u b,
        i.keyed t a,
        get-put u t (with_status status a) s.agents,
        text_key.eqb_iff t u,
      );
      nameless = ground (
        arith,
        h,
        i.nameless,
        get-put "" t (with_status status a) s.agents,
        text_key.eqb_iff t "",
      );
    }
