-- ===== src/Session/Cache/Events/Removal.antt =====
-- A pane that cache.py drops with its agent leaves the two dictionaries in agreement.
use herdr_bridge.Prelude.{◌≡◌, none, some, String, text_key, arith, Option-cases, inl, inr}
use herdr_bridge.Tasks.Dict.{get, pop, get-pop}
use herdr_bridge.Session.Cache.{AgentInfo, SessionCache}
use herdr_bridge.Session.Cache.Events.{drop_agent}
use herdr_bridge.Session.Cache.Events.Mirror.{seat_of, at}
use herdr_bridge.Session.Cache.Events.Index.{IsIndexed, without, index-injective, index-named}

module _ (s : SessionCache) (i : IsIndexed s) where
  -- A pane and its agent are dropped together.
  module _ (p : String) where
    -- The pane leads to a terminal.
    module _ (t : String) (g : get p s.pane_to_terminal ≡ some t) where
      pub drop_some-seat :
          (q : String) → seat_of (drop_agent (some t) (without s p)) q ≡ at p none (seat_of s) q
      drop_some-seat q = elim (Option-cases (get q s.pane_to_terminal)) [
        | inl e ↦ ground (arith, e, g, get-pop q p s.pane_to_terminal)
        | inr e ↦ ground (
          arith,
          e.1,
          g,
          index-named s i q e.0 e.1,
          index-injective s i p q t g,
          get-pop q p s.pane_to_terminal,
          get-pop e.0 t s.agents,
          text_key.eqb_iff p q,
          text_key.eqb_iff t e.0,
        )
      ]

      drop_some-seated :
          (q u : String)
          → get q (pop p s.pane_to_terminal) ≡ some u
          → (b : AgentInfo) × (get u (pop t s.agents) ≡ some b) × (b.pane_id ≡ q)
      drop_some-seated q u h =
          let k : get q s.pane_to_terminal ≡ some u =
            ground (arith, h, get-pop q p s.pane_to_terminal) in
          let b : (b : AgentInfo) × (get u s.agents ≡ some b) × (b.pane_id ≡ q) = i.seated q u k in
          (
            b.0,
            ground (
              arith,
              h,
              b.1,
              k,
              g,
              index-injective s i p q t g,
              get-pop q p s.pane_to_terminal,
              get-pop u t s.agents,
              text_key.eqb_iff p q,
              text_key.eqb_iff t u,
            ),
            b.2,
          )

      pub drop_some-IsIndexed : IsIndexed (drop_agent (some t) (without s p))
      drop_some-IsIndexed = record {
        seated = drop_some-seated;
        hosting = λ u b h. ground (
          arith,
          h,
          g,
          i.hosting u b,
          get-pop b.pane_id p s.pane_to_terminal,
          get-pop u t s.agents,
          text_key.eqb_iff p b.pane_id,
          text_key.eqb_iff t u,
        );
        keyed = λ u b h. ground (arith, h, i.keyed u b, get-pop u t s.agents);
        nameless = ground (arith, i.nameless, get-pop "" t s.agents);
      }

    -- The pane leads nowhere.
    module _ (g : get p s.pane_to_terminal ≡ none) where
      pub drop_none-seat : (q : String) → seat_of (without s p) q ≡ at p none (seat_of s) q
      drop_none-seat q = ground (arith, g, get-pop q p s.pane_to_terminal, text_key.eqb_iff p q)

      pub drop_none-IsIndexed : IsIndexed (without s p)
      drop_none-IsIndexed = record {
        seated = λ q u h. i.seated q u (ground (arith, h, get-pop q p s.pane_to_terminal));
        hosting = λ u b h. ground (
          arith,
          h,
          g,
          i.hosting u b,
          get-pop b.pane_id p s.pane_to_terminal,
          text_key.eqb_iff p b.pane_id,
        );
        keyed = i.keyed;
        nameless = i.nameless;
      }
