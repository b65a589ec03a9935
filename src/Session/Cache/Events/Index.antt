-- ===== src/Session/Cache/Events/Index.antt =====
-- The two dictionaries of cache.py, `_agents` by terminal and `_pane_to_terminal`, agree with each other.
use herdr_bridge.Prelude.{
  ◌≡◌, refl, sym, ap, ◌∙◌, Bool-cases, false, none, some, String, ◌==◌, text_key, arith,
  Option-cases, inl, inr,
}
use herdr_bridge.Tasks.Dict.{Dict, get, pop, get-put}
use herdr_bridge.Session.Cache.{AgentInfo, filled, SessionCache, new_cache}
use herdr_bridge.Session.Cache.Events.{store_agent}
use herdr_bridge.Session.Cache.Events.Mirror.{seat_of, mirror_of, at, IsFree}

pub record IsIndex (agents : Dict AgentInfo) (index : Dict String) : Type 0 where
  pub seated :
      (p t : String)
      → get p index ≡ some t
      → (a : AgentInfo) × (get t agents ≡ some a) × (a.pane_id ≡ p)
  pub hosting : (t : String) (a : AgentInfo) → get t agents ≡ some a → get a.pane_id index ≡ some t
  pub keyed : (t : String) (a : AgentInfo) → get t agents ≡ some a → a.agent_id ≡ t
  pub nameless : get "" agents ≡ none

abbrev pub IsIndexed : SessionCache → Type 0
IsIndexed s = IsIndex s.agents s.pane_to_terminal

-- The cache without a pane and its entry in the index.
abbrev pub without : SessionCache → String → SessionCache
without s p = record s { panes = pop p s.panes; pane_to_terminal = pop p s.pane_to_terminal }

pub new-IsIndexed : IsIndexed new_cache
unfolding get
new-IsIndexed = record {
  seated = λ p t h. ground (arith, h);
  hosting = λ t a h. ground (arith, h);
  keyed = λ t a h. ground (arith, h);
  nameless = refl;
}

-- A terminal that the index leads to, and its agent.
seat_of-some :
    (s : SessionCache) (p t : String)
    → IsIndexed s
    → get p s.pane_to_terminal ≡ some t
    → seat_of s p ≡ get t s.agents
seat_of-some s p t i h =
    let a : (a : AgentInfo) × (get t s.agents ≡ some a) × (a.pane_id ≡ p) = i.seated p t h in
    ground (arith, h, a.1, i.nameless, text_key.eqb_iff t "")

module _ (s : SessionCache) (i : IsIndexed s) where
  module _ (p : String) (a : AgentInfo) (f : IsFree a p (mirror_of s)) (e : a.pane_id ≡ p)
      (n : (a.agent_id == "") ≡ false) where
    -- A pane that leads to the terminal of the agent is the pane of the agent.
    store_agent-same : (q t : String) → get q s.pane_to_terminal ≡ some t → a.agent_id ≡ t → p ≡ q
    store_agent-same q t h k =
        let b : (b : AgentInfo) × (get t s.agents ≡ some b) × (b.pane_id ≡ q) = i.seated q t h in
        f.only q b.0 (seat_of-some s q t i h ∙ b.1) (i.keyed t b.0 b.1 ∙ sym k)

    pub store_agent-seat :
        (q : String) → seat_of (store_agent p a s) q ≡ at p (some a) (seat_of s) q
    store_agent-seat q = elim (Option-cases (get q s.pane_to_terminal)) [
      | inl g ↦ ground (
        arith,
        g,
        n,
        get-put q p a.agent_id s.pane_to_terminal,
        get-put a.agent_id a.agent_id a s.agents,
        text_key.eqb_iff p q,
        text_key.eqb_iff a.agent_id a.agent_id,
      )
      | inr g ↦ ground (
        arith,
        g.1,
        n,
        store_agent-same q g.0 g.1,
        get-put q p a.agent_id s.pane_to_terminal,
        get-put a.agent_id a.agent_id a s.agents,
        get-put g.0 a.agent_id a s.agents,
        text_key.eqb_iff p q,
        text_key.eqb_iff a.agent_id a.agent_id,
        text_key.eqb_iff a.agent_id g.0,
      )
    ]

    store_agent-seated :
        (q t : String)
        → get q (store_agent p a s).pane_to_terminal ≡ some t
        → (b : AgentInfo) × (get t (store_agent p a s).agents ≡ some b) × (b.pane_id ≡ q)
    store_agent-seated q t h = elim (Bool-cases (p == q)) [
      | inl m ↦ (
        a,
        ground (
          arith,
          h,
          m,
          get-put q p a.agent_id s.pane_to_terminal,
          get-put t a.agent_id a s.agents,
          text_key.eqb_iff a.agent_id t,
        ),
        e ∙ (text_key.eqb_iff p q).0 m,
      )
      | inr m ↦
          let g : get q s.pane_to_terminal ≡ some t =
            ground (arith, h, m, get-put q p a.agent_id s.pane_to_terminal) in
          let b : (b : AgentInfo) × (get t s.agents ≡ some b) × (b.pane_id ≡ q) = i.seated q t g in
          (
            b.0,
            ground (
              arith,
              m,
              b.1,
              store_agent-same q t g,
              get-put t a.agent_id a s.agents,
              text_key.eqb_iff a.agent_id t,
              text_key.eqb_iff p q,
            ),
            b.2,
          )
    ]

    -- A pane that holds an agent may only be given the same agent.
    store_agent-alone :
        (t : String) (b : AgentInfo) → get t s.agents ≡ some b → p ≡ b.pane_id → a.agent_id ≡ t
    store_agent-alone t b h k =
        let g : get p s.pane_to_terminal ≡ some t =
          ap (λ q. get q s.pane_to_terminal) k ∙ i.hosting t b h in
        sym (f.alone b (seat_of-some s p t i g ∙ h)) ∙ i.keyed t b h

    pub store_agent-IsIndexed : IsIndexed (store_agent p a s)
    store_agent-IsIndexed = record {
      seated = store_agent-seated;
      hosting = λ t b h. ground (
        arith,
        h,
        e,
        i.hosting t b,
        store_agent-alone t b,
        get-put t a.agent_id a s.agents,
        get-put b.pane_id p a.agent_id s.pane_to_terminal,
        text_key.eqb_iff a.agent_id t,
        text_key.eqb_iff p b.pane_id,
      );
      keyed = λ t b h.
          ground
            (arith, h, i.keyed t b, get-put t a.agent_id a s.agents, text_key.eqb_iff a.agent_id t);
      nameless = ground (arith, i.nameless, n, get-put "" a.agent_id a s.agents);
    }

  -- Two panes do not lead to one terminal.
  pub index-injective :
      (p q t : String)
      → get p s.pane_to_terminal ≡ some t
      → get q s.pane_to_terminal ≡ some t
      → p ≡ q
  index-injective p q t g h =
      let b : (b : AgentInfo) × (get t s.agents ≡ some b) × (b.pane_id ≡ p) = i.seated p t g in
      let c : (c : AgentInfo) × (get t s.agents ≡ some c) × (c.pane_id ≡ q) = i.seated q t h in
      ground (arith, b.1, b.2, c.1, c.2)

  pub index-named : (p t : String) → get p s.pane_to_terminal ≡ some t → filled (some t) ≡ some t
  index-named p t g =
      let b : (b : AgentInfo) × (get t s.agents ≡ some b) × (b.pane_id ≡ p) = i.seated p t g in
      ground (arith, b.1, i.nameless, text_key.eqb_iff t "")
