-- ===== src/Acp/Sessions/Adding.antt =====
-- A thread of acp/actions.py that enters its session leaves the others isolated.
use herdr_bridge.Prelude.{
  ℕ, ◌≡◌, ◌≢◌, refl, sym, ap, ◌∙◌, Bool, true, false, Option, none, some, String, ◌==◌, text_key,
  nat_eq, nat_eq_iff, arith,
}
use herdr_bridge.Tasks.Dict.{get, put, get-put}
use herdr_bridge.Acp.Guard.{AcpSessionInfo, GitResult}
use herdr_bridge.Acp.Sessions.{Call, idle, creating, World, place, session_of}
use herdr_bridge.Acp.Sessions.Invariant.{
  locking, cleared, is_opencode, cleared-locking, another, IsIsolated,
}

module _ (resolve : String → String) (git : String → GitResult) where
  module _ (w : World) (h : IsIsolated resolve git w) (i : ℕ) where
    -- What is found under the name of a new session.
    stored :
        (c : Call) (m : String) (s : AcpSessionInfo)
        → (c.session_name == m) ≡ true
        → get m (put c.session_name (session_of c) w.sessions) ≡ some s
        → (c.agent ≡ s.agent) × (resolve c.workdir ≡ resolve s.workdir)
    stored c m s e g =
        let v : some (session_of c) ≡ some s =
          ground (arith, e, g, get-put m c.session_name (session_of c) w.sessions) in
        (
          ap (λ x. elim x [ none ↦ c.agent | some y ↦ y.agent ]) v,
          ap (λ x. elim x [ none ↦ resolve c.workdir | some y ↦ resolve y.workdir ]) v,
        )

    -- A session that was there does not have the workdir of a new opencode session.
    adding_other :
        (c : Call)
        → w.threads i ≡ creating c
        → (m n : String) (s t : AcpSessionInfo) → (c.session_name == m) ≡ true
        → (c.session_name == n) ≡ false
        → get m (put c.session_name (session_of c) w.sessions) ≡ some s
        → get n (put c.session_name (session_of c) w.sessions) ≡ some t
        → is_opencode s ≡ true
        → is_opencode t ≡ true
        → resolve t.workdir ≢ resolve s.workdir
    adding_other c e m n s t x y g k a b q =
        let v : (c.agent ≡ s.agent) × (resolve c.workdir ≡ resolve s.workdir) = stored c m s x g in
        let o : c.agent ≡ "opencode" =
          v.0 ∙ (text_key.eqb_iff s.agent "opencode").0 (ground (arith, a)) in
        h.clear i c (ap cleared e) o n t
          (ground (arith, k, y, get-put n c.session_name (session_of c) w.sessions))
          (ground (arith, b)) (q ∙ sym v.1)

    adding_clear :
        (c : Call)
        → w.threads i ≡ creating c
        → (j : ℕ) (d : Call) → nat_eq i j ≡ false
        → cleared (w.threads j) ≡ some d
        → d.agent ≡ "opencode"
        → (m : String) (s : AcpSessionInfo) (b : Bool) → (c.session_name == m) ≡ b
        → get m (put c.session_name (session_of c) w.sessions) ≡ some s
        → s.closed ≡ false
        → resolve s.workdir ≢ resolve d.workdir
    adding_clear c e j d v u o m s true k g l q =
        let r : resolve c.workdir ≡ resolve s.workdir = (stored c m s k g).1 in
        let x : w.workdir_locks (resolve c.workdir) ≡ some i = h.held i c (ap locking e) in
        let y : w.workdir_locks (resolve d.workdir) ≡ some j =
          h.held j d (cleared-locking (w.threads j) d u) in
        let z : some i ≡ some j = sym x ∙ ap w.workdir_locks (r ∙ q) ∙ y in
        ground (arith, z, v, nat_eq_iff i j)
    adding_clear c e j d v u o m s false k g l q =
        h.clear j d u o m s
          (ground (arith, g, k, get-put m c.session_name (session_of c) w.sessions)) l q

    adding_apart :
        (c : Call)
        → w.threads i ≡ creating c
        → (m n : String) (s t : AcpSessionInfo) (b d : Bool) → (c.session_name == m) ≡ b
        → (c.session_name == n) ≡ d
        → get m (put c.session_name (session_of c) w.sessions) ≡ some s
        → get n (put c.session_name (session_of c) w.sessions) ≡ some t
        → is_opencode s ≡ true
        → is_opencode t ≡ true
        → resolve s.workdir ≡ resolve t.workdir
        → m ≡ n
    adding_apart c e m n s t true true x y g k a b q =
        sym ((text_key.eqb_iff c.session_name m).0 x) ∙ (text_key.eqb_iff c.session_name n).0 y
    adding_apart c e m n s t false false x y g k a b q =
        h.apart m n s t (ground (arith, g, x, get-put m c.session_name (session_of c) w.sessions))
          (ground (arith, k, y, get-put n c.session_name (session_of c) w.sessions)) a b q
    adding_apart c e m n s t true false x y g k a b q =
        elim (adding_other c e m n s t x y g k a b (sym q)) [ ]
    adding_apart c e m n s t false true x y g k a b q =
        elim (adding_other c e n m t s y x k g b a q) [ ]

    -- A thread enters its session, and leaves.
    pub adding :
        (c : Call)
        → w.threads i ≡ creating c
        → (locks names : String → Option ℕ)
        → ((k : String) (j : ℕ)
            → nat_eq i j ≡ false
            → w.workdir_locks k ≡ some j
            → locks k ≡ some j)
        → IsIsolated resolve git (record w {
          sessions = put c.session_name (session_of c) w.sessions;
          session_locks = names;
          workdir_locks = locks;
          threads = place i idle w.threads;
        })
    adding c e locks names f = record {
      held = λ j d u.
          let v : (nat_eq i j ≡ false) × (locking (w.threads j) ≡ some d) =
            another locking i j idle (w.threads j) d (nat_eq i j) refl refl u in
          f (resolve d.workdir) j v.0 (h.held j d v.1);
      clear = λ j d u o m s g k.
          let v : (nat_eq i j ≡ false) × (cleared (w.threads j) ≡ some d) =
            another cleared i j idle (w.threads j) d (nat_eq i j) refl refl u in
          adding_clear c e j d v.0 v.1 o m s (c.session_name == m) refl g k;
      apart = λ m n s t g k a b q.
          adding_apart c e m n s t (c.session_name == m) (c.session_name == n) refl refl g k a b q;
    }
