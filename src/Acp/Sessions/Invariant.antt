-- ===== src/Acp/Sessions/Invariant.antt =====
-- What holds of the locks, the threads and the sessions of acp/actions.py between any two steps.
use herdr_bridge.Prelude.{
  ℕ, ◌≡◌, ◌≢◌, refl, sym, ap, ◌∙◌, Bool, true, false, not, Option, none, some, String, ◌==◌,
  text_key, nat_eq, nat_eq_iff, ◌&&◌, if◌then◌else◌, ok, arith,
}
use mathlib.Core.Path.{subst}
use herdr_bridge.Tasks.Dict.{get}
use herdr_bridge.Acp.Guard.{AcpSessionInfo, GitResult, check_isolation, check_isolation-ok}
use herdr_bridge.Acp.Sessions.{
  Call, Place, idle, looking, awaiting_name, looking_again, awaiting_workdir, checking, creating,
  World, place, take_lock, go,
}

-- The call of a thread that holds the lock of a workdir.
abbrev pub locking : Place → Option Call
locking (checking c) = some c
locking (creating c) = some c
locking other = none

-- The call of a thread whose workdir has been checked.
abbrev pub cleared : Place → Option Call
cleared (creating c) = some c
cleared other = none

abbrev pub is_opencode : AcpSessionInfo → Bool
is_opencode s = (s.agent == "opencode") && not s.closed

uncleared : (p : Place) → locking p ≡ none → cleared p ≡ none
uncleared idle h = refl
uncleared (looking c) h = refl
uncleared (awaiting_name c) h = refl
uncleared (looking_again c) h = refl
uncleared (awaiting_workdir c) h = refl
uncleared (checking c) h = refl
uncleared (creating c) h = ground (arith, h)

pub cleared-locking : (p : Place) (c : Call) → cleared p ≡ some c → locking p ≡ some c
cleared-locking idle c h = ground (arith, h)
cleared-locking (looking d) c h = ground (arith, h)
cleared-locking (awaiting_name d) c h = ground (arith, h)
cleared-locking (looking_again d) c h = ground (arith, h)
cleared-locking (awaiting_workdir d) c h = ground (arith, h)
cleared-locking (checking d) c h = ground (arith, h)
cleared-locking (creating d) c h = h

-- A thread of which something is said that is not said of the new place is another thread.
pub another :
    (g : Place → Option Call) (i j : ℕ) (p q : Place) (c : Call) (b : Bool)
    → nat_eq i j ≡ b
    → g p ≡ none
    → g (if b then p else q) ≡ some c
    → (nat_eq i j ≡ false) × (g q ≡ some c)
another g i j p q c true e n h = ground (arith, n, h)
another g i j p q c false e n h = (e, h)

module _ (resolve : String → String) (git : String → GitResult) where
  pub record IsIsolated (w : World) : Type 0 where
    pub held :
        (i : ℕ) (c : Call)
        → locking (w.threads i) ≡ some c
        → w.workdir_locks (resolve c.workdir) ≡ some i
    pub clear :
        (i : ℕ) (c : Call)
        → cleared (w.threads i) ≡ some c
        → c.agent ≡ "opencode"
        → (n : String) (s : AcpSessionInfo) → get n w.sessions ≡ some s
        → s.closed ≡ false
        → resolve s.workdir ≢ resolve c.workdir
    pub apart :
        (m n : String) (s t : AcpSessionInfo)
        → get m w.sessions ≡ some s
        → get n w.sessions ≡ some t
        → is_opencode s ≡ true
        → is_opencode t ≡ true
        → resolve s.workdir ≡ resolve t.workdir
        → m ≡ n

  module _ (w : World) (h : IsIsolated w) (i : ℕ) where
    -- A thread goes where it holds no workdir, frees nothing that others hold, and adds no session.
    pub leaving :
        (p : Place)
        → locking p ≡ none
        → (locks names : String → Option ℕ)
        → ((k : String) (j : ℕ)
            → nat_eq i j ≡ false
            → w.workdir_locks k ≡ some j
            → locks k ≡ some j)
        → IsIsolated (record w {
          session_locks = names;
          workdir_locks = locks;
          threads = place i p w.threads;
        })
    leaving p n locks names f = record {
      held = λ j c e.
          let u : (nat_eq i j ≡ false) × (locking (w.threads j) ≡ some c) =
            another locking i j p (w.threads j) c (nat_eq i j) refl n e in
          f (resolve c.workdir) j u.0 (h.held j c u.1);
      clear = λ j c e.
          let u : (nat_eq i j ≡ false) × (cleared (w.threads j) ≡ some c) =
            another cleared i j p (w.threads j) c (nat_eq i j) refl (uncleared p n) e in
          h.clear j c u.1;
      apart = h.apart;
    }

    taken_held :
        (c : Call)
        → w.workdir_locks (resolve c.workdir) ≡ none
        → (j : ℕ) (d : Call) (b : Bool) → nat_eq i j ≡ b
        → locking (if b then checking c else w.threads j) ≡ some d
        → take_lock i (resolve c.workdir) w.workdir_locks (resolve d.workdir) ≡ some j
    taken_held c n j d true e u =
        let k : resolve c.workdir ≡ resolve d.workdir =
          ap (λ o. elim o [ none ↦ resolve c.workdir | some x ↦ resolve x.workdir ]) u in
        ground
          (arith, k, text_key.eqb_iff (resolve c.workdir) (resolve d.workdir), (nat_eq_iff i j).0 e)
    taken_held c n j d false e u =
        let l : w.workdir_locks (resolve d.workdir) ≡ some j = h.held j d u in
        let k : resolve c.workdir ≡ resolve d.workdir → w.workdir_locks (resolve d.workdir) ≡ none =
          λ q. sym (ap w.workdir_locks q) ∙ n in
        ground (arith, l, k, text_key.eqb_iff (resolve c.workdir) (resolve d.workdir))

    clearing_held :
        (c : Call)
        → w.threads i ≡ checking c
        → (j : ℕ) (d : Call) (b : Bool) → nat_eq i j ≡ b
        → locking (if b then creating c else w.threads j) ≡ some d
        → w.workdir_locks (resolve d.workdir) ≡ some j
    clearing_held c e j d true k u =
        h.held j d (ap (λ x. locking (w.threads x)) (sym ((nat_eq_iff i j).0 k)) ∙ ap locking e ∙ u)
    clearing_held c e j d false k u = h.held j d u

    clearing_clear :
        (c : Call)
        → check_isolation resolve git c.agent c.workdir w.sessions ≡ ok tt
        → (j : ℕ) (d : Call) (b : Bool) → cleared (if b then creating c else w.threads j) ≡ some d
        → d.agent ≡ "opencode"
        → (m : String) (s : AcpSessionInfo) → get m w.sessions ≡ some s
        → s.closed ≡ false
        → resolve s.workdir ≢ resolve d.workdir
    clearing_clear c k j d true u o m s g l q =
        let a : c.agent ≡ d.agent = ap (λ x. elim x [ none ↦ c.agent | some y ↦ y.agent ]) u in
        let r : resolve c.workdir ≡ resolve d.workdir =
          ap (λ x. elim x [ none ↦ resolve c.workdir | some y ↦ resolve y.workdir ]) u in
        let v : check_isolation resolve git "opencode" c.workdir w.sessions ≡ ok tt =
          subst (λ x. check_isolation resolve git x c.workdir w.sessions ≡ ok tt) (a ∙ o) k in
        check_isolation-ok resolve git c.workdir w.sessions m s v g l (q ∙ sym r)
    clearing_clear c k j d false u o m s g l q = h.clear j d u o m s g l q

    -- A thread takes a workdir that is free.
    pub taking :
        (c : Call)
        → w.workdir_locks (resolve c.workdir) ≡ none
        → IsIsolated (record w {
          workdir_locks = take_lock i (resolve c.workdir) w.workdir_locks;
          threads = place i (checking c) w.threads;
        })
    taking c n = record {
      held = λ j d e. taken_held c n j d (nat_eq i j) refl e;
      clear = λ j d e.
          h.clear j d (another cleared i j (checking c) (w.threads j) d (nat_eq i j) refl refl e).1;
      apart = h.apart;
    }

    -- A thread has checked its workdir.
    pub clearing :
        (c : Call)
        → w.threads i ≡ checking c
        → check_isolation resolve git c.agent c.workdir w.sessions ≡ ok tt
        → IsIsolated (go i (creating c) w)
    clearing c e k = record {
      held = λ j d u. clearing_held c e j d (nat_eq i j) refl u;
      clear = λ j d u o m s. clearing_clear c k j d (nat_eq i j) u o m s;
      apart = h.apart;
    }
