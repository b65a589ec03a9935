-- ===== src/Acp/Sessions/Isolation.antt =====
-- Two opencode sessions of acp/actions.py never share a workdir.
use herdr_bridge.Prelude.{
  ℕ, ◌≡◌, refl, Bool, true, false, Option, none, some, List, [], ◌∷◌, String, text_key, nat_eq,
  Result, ok, raise, arith, All,
}
use herdr_bridge.Tasks.Dict.{get, pop, get-pop}
use herdr_bridge.Acp.Guard.{AcpSessionInfo, GitResult, Refusal, check_isolation}
use herdr_bridge.Acp.Sessions.{
  Call, Place, idle, looking, awaiting_name, looking_again, awaiting_workdir, checking, creating,
  World, empty_world, take_lock, free_lock, look, leave_both, enter_name, enter_workdir, look_again,
  enforce, register, step, Act, ensuring, going_on, popping, dropping, begin, act, act_all,
}
use herdr_bridge.Acp.Sessions.Adding.{adding}
use herdr_bridge.Acp.Sessions.Invariant.{
  locking, is_opencode, IsIsolated, leaving, taking, clearing,
}

module _ (resolve : String → String) (git : String → GitResult) where
  module _ (w : World) (h : IsIsolated resolve git w) (i : ℕ) where
    freed :
        (key k : String) (j : ℕ)
        → nat_eq i j ≡ false
        → w.workdir_locks k ≡ some j
        → free_lock i key w.workdir_locks k ≡ some j
    freed key k j n e = ground (arith, n, e)

    kept :
        (k : String) (j : ℕ)
        → nat_eq i j ≡ false
        → w.workdir_locks k ≡ some j
        → w.workdir_locks k ≡ some j
    kept k j n e = e

    looked : (c : Call) (o : Option AcpSessionInfo) → locking (look idle (awaiting_name c) o) ≡ none
    looked c none = refl
    looked c (some s) = refl

    enter_name-IsIsolated :
        (c : Call) (o : Option ℕ) → IsIsolated resolve git (enter_name resolve git i c o w)
    enter_name-IsIsolated c none =
        leaving resolve git w h i (looking_again c) refl w.workdir_locks
          (take_lock i c.session_name w.session_locks) kept
    enter_name-IsIsolated c (some j) = h

    look_again-IsIsolated :
        (c : Call) (o : Option AcpSessionInfo)
        → IsIsolated resolve git (look_again resolve git i c o w)
    look_again-IsIsolated c none =
        leaving resolve git w h i (awaiting_workdir c) refl w.workdir_locks w.session_locks kept
    look_again-IsIsolated c (some s) =
        leaving resolve git w h i idle refl w.workdir_locks
          (free_lock i c.session_name w.session_locks) kept

    enter_workdir-IsIsolated :
        (c : Call) (o : Option ℕ)
        → w.workdir_locks (resolve c.workdir) ≡ o
        → IsIsolated resolve git (enter_workdir resolve git i c o w)
    enter_workdir-IsIsolated c none e = taking resolve git w h i c e
    enter_workdir-IsIsolated c (some j) e = h

    leave_both-IsIsolated : (c : Call) → IsIsolated resolve git (leave_both resolve git i c w)
    leave_both-IsIsolated c =
        leaving resolve git w h i idle refl (free_lock i (resolve c.workdir) w.workdir_locks)
          (free_lock i c.session_name w.session_locks) (freed (resolve c.workdir))

    enforce-IsIsolated :
        (c : Call)
        → w.threads i ≡ checking c
        → (r : Result Refusal (Unit {0}))
        → check_isolation resolve git c.agent c.workdir w.sessions ≡ r
        → IsIsolated resolve git (enforce resolve git i c r w)
    enforce-IsIsolated c e (ok u) k = clearing resolve git w h i c e k
    enforce-IsIsolated c e (raise x) k = leave_both-IsIsolated c

    register-IsIsolated :
        (c : Call)
        → w.threads i ≡ creating c
        → (created : Bool) → IsIsolated resolve git (register resolve git i c created w)
    register-IsIsolated c e true =
        adding resolve git w h i c e (free_lock i (resolve c.workdir) w.workdir_locks)
          (free_lock i c.session_name w.session_locks) (freed (resolve c.workdir))
    register-IsIsolated c e false = leave_both-IsIsolated c

    step-IsIsolated :
        (created : Bool) (p : Place)
        → w.threads i ≡ p
        → IsIsolated resolve git (step resolve git i created p w)
    step-IsIsolated created idle e = h
    step-IsIsolated created (looking c) e =
        leaving resolve git w h i (look idle (awaiting_name c) (get c.session_name w.sessions))
          (looked c (get c.session_name w.sessions)) w.workdir_locks w.session_locks kept
    step-IsIsolated created (awaiting_name c) e =
        enter_name-IsIsolated c (w.session_locks c.session_name)
    step-IsIsolated created (looking_again c) e =
        look_again-IsIsolated c (get c.session_name w.sessions)
    step-IsIsolated created (awaiting_workdir c) e =
        enter_workdir-IsIsolated c (w.workdir_locks (resolve c.workdir)) refl
    step-IsIsolated created (checking c) e =
        enforce-IsIsolated c e (check_isolation resolve git c.agent c.workdir w.sessions) refl
    step-IsIsolated created (creating c) e = register-IsIsolated c e created

    begin-IsIsolated : (c : Call) (p : Place) → IsIsolated resolve git (begin resolve git i c p w)
    begin-IsIsolated c idle =
        leaving resolve git w h i (looking c) refl w.workdir_locks w.session_locks kept
    begin-IsIsolated c (looking d) = h
    begin-IsIsolated c (awaiting_name d) = h
    begin-IsIsolated c (looking_again d) = h
    begin-IsIsolated c (awaiting_workdir d) = h
    begin-IsIsolated c (checking d) = h
    begin-IsIsolated c (creating d) = h

  popping-IsIsolated :
      (w : World) (h : IsIsolated resolve git w) (name : String)
      → IsIsolated resolve git (record w { sessions = pop name w.sessions })
  popping-IsIsolated w h name = record {
    held = h.held;
    clear = λ i c e o n s g. h.clear i c e o n s (ground (arith, g, get-pop n name w.sessions));
    apart = λ m n s t g k.
        h.apart m n s t (ground (arith, g, get-pop m name w.sessions))
          (ground (arith, k, get-pop n name w.sessions));
  }

  -- The lock of a workdir stays in the registry.
  abbrev pub KeepsLocks : Act → Type 0
  KeepsLocks (dropping dir) = ⊥
  KeepsLocks other = Unit

  act-IsIsolated :
      (a : Act) (w : World)
      → IsIsolated resolve git w
      → KeepsLocks a
      → IsIsolated resolve git (act resolve git a w)
  act-IsIsolated (ensuring i c) w h k = begin-IsIsolated w h i c (w.threads i)
  act-IsIsolated (going_on i created) w h k = step-IsIsolated w h i created (w.threads i) refl
  act-IsIsolated (popping name) w h k = popping-IsIsolated w h name
  act-IsIsolated (dropping dir) w h k = elim k [ ]

  act_all-IsIsolated :
      (l : List Act) (w : World)
      → IsIsolated resolve git w
      → All KeepsLocks l
      → IsIsolated resolve git (act_all resolve git l w)
  unfolding act_all
  act_all-IsIsolated [] w h k = h
  act_all-IsIsolated (a ∷ l) w h k =
      act_all-IsIsolated l (act resolve git a w) (act-IsIsolated a w h k.0) k.1

  empty-IsIsolated : IsIsolated resolve git empty_world
  unfolding get
  empty-IsIsolated = record {
    held = λ i c e. ground (arith, e);
    clear = λ i c e o n s g. ground (arith, g);
    apart = λ m n s t g. ground (arith, g);
  }

  -- However many threads ensure and close sessions, in whatever order their steps are taken, two open
  -- opencode sessions with the same workdir are the same session, as long as no lock of a workdir is
  -- dropped from the registry.
  pub opencode_sessions_apart :
      (l : List Act) (m n : String) (s t : AcpSessionInfo)
      → All KeepsLocks l
      → get m (act_all resolve git l empty_world).sessions ≡ some s
      → get n (act_all resolve git l empty_world).sessions ≡ some t
      → is_opencode s ≡ true
      → is_opencode t ≡ true
      → resolve s.workdir ≡ resolve t.workdir
      → m ≡ n
  opencode_sessions_apart l m n s t k =
      (act_all-IsIsolated l empty_world empty-IsIsolated k).apart m n s t
