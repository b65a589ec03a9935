-- ===== src/Acp/Guard.antt =====
-- acp/workdir_guard.py: an opencode session runs in a worktree of its own. `Path.resolve` and the output of
-- `git worktree list --porcelain` are parameters.
use herdr_bridge.Prelude.{
  Bool, true, false, not, ◌&&◌, ◌≡◌, ◌≢◌, Option, none, some, List, [], ◌∷◌, String, ◌==◌, text_key,
  if◌then◌else◌, Result, ok, raise, arith,
}
use herdr_bridge.Tasks.Dict.{Dict, get}

-- AcpSessionInfo, as far as the guard and the registry read it
pub record AcpSessionInfo : Type 0 where
  pub agent : String
  pub workdir : String
  pub closed : Bool

-- A line of the listing: "worktree " and a path, or another line.
pub data GitLine : Type 0 where
  worktree : String → GitLine
  other_line : GitLine

-- None if git cannot be run; else whether it exits with 0, and its lines.
abbrev pub GitResult : Type 0
GitResult = Option (Bool × List GitLine)

-- Why a session is refused: no primary worktree is found, or the workdir is it, or is in use.
pub data Refusal : Type 0 where
  undetermined : Refusal
  is_primary : Refusal
  is_shared : Refusal

module _ (resolve : String → String) (git : String → GitResult) where
  unfoldable pub first_worktree : List GitLine → Option String
  first_worktree [] = none
  first_worktree (worktree path ∷ l) = some (resolve path)
  first_worktree (other_line ∷ l) = first_worktree l

  abbrev pub primary_of : GitResult → Option String
  primary_of none = none
  primary_of (some (false, l)) = none
  primary_of (some (true, l)) = first_worktree l

  -- resolve_primary_worktree: none for AcpSessionError
  unfoldable pub resolve_primary_worktree : String → Option String
  resolve_primary_worktree workdir = primary_of (git workdir)

  -- The loop over active_workdirs, which are those of the sessions that are not closed.
  unfoldable pub is_in_use : String → Dict AcpSessionInfo → Bool
  is_in_use dir [] = false
  is_in_use dir ((name, s) ∷ l) =
      let later = is_in_use dir l in
      if not s.closed && (resolve s.workdir == dir) then true else later

  abbrev pub check_primary :
      String → Dict AcpSessionInfo → Option String → Result Refusal (Unit {0})
  check_primary dir sessions none = raise undetermined
  check_primary dir sessions (some primary) =
      if dir == primary
      then raise is_primary
      else if is_in_use dir sessions
      then raise is_shared
      else ok tt

  -- check_opencode_workdir_isolation
  unfoldable pub check_isolation : String → String → Dict AcpSessionInfo → Result Refusal (Unit {0})
  check_isolation agent workdir sessions =
      if agent == "opencode"
      then check_primary (resolve workdir) sessions (resolve_primary_worktree (resolve workdir))
      else ok tt

  is_in_use-false :
      (dir : String) (d : Dict AcpSessionInfo) (n : String) (s : AcpSessionInfo)
      → is_in_use dir d ≡ false
      → get n d ≡ some s
      → s.closed ≡ false
      → resolve s.workdir ≢ dir
  unfolding is_in_use get
  is_in_use-false dir [] n s u g c = ground (arith, g)
  is_in_use-false dir ((k, t) ∷ d) n s u g c = ground (
    arith,
    u,
    g,
    c,
    is_in_use-false dir d n s,
    text_key.eqb_iff (resolve s.workdir) dir,
    text_key.eqb_iff (resolve t.workdir) dir,
  )

  check_primary-ok :
      (dir : String) (d : Dict AcpSessionInfo) (o : Option String)
      → check_primary dir d o ≡ ok tt
      → is_in_use dir d ≡ false
  check_primary-ok dir d none u = ground (arith, u)
  check_primary-ok dir d (some primary) u = ground (arith, u)

  -- An opencode session that is let through has a workdir that no active session uses.
  pub check_isolation-ok :
      (workdir : String) (d : Dict AcpSessionInfo) (n : String) (s : AcpSessionInfo)
      → check_isolation "opencode" workdir d ≡ ok tt
      → get n d ≡ some s
      → s.closed ≡ false
      → resolve s.workdir ≢ resolve workdir
  unfolding check_isolation
  check_isolation-ok workdir d n s u g c =
      is_in_use-false (resolve workdir) d n s
        (check_primary-ok (resolve workdir) d (resolve_primary_worktree (resolve workdir)) u) g c
