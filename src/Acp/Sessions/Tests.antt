-- ===== src/Acp/Sessions/Tests.antt =====
-- Interleavings of ensure_session and close_session of acp/actions.py.
use herdr_bridge.Prelude.{◌≡◌, refl, true, some, List, [], ◌∷◌, String}
use herdr_bridge.Tasks.Dict.{get, put, pop}
use herdr_bridge.Acp.Guard.{
  GitResult, worktree, other_line, first_worktree, resolve_primary_worktree, is_in_use,
  check_isolation,
}
use herdr_bridge.Acp.Sessions.{
  Call, empty_world, session_of, Act, ensuring, going_on, popping, dropping, act_all,
}
use herdr_bridge.Acp.Sessions.Isolation.{opencode_sessions_apart}

abbrev here : String → String
here path = path

abbrev listing : String → GitResult
listing workdir = some (true, worktree "/repo" ∷ other_line ∷ worktree "/wt" ∷ [])

abbrev call_a : Call
call_a = record { agent = "opencode"; session_name = "a"; workdir = "/wt" }

abbrev call_b : Call
call_b = record { agent = "opencode"; session_name = "b"; workdir = "/wt" }

abbrev call_c : Call
call_c = record { agent = "opencode"; session_name = "c"; workdir = "/wt" }

-- Two threads ask for the same workdir, and take turns.
abbrev turns : List Act
turns =
    ensuring 0 call_a
    ∷ ensuring 1 call_b
    ∷ going_on 0 true
    ∷ going_on 1 true
    ∷ going_on 0 true
    ∷ going_on 1 true
    ∷ going_on 0 true
    ∷ going_on 1 true
    ∷ going_on 0 true
    ∷ going_on 1 true
    ∷ going_on 0 true
    ∷ going_on 1 true
    ∷ going_on 0 true
    ∷ going_on 1 true
    ∷ going_on 1 true
    ∷ going_on 1 true
    ∷ []

-- The second is refused.
turns_give_one : (act_all here listing turns empty_world).sessions ≡ ("a", session_of call_a) ∷ []
unfolding act_all check_isolation resolve_primary_worktree first_worktree is_in_use get put
turns_give_one = refl

opencode_sessions_apart_example : call_a.session_name ≡ call_a.session_name
unfolding act_all check_isolation resolve_primary_worktree first_worktree is_in_use get put
opencode_sessions_apart_example =
    opencode_sessions_apart here listing turns "a" "a" (session_of call_a) (session_of call_a)
      (
        tt,
        (
          tt,
          (tt, (tt, (tt, (tt, (tt, (tt, (tt, (tt, (tt, (tt, (tt, (tt, (tt, (tt, tt)))))))))))))),
        ),
      )
      refl refl refl refl refl

-- One thread closes a session: the next takes the lock of the workdir before the entry is dropped, a third
-- makes a new lock, and both find the workdir free.
abbrev closing_turns : List Act
closing_turns =
    ensuring 0 call_a
    ∷ going_on 0 true
    ∷ going_on 0 true
    ∷ going_on 0 true
    ∷ going_on 0 true
    ∷ going_on 0 true
    ∷ going_on 0 true
    ∷ popping "a"
    ∷ ensuring 1 call_b
    ∷ going_on 1 true
    ∷ going_on 1 true
    ∷ going_on 1 true
    ∷ going_on 1 true
    ∷ going_on 1 true
    ∷ dropping "/wt"
    ∷ ensuring 2 call_c
    ∷ going_on 2 true
    ∷ going_on 2 true
    ∷ going_on 2 true
    ∷ going_on 2 true
    ∷ going_on 2 true
    ∷ going_on 1 true
    ∷ going_on 2 true
    ∷ []

dropped_lock_shares_workdir :
    (act_all here listing closing_turns empty_world).sessions
    ≡ ("b", session_of call_b) ∷ ("c", session_of call_c) ∷ []
unfolding act_all check_isolation resolve_primary_worktree first_worktree is_in_use get put pop
dropped_lock_shares_workdir = refl
