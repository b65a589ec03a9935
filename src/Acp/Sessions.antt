-- ===== src/Acp/Sessions.antt =====
-- The sessions of acp/actions.py: `ensure_session` and `close_session` by any number of threads. A thread
-- goes through ensure_session in steps, between which the others go on; it holds a lock for the name of
-- the session, and inside it one for its workdir. Locks are objects that two registries hold by key.
pub mod Invariant
pub mod Adding
pub mod Isolation
mod Tests
use herdr_bridge.Prelude.{
  ℕ, Bool, true, false, Option, none, some, List, [], ◌∷◌, String, ◌==◌, text_key, nat_eq,
  if◌then◌else◌, Result, ok, raise,
}
use herdr_bridge.Tasks.Dict.{Dict, get, put, pop}
use herdr_bridge.Acp.Guard.{AcpSessionInfo, GitResult, Refusal, check_isolation}

-- The arguments of ensure_session.
pub record Call : Type 0 where
  pub agent : String
  pub session_name : String
  pub workdir : String

-- Where a thread stands.
pub data Place : Type 0 where
  idle : Place
  -- before the first look at the sessions
  looking : Call → Place
  -- with self._lock_for_session(session_name)
  awaiting_name : Call → Place
  -- before the second look, with the lock of the name
  looking_again : Call → Place
  -- with self._get_workdir_lock(resolved_workdir)
  awaiting_workdir : Call → Place
  -- before _enforce_workdir_isolation, with both locks
  checking : Call → Place
  -- in self._transport.ensure_session, with both locks
  creating : Call → Place

-- The sessions, the thread that holds the current lock of each name and workdir, and the threads.
pub record World : Type 0 where
  pub sessions : Dict AcpSessionInfo
  pub session_locks : String → Option ℕ
  pub workdir_locks : String → Option ℕ
  pub threads : ℕ → Place

abbrev pub empty_world : World
empty_world = record {
  sessions = [];
  session_locks = λ k. none;
  workdir_locks = λ k. none;
  threads = λ i. idle;
}

abbrev pub place : ℕ → Place → (ℕ → Place) → ℕ → Place
place i p threads j = if nat_eq i j then p else threads j

abbrev pub take_lock : ℕ → String → (String → Option ℕ) → String → Option ℕ
take_lock i key locks k = if key == k then some i else locks k

abbrev pub is_held_by : ℕ → Option ℕ → Bool
is_held_by i none = false
is_held_by i (some j) = nat_eq i j

-- A thread frees its own lock; a lock that the registry has dropped is not in it any more.
abbrev pub free_lock : ℕ → String → (String → Option ℕ) → String → Option ℕ
free_lock i key locks k =
    if key == k then if is_held_by i (locks k) then none else locks k else locks k

abbrev pub go : ℕ → Place → World → World
go i p w = record w { threads = place i p w.threads }

abbrev pub leave_name : ℕ → Call → World → World
leave_name i c w = record w {
  session_locks = free_lock i c.session_name w.session_locks;
  threads = place i idle w.threads;
}

abbrev pub look : Place → Place → Option AcpSessionInfo → Place
look found missing none = missing
look found missing (some s) = found

abbrev pub session_of : Call → AcpSessionInfo
session_of c = record { agent = c.agent; workdir = c.workdir; closed = false }

-- What a thread does next. close_session first takes the session out, and drops the lock of its workdir
-- from the registry when the transport has closed it.
pub data Act : Type 0 where
  ensuring : ℕ → Call → Act
  going_on : ℕ → Bool → Act
  popping : String → Act
  dropping : String → Act

module _ (resolve : String → String) (git : String → GitResult) where
  abbrev pub leave_both : ℕ → Call → World → World
  leave_both i c w = record w {
    session_locks = free_lock i c.session_name w.session_locks;
    workdir_locks = free_lock i (resolve c.workdir) w.workdir_locks;
    threads = place i idle w.threads;
  }

  abbrev pub enter_name : ℕ → Call → Option ℕ → World → World
  enter_name i c none w = record w {
    session_locks = take_lock i c.session_name w.session_locks;
    threads = place i (looking_again c) w.threads;
  }
  enter_name i c (some j) w = w

  abbrev pub enter_workdir : ℕ → Call → Option ℕ → World → World
  enter_workdir i c none w = record w {
    workdir_locks = take_lock i (resolve c.workdir) w.workdir_locks;
    threads = place i (checking c) w.threads;
  }
  enter_workdir i c (some j) w = w

  abbrev pub look_again : ℕ → Call → Option AcpSessionInfo → World → World
  look_again i c none w = go i (awaiting_workdir c) w
  look_again i c (some s) w = leave_name i c w

  abbrev pub enforce : ℕ → Call → Result Refusal (Unit {0}) → World → World
  enforce i c (ok u) w = go i (creating c) w
  enforce i c (raise e) w = leave_both i c w

  -- The transport returns the session, or raises.
  abbrev pub register : ℕ → Call → Bool → World → World
  register i c true w =
      leave_both i c (record w { sessions = put c.session_name (session_of c) w.sessions })
  register i c false w = leave_both i c w

  -- The next step of a thread in ensure_session; it waits for a lock that another holds.
  abbrev pub step : ℕ → Bool → Place → World → World
  step i created idle w = w
  step i created (looking c) w =
      go i (look idle (awaiting_name c) (get c.session_name w.sessions)) w
  step i created (awaiting_name c) w = enter_name i c (w.session_locks c.session_name) w
  step i created (looking_again c) w = look_again i c (get c.session_name w.sessions) w
  step i created (awaiting_workdir c) w = enter_workdir i c (w.workdir_locks (resolve c.workdir)) w
  step i created (checking c) w =
      enforce i c (check_isolation resolve git c.agent c.workdir w.sessions) w
  step i created (creating c) w = register i c created w

  abbrev pub begin : ℕ → Call → Place → World → World
  begin i c idle w = go i (looking c) w
  begin i c busy w = w

  abbrev pub act : Act → World → World
  act (ensuring i c) w = begin i c (w.threads i) w
  act (going_on i created) w = step i created (w.threads i) w
  act (popping name) w = record w { sessions = pop name w.sessions }
  act (dropping dir) w = record w {
    workdir_locks = λ k. if dir == k then none else w.workdir_locks k;
  }

  unfoldable pub act_all : List Act → World → World
  act_all [] w = w
  act_all (a ∷ l) w = act_all l (act a w)
