-- ===== src/Signal/Ack/Race.antt =====
-- The daemon advances the row of a message while the sender marks it.
use herdr_bridge.Prelude.{
  ℕ, ◌≤◌, ◌<◌, ◌≡◌, Bool, true, false, Option, none, some, String, ok, arith, if◌then◌else◌, ◌⊎◌,
}
use mathlib.Core.Path.{subst}
use herdr_bridge.Signal.State.{
  State, injected, completed, accepted, other, accepted_for_work, injection_unconfirmed,
}
use herdr_bridge.Signal.Store.{Rows, read_state}
use herdr_bridge.Signal.Store.Writes.{IsTable}
use herdr_bridge.Signal.Ack.Quiet.{IsAtomic, landed, landed_row}
use herdr_bridge.Signal.Ack.{Turn, Update, Reply, state_of, accepted_target, retry}

abbrev can_inject : Option State → Bool
can_inject none = true
can_inject (some accepted) = true
can_inject (some injection_unconfirmed) = true
can_inject _ = false

abbrev can_complete : Option State → Bool
can_complete (some injected) = true
can_complete (some accepted_for_work) = true
can_complete s = can_inject s

-- What the daemon makes of a row: nothing, `mark_injected`, `mark_completed`, or both marks.
abbrev pub Progress : Option State → Option State → Type 0
Progress a b =
    (a ≡ b)
    ⊎ ((can_inject a ≡ true) × (b ≡ some injected))
    ⊎ ((can_complete a ≡ true) × (b ≡ some completed))

-- How many more marks of the daemon the row can take.
abbrev pub rank : Option State → ℕ
rank s = if can_inject s then 2 else if can_complete s then 1 else 0

abbrev pub has_known : Option State → Bool
has_known (some (other s)) = false
has_known _ = true

pub rank-le : (a b : Option State) → Progress a b → rank b ≤ rank a
rank-le none b p = ground arith
rank-le (some s) b p = ground arith

pub Progress-trans : (a b c : Option State) → Progress a b → Progress b c → Progress a c
Progress-trans a b c p q = ground arith

pub Progress-known : (a b : Option State) → Progress a b → has_known a ≡ true → has_known b ≡ true
Progress-known a b p k = ground arith

-- Other processes do no more than the daemon does, and the table keeps its primary key.
pub record IsDaemon (m : String) (g : Rows → Rows) : Type 0 where
  pub advances :
      (t : Rows) → IsTable t → Progress (state_of (read_state m t)) (state_of (read_state m (g t)))
  pub keeps : (t : Rows) → IsTable t → IsTable (g t)

-- A pass whose gaps before the check belong to the daemon.
pub record IsFair (m : String) (turn : Turn) : Type 0 where
  pub atomic : IsAtomic turn
  pub reading : IsDaemon m turn.before_read
  pub checking : IsDaemon m turn.before_check

-- The call returned in one of its passes: `before` is the table as the daemon had left it when the
-- transition was checked, and the table after the call is that one with the row written.
pub record Returns (m : String) (target : Option State → State) (update : Turn → Update)
    (turns : ℕ → Turn) (start : Rows) (reply : Reply) : Type 0 where
  pub pass : ℕ
  pub before : Rows
  pub reached : Progress (state_of (read_state m start)) (state_of (read_state m before))
  pub table : IsTable before
  pub result :
      let turn = turns pass in
      let new = target (state_of (read_state m before)) in
      reply
      ≡ (ok (landed_row turn m new (update turn) before), landed turn m new (update turn) before)

module _ (m : String) (target : Option State → State) (update : Turn → Update)
    (turns : ℕ → Turn) where
  pub Returns-back :
      (s t : Rows) (reply : Reply)
      → Progress (state_of (read_state m s)) (state_of (read_state m t))
      → Returns m target update turns t reply
      → Returns m target update turns s reply
  Returns-back s t reply p r = record {
    pass = r.pass;
    before = r.before;
    reached = Progress-trans _ _ _ p r.reached;
    table = r.table;
    result = r.result;
  }

  pub Returns-retry :
      (t : Rows) (reply : Reply) (again : Rows → Reply)
      → Returns m target update turns t reply
      → Returns m target update turns t (retry reply again)
  Returns-retry t reply again r =
      let same_reply : reply ≡ retry reply again = rw r.result in
      subst (Returns m target update turns t) same_reply r

module _ (m : String) (u : Update) (turns : ℕ → Turn) (fair : (i : ℕ) → IsFair m (turns i)) where
  abbrev stamped : Turn → Update
  stamped turn = record u { accepted_at = some turn.stamp }

  abbrev Accepts : Rows → Reply → Type 0
  Accepts = Returns m accepted_target stamped turns

pub rank-lt : (s : Option State) → rank s < 3
rank-lt s = ground arith

-- What an accepted message stands in: the state that the row has reached, or "accepted".
abbrev pub reached_state : Option State → State
reached_state (some s) = s
reached_state none = accepted
