-- ===== src/Signal/Ack/Marks.antt =====
-- The daemon's own marks are what `Race` and `Escalation` allow other processes to do.
use herdr_bridge.Prelude.{◌≡◌, refl, Option, none, some, String, ok, raise, arith, ◌⊎◌, inl, inr}
use herdr_bridge.Signal.State.{State, value_error, validate, injected, completed}
use herdr_bridge.Signal.Store.{Rows, read_state, default_ttl}
use herdr_bridge.Signal.Store.Writes.{IsTable, state-written, write_state-IsTable}
use herdr_bridge.Signal.Ack.Quiet.{IsAtomic, read-landed, write-commit, commit_lem, write-refused}
use herdr_bridge.Signal.Ack.Race.{Progress, IsDaemon}
use herdr_bridge.Signal.Ack.{
  Turn, Update, no_update, state_of, fields, write_signal_state, mark_injected, mark_completed,
}

-- A mark that is refused, or advances the row.
abbrev Advances : Option State → State → Type 0
Advances s new =
    ((validate s new ≡ ok tt) × Progress s (some new)) ⊎ (validate s new ≡ raise value_error)

injected-Advances : (s : Option State) → Advances s injected
unfolding validate
injected-Advances none = ground arith
injected-Advances (some s) = ground arith

completed-Advances : (s : Option State) → Advances s completed
unfolding validate
completed-Advances none = ground arith
completed-Advances (some s) = ground arith

abbrev Moves : String → Rows → Rows → Type 0
Moves m t t' = Progress (state_of (read_state m t)) (state_of (read_state m t')) × IsTable t'

module _ (turn : Turn) (m : String) (a : IsAtomic turn)
    (alone : (t : Rows) → turn.before_check t ≡ t) where
  write-Moves :
      (new : State) (u : Update) (t : Rows)
      → Advances (state_of (read_state m t)) new
      → IsTable t
      → Moves m t (write_signal_state turn m new u t).1
  write-Moves new u t (inl (v, p)) h = rw (write-commit turn m new u t t (alone t) v) (
      rw (commit_lem turn m new u t a h) (
        rw (read-landed turn m new u t h) (
            rw
              (state-written turn.now default_ttl m (fields (read_state m t) new u)
                (read_state m t))
              p),
        write_state-IsTable turn.now default_ttl m (fields (read_state m t) new u) t h,
      ))
  write-Moves new u t (inr v) h =
      rw (write-refused turn m new u t value_error (rw (alone t) v)) (rw (alone t) (inl refl, h))

  -- `mark_injected` by a daemon that is alone in it is such a step.
  pub mark_injected-IsDaemon : IsDaemon m (λ t. (mark_injected turn m t).1)
  unfolding mark_injected
  mark_injected-IsDaemon =
      let u : Update = record no_update { injected_at = some turn.stamp } in
      record {
        advances = λ t h. (write-Moves injected u t (injected-Advances _) h).0;
        keeps = λ t h. (write-Moves injected u t (injected-Advances _) h).1;
      }

  -- So is `mark_completed`.
  pub mark_completed-IsDaemon : IsDaemon m (λ t. (mark_completed turn m t).1)
  unfolding mark_completed
  mark_completed-IsDaemon = record {
    advances = λ t h. (write-Moves completed no_update t (completed-Advances _) h).0;
    keeps = λ t h. (write-Moves completed no_update t (completed-Advances _) h).1;
  }
