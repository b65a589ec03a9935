-- ===== src/Signal/Ack/Quiet.antt =====
-- `_write_signal_state` where nobody else touches the row between its check and its read-back.
use mathlib.Core.Path.{subst}
use herdr_bridge.Prelude.{◌≡◌, refl, true, some, String, ok, raise}
use herdr_bridge.Signal.State.{State, Error, same, same_iff, validate}
use herdr_bridge.Signal.Store.{Row, Rows, write_state, read_state, default_ttl}
use herdr_bridge.Signal.Store.Writes.{IsTable, written, state-written, read-write_self}
use herdr_bridge.Signal.Ack.{Turn, Update, state_of, fields, verified, commit, write_signal_state}

-- From the check to the read-back the attempt is alone.
pub record IsAtomic (turn : Turn) : Type 0 where
  pub writes_alone : (t : Rows) → turn.before_write t ≡ t
  pub verifies_alone : (t : Rows) → turn.before_verify t ≡ t

-- The table that a validated write leaves.
abbrev pub landed : Turn → String → State → Update → Rows → Rows
landed turn m new u t = write_state turn.now default_ttl m (fields (read_state m t) new u) t

-- The row that it returns.
abbrev pub landed_row : Turn → String → State → Update → Rows → Row
landed_row turn m new u t =
    let old = read_state m t in written turn.now default_ttl m (fields old new u) old

same_self : (s : State) → same s s ≡ true
same_self s = (same_iff s s).1 refl

pub read-landed :
    (turn : Turn) (m : String) (new : State) (u : Update) (t : Rows)
    → IsTable t
    → read_state m (landed turn m new u t) ≡ some (landed_row turn m new u t)
read-landed turn m new u t h =
    read-write_self turn.now default_ttl m (fields (read_state m t) new u) t h

pub verified_row : (new : State) (r : Row) → r.state ≡ new → verified new (some r) ≡ ok r
verified_row new r e = rw e (rw (same_self new))

pub commit_lem :
    (turn : Turn) (m : String) (new : State) (u : Update) (t : Rows)
    → IsAtomic turn
    → IsTable t
    → commit turn m new u (read_state m t) t
      ≡ (ok (landed_row turn m new u t), landed turn m new u t)
unfolding commit
commit_lem turn m new u t a h = rw (a.writes_alone t) (
    rw (a.verifies_alone (landed turn m new u t)) (
      rw (read-landed turn m new u t h) (
        rw (
          verified_row new (landed_row turn m new u t) (
            state-written turn.now default_ttl m (fields (read_state m t) new u)
              (read_state m t))))))

commit_at :
    (turn : Turn) (m : String) (new : State) (u : Update) (t : Rows)
    → let t' = turn.before_check t in
      validate (state_of (read_state m t')) new ≡ ok tt
      → write_signal_state turn m new u t ≡ commit turn m new u (read_state m t') t'
unfolding write_signal_state
commit_at turn m new u t v = rw (v, write_signal_state)

pub write-commit :
    (turn : Turn) (m : String) (new : State) (u : Update) (t t' : Rows)
    → turn.before_check t ≡ t'
    → validate (state_of (read_state m t')) new ≡ ok tt
    → write_signal_state turn m new u t ≡ commit turn m new u (read_state m t') t'
write-commit turn m new u t t' e v =
    subst
      (λ x.
        validate (state_of (read_state m x)) new ≡ ok tt
        → write_signal_state turn m new u t ≡ commit turn m new u (read_state m x) x)
      e (commit_at turn m new u t) v

-- A transition that the table of transitions allows is written and read back.
pub write-allowed :
    (turn : Turn) (m : String) (new : State) (u : Update) (t : Rows)
    → IsAtomic turn
    → IsTable (turn.before_check t)
    → validate (state_of (read_state m (turn.before_check t))) new ≡ ok tt
    → write_signal_state turn m new u t ≡ (
      ok (landed_row turn m new u (turn.before_check t)),
      landed turn m new u (turn.before_check t),
    )
write-allowed turn m new u t a h v =
    rw (commit_at turn m new u t v) (commit_lem turn m new u (turn.before_check t) a h)

-- Any other raises ValueError, and the table stays as it was found.
pub write-refused :
    (turn : Turn) (m : String) (new : State) (u : Update) (t : Rows) (e : Error)
    → validate (state_of (read_state m (turn.before_check t))) new ≡ raise e
    → write_signal_state turn m new u t ≡ (raise e, turn.before_check t)
unfolding write_signal_state
write-refused turn m new u t e v = rw (v, write_signal_state)
