-- ===== src/Signal/Daemon/Batch.antt =====
-- The ACK rows of the wakes of one batch, once the pane was notified.
use herdr_bridge.Prelude.{
  ℕ, ◌+◌, ◌≤◌, ◌≡◌, refl, ap, ◌∙◌, Bool, true, false, Option, none, some, String, ◌==◌, text_key,
  arith, ok,
}
use herdr_bridge.Table.{kept}
use herdr_bridge.Signal.State.{
  State, validate, accepted, injected, completed, injection_unconfirmed,
}
use herdr_bridge.Signal.Store.{Row, Rows, read_state, default_ttl, row_expiry}
use herdr_bridge.Signal.Store.Writes.{
  IsTable, written, state-written, read-write, write_state-IsTable,
}
use herdr_bridge.Signal.Ack.Quiet.{
  IsAtomic, landed, landed_row, read-landed, write-commit, commit_lem,
}
use herdr_bridge.Signal.Ack.{Turn, Update, state_of, fields, write_signal_state}

-- Nobody else writes in this call, and its clock is within one TTL of the time `last`.
pub record IsIdle (last : ℕ) (turn : Turn) : Type 0 where
  pub atomic : IsAtomic turn
  pub checks_alone : (t : Rows) → turn.before_check t ≡ t
  pub not_after : turn.now ≤ last
  pub not_long_before : last ≤ turn.now + default_ttl

-- The row of the message can be marked as injected and has not been completed.
abbrev pub can_be_injected : Option State → Bool
can_be_injected none = true
can_be_injected (some accepted) = true
can_be_injected (some injected) = true
can_be_injected (some injection_unconfirmed) = true
can_be_injected _ = false

abbrev pub IsOpen : Rows → String → Type 0
IsOpen t m = can_be_injected (state_of (read_state m t)) ≡ true

-- The row of the message is completed, and does not expire before `last`.
abbrev pub IsDone : ℕ → Rows → String → Type 0
IsDone last t m =
    (r : Row) × (read_state m t ≡ some r) × (r.state ≡ completed) × (last ≤ r.expires_at)

-- A write of the row of `m` that leaves it in state `new`.
pub record Wrote (last : ℕ) (m : String) (new : State) (t t' : Rows) : Type 0 where
  pub table : IsTable t'
  pub row : Row
  pub found : read_state m t' ≡ some row
  pub state : row.state ≡ new
  pub lasting : last ≤ row.expires_at
  pub now : ℕ
  pub not_after : now ≤ last
  pub others :
      (k : String) → (m == k) ≡ false → read_state k t' ≡ kept row_expiry now (read_state k t)

written-expires :
    (turn : Turn) (m : String) (new : State) (u : Update) (old : Option Row)
    → (written turn.now default_ttl m (fields old new u) old).expires_at ≡ turn.now + default_ttl
written-expires turn m new u none = refl
written-expires turn m new u (some r) = refl

landed-Wrote :
    (last : ℕ) (turn : Turn) (m : String) (new : State) (u : Update) (t : Rows)
    → IsIdle last turn
    → IsTable t
    → Wrote last m new t (landed turn m new u t)
landed-Wrote last turn m new u t idle h =
    let old = read_state m t in
    let f = fields old new u in
    record {
      table = write_state-IsTable turn.now default_ttl m f t h;
      row = written turn.now default_ttl m f old;
      found = read-landed turn m new u t h;
      state = state-written turn.now default_ttl m f old;
      lasting = omega (arith, idle.not_long_before, written-expires turn m new u old);
      now = turn.now;
      not_after = idle.not_after;
      others = λ k other. read-write turn.now default_ttl m k f t h ∙ rw other;
    }

-- A legal mark in an idle turn.
pub mark-Wrote :
    (last : ℕ) (turn : Turn) (m : String) (new : State) (u : Update) (t : Rows)
    → IsIdle last turn
    → IsTable t
    → validate (state_of (read_state m t)) new ≡ ok tt
    → (r : Row) × (t' : Rows) × (write_signal_state turn m new u t ≡ (ok r, t'))
      × Wrote last m new t t'
mark-Wrote last turn m new u t idle h v = (
  landed_row turn m new u t,
  landed turn m new u t,
  write-commit turn m new u t t (idle.checks_alone t) v ∙ commit_lem turn m new u t idle.atomic h,
  landed-Wrote last turn m new u t idle h,
)

pub open_validates : (s : Option State) → can_be_injected s ≡ true → validate s injected ≡ ok tt
unfolding validate
open_validates s h = ground arith

pub injected_validates :
    (r : Row) → r.state ≡ injected → validate (state_of (some r)) completed ≡ ok tt
unfolding validate
injected_validates r h = ground arith

-- Both marks of one wake: its row is done, and any other row is kept or has expired.
pub record Marked (last : ℕ) (m : String) (t t' : Rows) : Type 0 where
  pub table : IsTable t'
  pub done : IsDone last t' m
  pub keeps_open : (k : String) → (m == k) ≡ false → IsOpen t k → IsOpen t' k
  pub keeps_done : (k : String) → (m == k) ≡ false → IsDone last t k → IsDone last t' k

kept-open :
    (now : ℕ) (o : Option Row)
    → can_be_injected (state_of o) ≡ true
    → can_be_injected (state_of (kept row_expiry now o)) ≡ true
kept-open now none h = refl
kept-open now (some r) h = ground arith

kept-done :
    (last now : ℕ) (r : Row)
    → now ≤ last
    → last ≤ r.expires_at
    → kept row_expiry now (some r) ≡ some r
kept-done last now r h k = ground arith

module _ (last : ℕ) (m : String) (new : State) (t t' : Rows) (w : Wrote last m new t t')
    (k : String) (other : (m == k) ≡ false) where
  pub Wrote-IsOpen : IsOpen t k → IsOpen t' k
  Wrote-IsOpen h = rw (w.others k other) (kept-open w.now (read_state k t) h)

  pub Wrote-IsDone : IsDone last t k → IsDone last t' k
  Wrote-IsDone (r, found, s, lasting) = (
    r,
    w.others k other
        ∙ ap (kept row_expiry w.now) found
        ∙ kept-done last w.now r w.not_after lasting,
    s,
    lasting,
  )
