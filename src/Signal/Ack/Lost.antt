-- ===== src/Signal/Ack/Lost.antt =====
-- The gap that the retries of `mark_accepted` leave open: the row advances after the transition has
-- been checked and before it is written.
use herdr_bridge.Prelude.{ℕ, ◌≡◌, ◌∙◌, Bool, true, false, Option, none, some, String, ok, arith}
use herdr_bridge.Signal.State.{State, validate, completed, accepted}
use herdr_bridge.Signal.Store.{Row, Rows, read_state, write_state, default_ttl}
use herdr_bridge.Signal.Store.Writes.{IsTable, written, state-written, read-write_self}
use herdr_bridge.Signal.Ack.Quiet.{verified_row, write-commit}
use herdr_bridge.Signal.Ack.{
  Turn, Update, state_of, fields, commit, attempts, accepted_attempt, mark_accepted, named,
  accepted_target,
}

-- Nobody touches the table `t` in this pass but in the gap before the write.
pub record WritesInto (turn : Turn) (t t' : Rows) : Type 0 where
  pub reads : turn.before_read t ≡ t
  pub checks : turn.before_check t ≡ t
  pub writes : turn.before_write t ≡ t'
  pub verifies : (x : Rows) → turn.before_verify x ≡ x

commit-interfered :
    (turn : Turn) (m : String) (new : State) (u : Update) (current : Option Row) (t t' : Rows)
    → WritesInto turn t t'
    → IsTable t'
    → let f = fields current new u in
      commit turn m new u current t ≡ (
        ok (written turn.now default_ttl m f (read_state m t')),
        write_state turn.now default_ttl m f t',
      )
unfolding commit
commit-interfered turn m new u current t t' w h =
    let f = fields current new u in
    let row = written turn.now default_ttl m f (read_state m t') in
    rw w.writes (
      rw (w.verifies (write_state turn.now default_ttl m f t')) (
        rw (read-write_self turn.now default_ttl m f t' h)
          (rw (verified_row new row (state-written turn.now default_ttl m f (read_state m t'))))))

-- The row stands where "accepted" is written as "accepted".
abbrev pub is_early : Option State → Bool
is_early none = true
is_early (some accepted) = true
is_early _ = false

early_target :
    (s : Option State)
    → is_early s ≡ true
    → (accepted_target s ≡ accepted) × (validate s accepted ≡ ok tt)
unfolding validate
early_target s e = ground arith

write-interfered :
    (turn : Turn) (m : String) (u : Update) (t t' : Rows)
    → WritesInto turn t t'
    → IsTable t'
    → is_early (state_of (read_state m t)) ≡ true
    → accepted_attempt turn m u t ≡ (
        let f = fields (read_state m t) accepted (record u { accepted_at = some turn.stamp }) in
        (
          ok (written turn.now default_ttl m f (read_state m t')),
          write_state turn.now default_ttl m f t',
        ))
unfolding accepted_attempt
write-interfered turn m u t t' w h early =
    let (to_accepted, valid) = early_target _ early in
    let u' : Update = record u { accepted_at = some turn.stamp } in
    rw w.reads (
      rw to_accepted (
        write-commit turn m accepted u' t t w.checks valid
        ∙ commit-interfered turn m accepted u' (read_state m t) t t' w h))

-- If the row stood before "accepted" or in it when `mark_accepted` checked its transition, and the
-- daemon completed it before the write, then the call returns without an error, and the row stands
-- in "accepted": the completion is lost.
pub mark_accepted_loses_completed :
    (turns : ℕ → Turn) (m from_project to_project inbox_ref : String) (t t' : Rows)
    → WritesInto (turns 2) t t'
    → IsTable t'
    → is_early (state_of (read_state m t)) ≡ true
    → state_of (read_state m t') ≡ some completed
    → (row : Row) × ((mark_accepted turns m from_project to_project inbox_ref t).0 ≡ ok row)
      × (read_state m (mark_accepted turns m from_project to_project inbox_ref t).1 ≡ some row)
      × (row.state ≡ accepted)
unfolding mark_accepted attempts
mark_accepted_loses_completed turns m from_project to_project inbox_ref t t' w h early done =
    let u = named from_project to_project inbox_ref in
    let turn = turns 2 in
    let f = fields (read_state m t) accepted (record u { accepted_at = some turn.stamp }) in
    let e = write-interfered turn m u t t' w h early in
    (
      written turn.now default_ttl m f (read_state m t'),
      rw e,
      rw e (read-write_self turn.now default_ttl m f t' h),
      state-written turn.now default_ttl m f (read_state m t'),
    )
