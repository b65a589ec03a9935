-- ===== src/Delivery/Machine/Updates.antt =====
-- `update_delivery_state` on every branch, where no other process touches the store meanwhile.
use mathlib.Core.Path.{subst}
use herdr_bridge.Prelude.{
  Bool, Option, none, arith, [], ◌∷◌, ◌≡◌, refl, sym, true, false, some, triple_key, Result, ok,
  raise, if◌then◌else◌, Bool-cases, inl, inr, ◌⊎◌,
}
use herdr_bridge.Delivery.State.{
  State, init, dispatch_pending, dispatch_failed, await_pong, pong_received, side_report_received,
  timeout, failed, completed, degraded, other, same_iff, member, validate, Error, value_error,
  memory_error,
}
use herdr_bridge.Delivery.Store.{
  Row, Rows, IsTable, default_ttl, write_state, read_state, written, state-written, read-write_self,
}
use herdr_bridge.Delivery.Machine.{
  is_finished, Turn, Update, Reply, stored, duplicate_blocked, Memory, rejected, raises, state_of,
  is_duplicate, has_summary, summarise, conclude, store, advance, update_delivery_state,
}

pub record IsQuiet (turn : Turn) : Type 0 where
  pub reads_alone : (t : Rows) → turn.before_read t ≡ t
  pub writes_alone : (t : Rows) → turn.before_write t ≡ t
  pub verifies_alone : (t : Rows) → turn.before_verify t ≡ t

abbrev terminal_answer : State → Memory → Result Error Reply
terminal_answer new Memory.stored = ok (stored new false)
terminal_answer new rejected = ok (stored new true)
terminal_answer new raises = raise memory_error

-- What the caller is told once the state has been written: a completion, a degradation and a failed
-- dispatch depend on the memory layer.
abbrev pub told : State → Memory → Result Error Reply
told completed memory = terminal_answer completed memory
told degraded memory = terminal_answer degraded memory
told dispatch_failed memory = terminal_answer dispatch_failed memory
told new memory = ok (stored new false)

abbrev pub is_closed : State → Bool
is_closed completed = true
is_closed degraded = true
is_closed _ = false

abbrev pub is_report : State → Bool
is_report pong_received = true
is_report side_report_received = true
is_report completed = true
is_report _ = false

-- Each state with those that it follows.
abbrev pub may_follow : State → Option State → Bool
may_follow init none = true
may_follow init (some dispatch_failed) = true
may_follow init (some timeout) = true
may_follow init (some failed) = true
may_follow dispatch_pending (some init) = true
may_follow dispatch_failed (some init) = true
may_follow dispatch_failed (some dispatch_pending) = true
may_follow await_pong (some dispatch_pending) = true
may_follow pong_received (some await_pong) = true
may_follow side_report_received (some await_pong) = true
may_follow timeout (some dispatch_pending) = true
may_follow timeout (some await_pong) = true
may_follow failed (some dispatch_failed) = true
may_follow failed (some await_pong) = true
may_follow failed (some timeout) = true
may_follow completed (some pong_received) = true
may_follow completed (some side_report_received) = true
may_follow degraded (some side_report_received) = true
may_follow _ _ = false

abbrev pub landed : Turn → Update → Rows → Rows
landed turn u t = write_state turn.now default_ttl u.key u.new_state u.context u.correlation t

-- The three branches: a duplicate report, a refused transition, a write.
abbrev pub Branches : Turn → Update → Rows → Result Error Reply × Rows → Type 0
Branches turn u t result =
    let current = state_of (read_state u.key t) in
    ((s : State) × (current ≡ some s)
      × (is_closed s ≡ true)
      × (is_report u.new_state ≡ true)
      × (result ≡ (ok (duplicate_blocked s u.new_state), t)))
    ⊎ ((may_follow u.new_state current ≡ false) × (result ≡ (raise value_error, t)))
    ⊎ ((may_follow u.new_state current ≡ true)
        × (result ≡ (told u.new_state turn.memory, landed turn u t)))

pub validate_lem :
    (current : Option State) (new : State)
    → validate current new ≡ (if may_follow new current then ok tt else raise value_error)
unfolding validate
validate_lem current init = ground arith
validate_lem current dispatch_pending = ground arith
validate_lem current dispatch_failed = ground arith
validate_lem current await_pong = ground arith
validate_lem current pong_received = ground arith
validate_lem current side_report_received = ground arith
validate_lem current timeout = ground arith
validate_lem current failed = ground arith
validate_lem current completed = ground arith
validate_lem current degraded = ground arith
validate_lem current (other s) = ground arith

-- Nothing follows a closed state.
pub follows_no_closed :
    (current : Option State) (new : State)
    → may_follow new current ≡ true
    → is_duplicate current new ≡ false
follows_no_closed none new h = refl
follows_no_closed (some completed) new h = absurd (ground (arith, h))
follows_no_closed (some degraded) new h = absurd (ground (arith, h))
follows_no_closed (some s) new h = ground arith

duplicate_parts :
    (current : Option State) (new : State)
    → is_duplicate current new ≡ true
    → (s : State) × (current ≡ some s) × (is_closed s ≡ true) × (is_report new ≡ true)
duplicate_parts none new h = absurd (ground (arith, h))
duplicate_parts (some s) new h =
    (s, refl, finished s (ground (arith, h)), is_report_of new (ground (arith, h)))
  where
    finished : (s : State) → is_finished (some s) ≡ true → is_closed s ≡ true
    finished completed h = refl
    finished degraded h = refl
    finished (other x) h = absurd (ground (arith, h))
    finished _ h = absurd (ground (arith, h))

    is_report_of :
        (new : State)
        → member new (pong_received ∷ completed ∷ side_report_received ∷ []) ≡ true
        → is_report new ≡ true
    is_report_of pong_received h = refl
    is_report_of completed h = refl
    is_report_of side_report_received h = refl
    is_report_of (other x) h = absurd (ground (arith, h))
    is_report_of _ h = absurd (ground (arith, h))

told_lem :
    (new : State) (memory : Memory)
    → (if has_summary new then summarise new memory else ok (stored new false)) ≡ told new memory
told_lem completed stored = refl
told_lem completed rejected = refl
told_lem completed raises = refl
told_lem degraded stored = refl
told_lem degraded rejected = refl
told_lem degraded raises = refl
told_lem dispatch_failed stored = refl
told_lem dispatch_failed rejected = refl
told_lem dispatch_failed raises = refl
told_lem _ memory = refl

conclude_row :
    (new : State) (memory : Memory) (r : Row)
    → r.state ≡ new
    → conclude new memory (some r) ≡ told new memory
conclude_row new memory r e = rw e (rw ((same_iff new new).1 refl) (told_lem new memory))

store_lem :
    (turn : Turn) (u : Update) (t : Rows)
    → IsQuiet turn
    → IsTable t
    → store turn u t ≡ (told u.new_state turn.memory, landed turn u t)
unfolding store
store_lem turn u t q h =
    let old = read_state u.key t in
    rw (q.writes_alone t) (
      rw (q.verifies_alone (landed turn u t)) (
        rw (read-write_self turn.now default_ttl u.key u.new_state u.context u.correlation t h) (
          rw (
            conclude_row u.new_state turn.memory
              (written turn.now default_ttl u.key u.new_state u.context u.correlation old)
              (state-written turn.now default_ttl u.key u.new_state u.context u.correlation old)))))

advance-Branches :
    (turn : Turn) (u : Update) (t : Rows)
    → IsQuiet turn
    → IsTable t
    → Branches turn u t (advance turn u (state_of (read_state u.key t)) t)
unfolding advance
advance-Branches turn u t q h =
    let current = state_of (read_state u.key t) in
    let v = validate_lem current u.new_state in
    elim (Bool-cases (is_duplicate current u.new_state)) [
      | inl dup ↦
          let (s, at, closed, report) = duplicate_parts current u.new_state dup in
          inl (s, at, closed, report, rw dup (rw at))
      | inr new ↦ elim (Bool-cases (may_follow u.new_state current)) [
        | inl m ↦ inr (inr (m, rw new (rw (v, m, advance) (store_lem turn u t q h))))
        | inr m ↦ inr (inl (m, rw new (rw (v, m, advance))))
      ]
    ]

pub update_delivery_state-Branches :
    (turn : Turn) (u : Update) (t : Rows)
    → IsQuiet turn
    → IsTable t
    → Branches turn u t (update_delivery_state turn u t)
unfolding update_delivery_state
update_delivery_state-Branches turn u t q h =
    subst (λ t'. Branches turn u t (advance turn u (state_of (read_state u.key t')) t'))
      (sym (q.reads_alone t)) (advance-Branches turn u t q h)
