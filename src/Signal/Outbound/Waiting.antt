-- ===== src/Signal/Outbound/Waiting.antt =====
-- The polling loop of `_wait_for_state`.
use herdr_bridge.Prelude.{
  ℕ, zero, suc, ◌+◌, ◌-◌, ◌*◌, ◌≤◌, ◌<◌, ◌≡◌, Bool, true, false, Option, some, List, String, ltb,
  arith, Bool-cases, inl, inr, ◌⊎◌,
}
use herdr_bridge.Signal.State.{State}
use herdr_bridge.Signal.Store.{Rows, read_state}
use herdr_bridge.Signal.Store.Writes.{IsTable}
use herdr_bridge.Signal.Ack.{state_of}
use herdr_bridge.Signal.Ack.Race.{Progress, Progress-trans, IsDaemon}
use herdr_bridge.Signal.Outbound.{Poll, is_in, wait_for_state, poll_interval}

module _ (polls : ℕ → Poll) (deadline : ℕ) (m : String) (targets : List State) where
  abbrev wait : ℕ → ℕ → Rows → Option (Bool × Rows)
  wait fuel k t = wait_for_state fuel polls k deadline m targets t

  next_near :
      (n k : ℕ)
      → (polls k).clock + poll_interval ≤ (polls (suc k)).clock
      → deadline ≤ (polls k).clock + n * poll_interval
      → ltb (polls k).clock deadline ≡ true
      → deadline ≤ (polls (suc k)).clock + (n - 1) * poll_interval
  next_near zero k gap near early = absurd (ground arith)
  next_near (suc n) k gap near early = grind arith

  -- Each round sleeps for the poll interval, so the loop ends within as many rounds as intervals fit
  -- between the clock and the deadline, and one more.
  pub wait_for_state-ends :
      (fuel n k : ℕ) (t : Rows)
      → ((i : ℕ) → (polls i).clock + poll_interval ≤ (polls (suc i)).clock)
      → deadline ≤ (polls k).clock + n * poll_interval
      → n < fuel
      → (b : Bool) × (t' : Rows) × (wait fuel k t ≡ some (b, t'))
  unfolding wait_for_state
  wait_for_state-ends zero n k t sleeps near lt = absurd (omega arith)
  wait_for_state-ends (suc fuel) n k t sleeps near lt =
      let t' = (polls k).before_read t in
      let found = is_in targets (read_state m t') in
      elim (Bool-cases (ltb (polls k).clock deadline)) [
        | inr late ↦ (found, t', rw late)
        | inl early ↦ elim (Bool-cases found) [
          | inl here ↦ (true, t', rw (early, here))
          | inr not_yet ↦
              let (b, t'', e) =
                wait_for_state-ends fuel (n - 1) (suc k) t' sleeps
                  (next_near n k (sleeps k) near early) (ground arith) in
              (b, t'', rw (early, not_yet) e)
        ]
      ]

  -- The last round, or one more.
  round :
      (fuel k : ℕ) (t : Rows) (b : Bool) (t' : Rows)
      → wait (suc fuel) k t ≡ some (b, t')
      → let x = (polls k).before_read t in
        ((t' ≡ x) × (b ≡ is_in targets (read_state m x)) × (b ≡ false → deadline ≤ (polls k).clock))
        ⊎ (wait fuel (suc k) x ≡ some (b, t'))
  unfolding wait_for_state
  round fuel k t b t' e = ground arith

  -- The verdict is what the last read showed, and a negative one comes only after the deadline.
  pub wait_for_state-verdict :
      (fuel k : ℕ) (t : Rows) (b : Bool) (t' : Rows)
      → wait fuel k t ≡ some (b, t')
      → (b ≡ is_in targets (read_state m t'))
        × (b ≡ false → (j : ℕ) × (k ≤ j) × (deadline ≤ (polls j).clock))
  wait_for_state-verdict zero k t b t' e = absurd (unfold wait_for_state in cc)
  wait_for_state-verdict (suc fuel) k t b t' e = elim (round fuel k t b t' e) [
    | inl (same, verdict, late) ↦ (rw same verdict, λ no_row. (k, omega arith, late no_row))
    | inr rest ↦
        let (v, j) = wait_for_state-verdict fuel (suc k) ((polls k).before_read t) b t' rest in
        (v, λ no_row. let (i, le, past) = j no_row in (i, omega arith, past))
  ]

  -- Where only the daemon touches the row, it has advanced at most.
  pub wait_for_state-Progress :
      ((i : ℕ) → IsDaemon m (polls i).before_read)
      → (fuel k : ℕ) (t : Rows) (b : Bool) (t' : Rows) → IsTable t
      → wait fuel k t ≡ some (b, t')
      → Progress (state_of (read_state m t)) (state_of (read_state m t')) × IsTable t'
  wait_for_state-Progress daemon zero k t b t' h e = absurd (unfold wait_for_state in cc)
  wait_for_state-Progress daemon (suc fuel) k t b t' h e =
      let x = (polls k).before_read t in
      let p = (daemon k).advances t h in
      let h' = (daemon k).keeps t h in
      elim (round fuel k t b t' e) [
        | inl (same, _, _) ↦ rw same (p, h')
        | inr rest ↦
            let (q, h'') = wait_for_state-Progress daemon fuel (suc k) x b t' h' rest in
            (Progress-trans _ _ _ p q, h'')
      ]
