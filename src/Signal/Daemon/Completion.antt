-- ===== src/Signal/Daemon/Completion.antt =====
-- The loop of `_process_batch` that marks the wakes of a batch.
use mathlib.Core.Path.{subst}
use herdr_bridge.Prelude.{
  ℕ, ◌+◌, ◌≡◌, refl, sym, false, Option, none, some, List, [], ◌∷◌, String, ◌==◌, text_key, arith,
  All, All-map, All-zip,
}
use herdr_bridge.Signal.State.{
  Error, value_error, validate, injected, completed, daemon_unreachable,
}
use herdr_bridge.Signal.Envelope.{Envelope}
use herdr_bridge.Signal.Store.{Rows, read_state}
use herdr_bridge.Signal.Store.Writes.{IsTable}
use herdr_bridge.Signal.Ack.Quiet.{write-refused}
use herdr_bridge.Signal.Ack.{Turn, Update, no_update, state_of, mark_injected, mark_completed}
use herdr_bridge.Signal.Daemon.{then_mark, mark_batch}
use herdr_bridge.Signal.Daemon.Batch.{
  IsIdle, IsOpen, IsDone, mark-Wrote, Marked, Wrote-IsOpen, Wrote-IsDone, open_validates,
  injected_validates,
}

-- The messages of the batch differ.
abbrev pub IsDistinct : List Envelope → Type 0
IsDistinct [] = Unit
IsDistinct (e ∷ es) = All (λ x. (e.message_id == x.message_id) ≡ false) es × IsDistinct es

-- The loop raised nothing, every wake of the batch is done, and so is every other that was.
abbrev pub Completes : ℕ → List Envelope → Rows → Option Error × Rows → Type 0
Completes last es t (failure, t') =
    (failure ≡ none)
    × All (λ e. IsDone last t' e.message_id) es
    × ((j : String)
        → All (λ e. (e.message_id == j) ≡ false) es
        → IsDone last t j
        → IsDone last t' j)

differ_sym : (a b : String) → (a == b) ≡ false → (b == a) ≡ false
differ_sym a b h = ground (arith, text_key.eqb_iff a b, text_key.eqb_iff b a)

module _ (last : ℕ) (turns : ℕ → Turn) (idle : (i : ℕ) → IsIdle last (turns i)) where
  wake-Marked :
      (k : ℕ) (m : String) (t : Rows) (next : Rows → Option Error × Rows)
      → IsTable t
      → IsOpen t m
      → (t' : Rows) × (then_mark
            (mark_injected (turns k) m t)
            (λ x. then_mark (mark_completed (turns (k + 1)) m x) next)
          ≡ next t')
        × Marked last m t t'
  unfolding mark_injected mark_completed
  wake-Marked k m t next h open_row =
      let (r1, t1, e1, w1) =
        mark-Wrote last (turns k) m injected
          (record no_update { injected_at = some (turns k).stamp }) t (idle k) h
          (open_validates (state_of (read_state m t)) open_row) in
      let (r2, t2, e2, w2) =
        mark-Wrote last (turns (k + 1)) m completed no_update t1 (idle (k + 1)) w1.table
          (rw w1.found (injected_validates w1.row w1.state)) in
      (
        t2,
        rw e1 (rw e2),
        record {
          table = w2.table;
          done = (w2.row, w2.found, w2.state, w2.lasting);
          keeps_open = λ j other o.
              Wrote-IsOpen last m completed t1 t2 w2 j other
                (Wrote-IsOpen last m injected t t1 w1 j other o);
          keeps_done = λ j other o.
              Wrote-IsDone last m completed t1 t2 w2 j other
                (Wrote-IsDone last m injected t t1 w1 j other o);
        },
      )

  -- Where the daemon is alone, the messages of the batch differ, every one of them still waits for its marks,
  -- and the marks come at most a day before the time `last`, the loop raises nothing. At `last` every
  -- message of the batch is completed and not expired, and so is every other that was both before and
  -- whose row lives beyond `last`.
  pub mark_batch-IsDone :
      (k : ℕ) (es : List Envelope) (t : Rows)
      → IsTable t
      → IsDistinct es
      → All (λ e. IsOpen t e.message_id) es
      → Completes last es t (mark_batch turns k es t)
  unfolding mark_batch
  mark_batch-IsDone k [] t h distinct waiting = (refl, tt, λ j other d. d)
  mark_batch-IsDone k (e ∷ es) t h distinct waiting =
      let (t', step, marked) =
        wake-Marked k e.message_id t (mark_batch turns (k + 2) es) h waiting.0 in
      let still : All (λ x. IsOpen t' x.message_id) es =
        All-zip es (λ x other o. marked.keeps_open x.message_id other o) distinct.0 waiting.1 in
      let (fine, done, keeps) = mark_batch-IsDone (k + 2) es t' marked.table distinct.1 still in
      let own =
        keeps e.message_id (All-map es (λ x. differ_sym e.message_id x.message_id) distinct.0)
          marked.done in
      subst (Completes last (e ∷ es) t) (sym step)
        (fine, (own, done), λ j others d. keeps j others.1 (marked.keeps_done j others.0 d))

-- A wake that the sender has given up as unreachable stops the loop: its mark is refused, and no
-- wake behind it is marked.
pub mark_batch_stops :
    (turns : ℕ → Turn) (k : ℕ) (e : Envelope) (es : List Envelope) (t : Rows)
    → (turns k).before_check t ≡ t
    → state_of (read_state e.message_id t) ≡ some daemon_unreachable
    → mark_batch turns k (e ∷ es) t ≡ (some value_error, t)
unfolding mark_batch mark_injected validate
mark_batch_stops turns k e es t alone gone =
    let u : Update = record no_update { injected_at = some (turns k).stamp } in
    let refused =
      write-refused (turns k) e.message_id injected u t value_error (rw alone (rw gone)) in
    rw refused (rw alone)
