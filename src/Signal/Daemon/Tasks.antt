-- ===== src/Signal/Daemon/Tasks.antt =====
-- The batch task and the queue of wakes.
use herdr_bridge.Prelude.{
  ℕ, ◌≡◌, ◌≢◌, refl, Bool, true, false, not, ◌&&◌, ◌||◌, some, List, [], ◌∷◌, ◌++◌, String, ◌==◌,
  text_key, arith,
}
use herdr_bridge.Signal.State.{value_error, daemon_unreachable}
use herdr_bridge.Signal.Envelope.{Envelope}
use herdr_bridge.Signal.Store.{Rows, read_state}
use herdr_bridge.Signal.Ack.{Turn, state_of}
use herdr_bridge.Signal.Daemon.Completion.{mark_batch_stops}
use herdr_bridge.Signal.Daemon.{
  Daemon, Task, finished, sleeping, injecting, enqueue, started, taken, take_batch, finish_batch,
  process_batch, process_fresh, fresh_of, add_all, discard, discard_all, contains, merged_message,
}

started-sleeping : (s : Task) → ((b : List Envelope) → s ≢ injecting b) → started s ≡ sleeping
started-sleeping finished h = refl
started-sleeping sleeping h = refl
started-sleeping (injecting b) h = absurd (h b refl)

taken-append : (es : List Envelope) (e : Envelope) → taken (es ++ e ∷ []) ≡ injecting (es ++ e ∷ [])
taken-append [] e = refl
taken-append (x ∷ es) e = refl

-- A wake that arrives while no batch is being injected is in the batch that the task takes next.
pub enqueue-take_batch :
    (e : Envelope) (d : Daemon)
    → ((b : List Envelope) → d.task ≢ injecting b)
    → ((enqueue e d).task ≡ sleeping)
      × ((take_batch (enqueue e d)).task ≡ injecting (d.pending ++ e ∷ []))
      × ((take_batch (enqueue e d)).pending ≡ [])
unfolding take_batch
enqueue-take_batch e d idle = (started-sleeping d.task idle, taken-append d.pending e, refl)

pending-process_fresh :
    (notified : Bool) (turns : ℕ → Turn) (es : List Envelope) (t : Rows) (d : Daemon)
    → (process_fresh notified turns es t d).daemon.pending ≡ d.pending
unfolding process_fresh
pending-process_fresh notified turns [] t d = refl
pending-process_fresh notified turns (e ∷ es) t d = refl

-- A wake that arrives while a batch is being injected stays in the queue, and when the batch is done
-- no task is left that would take it.
pub enqueue_stranded :
    (e : Envelope) (d : Daemon) (batch : List Envelope) (notified : Bool) (turns : ℕ → Turn)
    (t : Rows)
    → d.task ≡ injecting batch
    → let d' = (finish_batch notified turns t (enqueue e d)).daemon in
      (d'.pending ≡ d.pending ++ e ∷ []) × (d'.task ≡ finished)
unfolding finish_batch
enqueue_stranded e d batch notified turns t busy =
    rw busy (pending-process_fresh notified turns (fresh_of d.processing batch) t _, refl)

fresh_of-nil : (es : List Envelope) → fresh_of [] es ≡ es
unfolding fresh_of
fresh_of-nil [] = refl
fresh_of-nil (e ∷ es) = rw (fresh_of-nil es)

-- If the first wake of a batch is one that its sender has given up as unreachable, the pane is
-- notified of the whole batch and no row of it is marked: the task ends with a ValueError.
pub finish_batch_unmarked :
    (e : Envelope) (es : List Envelope) (turns : ℕ → Turn) (t : Rows) (d : Daemon)
    → d.task ≡ injecting (e ∷ es)
    → d.processing ≡ []
    → (turns 0).before_check t ≡ t
    → state_of (read_state e.message_id t) ≡ some daemon_unreachable
    → let p = finish_batch true turns t d in
      (p.notice ≡ some (merged_message (e ∷ es)))
      × (p.table ≡ t)
      × (p.failure ≡ some value_error)
      × (p.daemon.task ≡ finished)
unfolding finish_batch
finish_batch_unmarked e es turns t d busy free alone gone = rw busy (
    rw free (
      rw (fresh_of-nil (e ∷ es))
        (rw (mark_batch_stops turns 0 e es t alone gone) (refl, refl, refl, refl))))

-- Some wake of the list has the message id.
abbrev has_id : String → List Envelope → Bool
has_id m [] = false
has_id m (e ∷ es) = e.message_id == m || has_id m es

contains-add_all :
    (m : String) (es : List Envelope) (busy : List String)
    → contains m (add_all es busy) ≡ (has_id m es || contains m busy)
unfolding add_all
contains-add_all m [] busy = refl
contains-add_all m (e ∷ es) busy =
    ground (arith, contains-add_all m es busy, text_key.eqb_iff e.message_id m)

contains-discard :
    (m j : String) (busy : List String)
    → contains m (discard j busy) ≡ (not (j == m) && contains m busy)
unfolding discard
contains-discard m j [] = ground arith
contains-discard m j (x ∷ busy) = ground (
  arith,
  contains-discard m j busy,
  text_key.eqb_iff j m,
  text_key.eqb_iff x m,
  text_key.eqb_iff x j,
)

contains-discard_all :
    (m : String) (es : List Envelope) (busy : List String)
    → contains m (discard_all es busy) ≡ (not (has_id m es) && contains m busy)
unfolding discard_all
contains-discard_all m [] busy = ground arith
contains-discard_all m (e ∷ es) busy = ground (
  arith,
  contains-discard_all m es (discard e.message_id busy),
  contains-discard m e.message_id busy,
)

fresh_of-not_busy :
    (m : String) (busy : List String) (es : List Envelope)
    → has_id m (fresh_of busy es) ≡ true
    → contains m busy ≡ false
unfolding fresh_of
fresh_of-not_busy m busy [] h = ground arith
fresh_of-not_busy m busy (e ∷ es) h =
    ground (arith, fresh_of-not_busy m busy es, text_key.eqb_iff e.message_id m)

released :
    (m : String) (fresh : List Envelope) (busy : List String)
    → (has_id m fresh ≡ true → contains m busy ≡ false)
    → contains m (discard_all fresh (add_all fresh busy)) ≡ contains m busy
released m fresh busy h =
    ground (arith, contains-discard_all m fresh (add_all fresh busy), contains-add_all m fresh busy)

process_fresh-processing :
    (m : String) (notified : Bool) (turns : ℕ → Turn) (fresh : List Envelope) (t : Rows)
    (d : Daemon)
    → (has_id m fresh ≡ true → contains m d.processing ≡ false)
    → contains m (process_fresh notified turns fresh t d).daemon.processing
      ≡ contains m d.processing
unfolding process_fresh
process_fresh-processing m notified turns [] t d h = refl
process_fresh-processing m notified turns (e ∷ es) t d h = released m (e ∷ es) d.processing h

-- Whether a batch was injected or not, and also when a mark raised, the set of message ids in work is
-- the same after it as before.
pub process_batch-processing :
    (m : String) (notified : Bool) (turns : ℕ → Turn) (batch : List Envelope) (t : Rows)
    (d : Daemon)
    → contains m (process_batch notified turns batch t d).daemon.processing
      ≡ contains m d.processing
unfolding process_batch
process_batch-processing m notified turns batch t d =
    process_fresh-processing m notified turns (fresh_of d.processing batch) t d
      (fresh_of-not_busy m d.processing batch)
