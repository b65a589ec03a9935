-- ===== src/Signal/Daemon.antt =====
-- signal/daemon.py: the resident process of a tower that takes wake packets from its socket and
-- notifies its own pane. The socket, the clock and the `notify-pane` subprocess are arguments.
pub mod Nonces
pub mod Replay
pub mod Connection
pub mod Batch
pub mod Completion
pub mod Tasks
use herdr_bridge.Prelude.{
  ℕ, zero, suc, ◌+◌, ◌*◌, Bool, true, false, not, ◌&&◌, ◌||◌, Option, none, some, List, [], ◌∷◌,
  ◌++◌, String, ◌==◌, text_key, Result, ok, raise, ltb, if◌then◌else◌, length, arith,
}
use herdr_bridge.Signal.Envelope.{Envelope, Crypto, verify, default_ttl}
use herdr_bridge.Signal.State.{Error, value_error, signal_state_write_failed}
use herdr_bridge.Signal.Store.{Row, Rows}
use herdr_bridge.Signal.Ack.{
  Turn, Reply, mark_injected, mark_completed, find_active_signal_by_target,
}

-- `_nonce_seen`: when each nonce expires.
abbrev pub Nonces : Type 0
Nonces = List (String × ℕ)

-- NONCE_CACHE_TTL_SECONDS
abbrev pub nonce_ttl : ℕ
nonce_ttl = 60 * 1000

-- _MAX_LINE_BYTES
abbrev pub max_line_bytes : ℕ
max_line_bytes = 64 * 1024

-- The `del` of the expired entries.
unfoldable pub forget_expired : ℕ → Nonces → Nonces
forget_expired now [] = []
forget_expired now ((n, exp) ∷ s) =
    let rest = forget_expired now s in if ltb exp now then rest else (n, exp) ∷ rest

-- nonce in _nonce_seen
unfoldable pub has_seen : String → Nonces → Bool
has_seen n [] = false
has_seen n ((k, exp) ∷ s) = k == n || has_seen n s

-- _check_and_record_nonce
unfoldable pub check_and_record_nonce : ℕ → String → Nonces → Bool × Nonces
check_and_record_nonce now n s =
    let live = forget_expired now s in
    if has_seen n live then (false, live) else (true, live ++ (n, now + nonce_ttl) ∷ [])

-- `_batch_task`, the coroutine `_run_batch_after_delay`: there is none or it is done, it sleeps
-- through the merge window, or it works on the batch that it took.
pub data Task : Type 0 where
  finished : Task
  sleeping : Task
  injecting : List Envelope → Task

-- The fields of `SignalDaemon` that change.
pub record Daemon : Type 0 where
  pub nonce_seen : Nonces
  pub pending : List Envelope
  pub task : Task
  pub processing : List String

-- What `readline` gave: nothing (end of file), or a line of so many bytes, with the packet that
-- `Envelope.from_json` makes of it, if it makes one.
pub data Line : Type 0 where
  end_of_file : Line
  line : ℕ → Option Envelope → Line

-- What stays the same for a daemon.
pub record Config : Type 0 where
  pub crypto : Crypto
  pub shared_secret : String
  pub own_hostname : String

-- The reply to the sender is the "accepted" line with a message id, or none.
pub record Handled : Type 0 where
  pub daemon : Daemon
  pub reply : Option String

abbrev pub drop : Daemon → Handled
drop d = record { daemon = d; reply = none }

-- `active is not None and active["message_id"] != envelope.message_id`
abbrev pub is_duplicate : Envelope → Option Row → Bool
is_duplicate e none = false
is_duplicate e (some r) = not (r.message_id == e.message_id)

-- A batch task is started where there is none or the last one is done.
abbrev pub started : Task → Task
started finished = sleeping
started task = task

-- `_pending.append`, and the start of a batch task.
abbrev pub enqueue : Envelope → Daemon → Daemon
enqueue e d = record d { pending = d.pending ++ e ∷ []; task = started d.task }

-- From the reply on: the packet is new and genuine.
unfoldable pub accept : ℕ → Envelope → Rows → Daemon → Handled
accept now e t d =
    if is_duplicate e (find_active_signal_by_target now e.to_project e.inbox_ref none t)
    then record { daemon = d; reply = some e.message_id }
    else record { daemon = enqueue e d; reply = some e.message_id }

-- From the nonce check on.
unfoldable pub check_nonce : ℕ → Envelope → Rows → Daemon → Handled
unfolding accept
check_nonce now e t d =
    let (fresh, seen) = check_and_record_nonce now e.nonce d.nonce_seen in
    let d' : Daemon = record d { nonce_seen = seen } in if fresh then accept now e t d' else drop d'

-- The host check, which stands before the check of the signature.
unfoldable pub check_envelope : Config → ℕ → Envelope → Rows → Daemon → Handled
unfolding check_nonce
check_envelope c now e t d =
    if e.sender_hostname == c.own_hostname
    then elim (verify c.crypto e c.shared_secret now default_ttl) [
      | ok _ ↦ check_nonce now e t d
      | raise _ ↦ drop d
    ]
    else drop d

-- handle_connection
unfoldable pub handle_connection : Config → ℕ → Line → Rows → Daemon → Handled
unfolding check_envelope
handle_connection c now end_of_file t d = drop d
handle_connection c now (line bytes none) t d = drop d
handle_connection c now (line bytes (some e)) t d =
    if ltb max_line_bytes bytes then drop d else check_envelope c now e t d

-- message_id not in _processing
abbrev pub contains : String → List String → Bool
contains m [] = false
contains m (x ∷ xs) = x == m || contains m xs

unfoldable pub fresh_of : List String → List Envelope → List Envelope
fresh_of busy [] = []
fresh_of busy (e ∷ es) =
    let rest = fresh_of busy es in if contains e.message_id busy then rest else e ∷ rest

-- set.add, set.discard
unfoldable pub add_all : List Envelope → List String → List String
add_all [] busy = busy
add_all (e ∷ es) busy =
    let rest = add_all es busy in if contains e.message_id rest then rest else e.message_id ∷ rest

unfoldable pub discard : String → List String → List String
discard m [] = []
discard m (x ∷ xs) = let rest = discard m xs in if x == m then rest else x ∷ rest

unfoldable pub discard_all : List Envelope → List String → List String
unfolding discard
discard_all [] busy = busy
discard_all (e ∷ es) busy = discard_all es (discard e.message_id busy)

-- `_build_merged_message`: one wake names its inbox reference, several give their number.
pub data Notice : Type 0 where
  one : String → Notice
  many : ℕ → Notice

abbrev pub merged_message : List Envelope → Notice
merged_message (e ∷ []) = one e.inbox_ref
merged_message es = many (length es)

-- The marks of one wake: `turns` are those of its two calls. An exception leaves the loop.
abbrev pub then_mark : Reply → (Rows → Option Error × Rows) → Option Error × Rows
then_mark (ok r, t) next = next t
then_mark (raise e, t) next = (some e, t)

-- The loop over the batch after the pane was notified.
unfoldable pub mark_batch : (ℕ → Turn) → ℕ → List Envelope → Rows → Option Error × Rows
mark_batch turns k [] t = (none, t)
mark_batch turns k (e ∷ es) t =
    let rest = mark_batch turns (k + 2) es in
    then_mark (mark_injected (turns k) e.message_id t)
      (λ t'. then_mark (mark_completed (turns (k + 1)) e.message_id t') rest)

pub record Processed : Type 0 where
  pub daemon : Daemon
  pub table : Rows
  pub notice : Option Notice
  pub failure : Option Error

abbrev pub untouched : Rows → Daemon → Processed
untouched t d = record { daemon = d; table = t; notice = none; failure = none }

-- The body of the `try` of `_process_batch`, and its `finally`.
unfoldable pub process_fresh : Bool → (ℕ → Turn) → List Envelope → Rows → Daemon → Processed
process_fresh notified turns [] t d = untouched t d
process_fresh notified turns (e ∷ es) t d =
    let fresh = e ∷ es in
    let (failure, t') = if notified then mark_batch turns 0 fresh t else (none, t) in
    record {
      daemon = record d { processing = discard_all fresh (add_all fresh d.processing) };
      table = t';
      notice = some (merged_message fresh);
      failure = failure;
    }

-- `_process_batch`: `notified` is the result of the notify-pane subprocess. There is one batch task,
-- so nothing else touches `_processing` meanwhile.
unfoldable pub process_batch : Bool → (ℕ → Turn) → List Envelope → Rows → Daemon → Processed
unfolding process_fresh
process_batch notified turns batch t d =
    process_fresh notified turns (fresh_of d.processing batch) t d

-- The batch task after its sleep: it takes what is pending.
abbrev pub taken : List Envelope → Task
taken [] = finished
taken (e ∷ es) = injecting (e ∷ es)

unfoldable pub take_batch : Daemon → Daemon
take_batch d = record d { pending = []; task = taken d.pending }

-- The batch task works on its batch and ends, by an exception too. A task that has not taken a batch
-- does nothing here.
abbrev pub ended : Processed → Processed
ended p = record p { daemon = record p.daemon { task = finished } }

abbrev pub run_task : Task → Bool → (ℕ → Turn) → Rows → Daemon → Processed
run_task (injecting batch) notified turns t d = ended (process_batch notified turns batch t d)
run_task finished notified turns t d = untouched t d
run_task sleeping notified turns t d = untouched t d

unfoldable pub finish_batch : Bool → (ℕ → Turn) → Rows → Daemon → Processed
unfolding process_batch
finish_batch notified turns t d = run_task d.task notified turns t d
