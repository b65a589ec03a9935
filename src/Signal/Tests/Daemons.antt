-- ===== src/Signal/Tests/Daemons.antt =====
-- Packets, nonces and batches.
use herdr_bridge.Prelude.{
  List, ◌≤◌, ℕ, ◌+◌, ◌≡◌, ◌↔◌, refl, none, some, [], ◌∷◌, String, text_key, arith, if◌then◌else◌,
  ok, raise, ltb,
}
use herdr_bridge.Table.{find}
use herdr_bridge.Signal.State.{accepted}
use herdr_bridge.Signal.Envelope.{Envelope, verify, signed, expired, in_future}
use herdr_bridge.Signal.Envelope.Checks.{verify-untampered, verify-signed}
use herdr_bridge.Signal.Daemon.{Daemon, line, Handled, handle_connection, injecting, mark_batch}
use herdr_bridge.Signal.Daemon.Connection.{Passes, reply_iff}
use herdr_bridge.Signal.Daemon.Replay.{serve, replay_refused}
use herdr_bridge.Signal.Daemon.Batch.{IsIdle}
use herdr_bridge.Signal.Daemon.Completion.{Completes, mark_batch-IsDone}
use herdr_bridge.Signal.Tests.Data.{
  row_in, idle, idle-IsAtomic, packet, crypto, config, fresh_daemon,
}

verify-untampered_example :
    (packet ≡ signed crypto packet "s")
    × (50500 ≤ packet.timestamp + 60000)
    × (packet.timestamp ≤ 50500 + 60000)
unfolding signed verify
verify-untampered_example =
    verify-untampered crypto packet packet "s" 50500 60000 (λ h. refl) refl refl

verify-signed_example : verify crypto (signed crypto packet "s") "s" 50500 60000 ≡ (
    if ltb (packet.timestamp + 60000) 50500
    then raise expired
    else if ltb (50500 + 60000) packet.timestamp
    then raise in_future
    else ok tt)
verify-signed_example = verify-signed crypto packet "s" 50500 60000

-- The packet arrives at time `now`.
abbrev answer : ℕ → Daemon → Handled
answer now d = handle_connection config now (line 200 (some packet)) [] d

packet-Passes : Passes config 50500 200 packet fresh_daemon
packet-Passes = record {
  fits = omega arith;
  same_host = refl;
  authentic = (refl, omega arith, omega arith);
  fresh = tt;
}

reply_iff_example :
    ((answer 50500 fresh_daemon).reply ≡ some "m1")
    ↔ (Passes config 50500 200 packet fresh_daemon × (◌≡◌ {A = String} "m1" packet.message_id))
reply_iff_example = reply_iff config 50500 200 packet [] fresh_daemon "m1"

answered_at :
    (now : ℕ)
    → Passes config now 200 packet fresh_daemon
    → (answer now fresh_daemon).reply ≡ some "m1"
answered_at now p = (reply_iff config now 200 packet [] fresh_daemon "m1").1 (p, refl)

early-Passes : Passes config 1000 200 packet fresh_daemon
early-Passes = record {
  fits = omega arith;
  same_host = refl;
  authentic = (refl, omega arith, omega arith);
  fresh = tt;
}

replay_refused_example :
    let d =
      serve config
        (record { now = 50700; input = line 300 none; table = [] } ∷ [])
        (answer 50500 fresh_daemon).daemon in
    (handle_connection config 50800 (line 200 (some packet)) [] d).reply ≡ none
replay_refused_example =
    replay_refused config packet 50500 200 [] fresh_daemon "m1"
      (record { now = 50700; input = line 300 none; table = [] } ∷ []) (omega arith)
      (answered_at 50500 packet-Passes) 50800 200 [] (omega arith)

idle-IsIdle : IsIdle 1000 idle
idle-IsIdle = record {
  atomic = idle-IsAtomic;
  checks_alone = λ t. refl;
  not_after = omega arith;
  not_long_before = omega arith;
}

-- Two wakes, of which the first has a row already.
abbrev wakes : List Envelope
wakes = packet ∷ record packet { message_id = "m2"; nonce = "n2" } ∷ []

mark_batch-IsDone_example :
    Completes 1000 wakes
      (row_in accepted ∷ [])
      (mark_batch (λ i. idle) 0 wakes (row_in accepted ∷ []))
unfolding find
mark_batch-IsDone_example =
    mark_batch-IsDone 1000 (λ i. idle) (λ i. idle-IsIdle) 0 wakes (row_in accepted ∷ []) (refl, tt)
      ((refl, tt), (tt, tt)) (refl, (refl, tt))

abbrev busy_daemon : Daemon
busy_daemon = record fresh_daemon { task = injecting (packet ∷ []) }
