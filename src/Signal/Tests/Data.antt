-- ===== src/Signal/Tests/Data.antt =====
-- A message "m1" from tower "a" to tower "b", and the processes around it.
use herdr_bridge.Prelude.{ℕ, refl, true, none, some, [], inl}
use herdr_bridge.Signal.State.{State}
use herdr_bridge.Signal.Store.{Row}
use herdr_bridge.Signal.Ack.{Turn, mark_injected}
use herdr_bridge.Signal.Ack.Quiet.{IsAtomic}
use herdr_bridge.Signal.Ack.Race.{IsFair, IsDaemon}
use herdr_bridge.Signal.Ack.Marks.{mark_injected-IsDaemon}
use herdr_bridge.Signal.Envelope.{Envelope, Crypto}
use herdr_bridge.Signal.Daemon.{Daemon, Config, finished}

abbrev pub row_in : State → Row
row_in s = record {
  message_id = "m1";
  from_project = "a";
  to_project = "b";
  inbox_ref = "r1";
  state = s;
  attempt_count = 0;
  accepted_at = some 5;
  injected_at = some 7;
  seen_at = none;
  created_at = 5;
  updated_at = 7;
  expires_at = 86400007;
}

-- A turn in which nobody else does anything, at time 1000.
abbrev pub idle : Turn
idle = record {
  before_read = λ t. t;
  before_check = λ t. t;
  before_write = λ t. t;
  before_verify = λ t. t;
  stamp = 1000;
  now = 1000;
}

pub idle-IsAtomic : IsAtomic idle
idle-IsAtomic = record { writes_alone = λ t. refl; verifies_alone = λ t. refl }

-- In each pass the daemon marks the message as injected between the two reads.
abbrev pub racing : ℕ → Turn
racing i = record idle { before_check = λ t. (mark_injected idle "m1" t).1 }

pub nothing-IsDaemon : IsDaemon "m1" (λ t. t)
nothing-IsDaemon = record { advances = λ t h. inl refl; keeps = λ t h. h }

pub racing-IsFair : (i : ℕ) → IsFair "m1" (racing i)
racing-IsFair i = record {
  atomic = record { writes_alone = λ t. refl; verifies_alone = λ t. refl };
  reading = nothing-IsDaemon;
  checking = mark_injected-IsDaemon idle "m1" idle-IsAtomic (λ t. refl);
}

abbrev pub packet : Envelope
packet = record {
  from_project = "a";
  to_project = "b";
  inbox_ref = "r1";
  kind = "wake";
  sender_id = "tower";
  message_id = "m1";
  requires_processed_ack = true;
  nonce = "n1";
  timestamp = 50000;
  sender_hostname = "host";
  hmac = "sig";
}

-- A signature scheme for the tests: every packet has the signature "sig".
abbrev pub crypto : Crypto
crypto = record { mac = λ secret payload. "sig"; digest = λ p r. p }

abbrev pub config : Config
config = record { crypto = crypto; shared_secret = "s"; own_hostname = "host" }

abbrev pub fresh_daemon : Daemon
fresh_daemon = record { nonce_seen = []; pending = []; task = finished; processing = [] }
