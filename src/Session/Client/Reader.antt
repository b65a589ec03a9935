-- ===== src/Session/Client/Reader.antt =====
-- The subscription reader of client.py, `reader` in `SocketClient.subscribe`: one cycle of its loop for
-- each connection, with what the loop tells its callbacks. Times are in milliseconds.
pub mod Traces
pub mod Runs
pub mod Backoff
pub mod Schedule
pub mod Endings
pub mod Outages
use herdr_bridge.Prelude.{
  ℕ, suc, ◌-◌, ◌*◌, Bool, true, false, not, ◌&&◌, ◌||◌, Option, none, some, List, [], ◌∷◌, ◌++◌,
  String, leb, if◌then◌else◌, Result, ok, raise,
}
use herdr_bridge.Session.Cache.{Fields}
use herdr_bridge.Session.Client.{
  ClientError, connection_error, timeout_error, agent_not_found, api_error, value_error, Line,
  Member, Reading, timed_out, os_error, ended, read, over_limit, received,
}

pub record Settings : Type 0 where
  pub backoff_initial : ℕ
  pub backoff_max : ℕ
  pub degraded_after_failures : ℕ
  pub degraded_after : ℕ

abbrev pub defaults : Settings
defaults = record {
  backoff_initial = 500;
  backoff_max = 30000;
  degraded_after_failures = 10;
  degraded_after = 60000;
}

pub record Reader : Type 0 where
  pub backoff : ℕ
  pub ever_connected : Bool
  pub fail_count : ℕ
  pub fail_since : Option ℕ
  pub degraded_notified : Bool

abbrev pub new_reader : Settings → Reader
new_reader c = record {
  backoff = c.backoff_initial;
  ever_connected = false;
  fail_count = 0;
  fail_since = none;
  degraded_notified = false;
}

-- What the reader tells the outside: on_state, on_event, and the time that it waits.
pub data Output : Type 0 where
  connected : Output
  reconnected : Output
  disconnected : Output
  degraded : Output
  event : String → Output
  waiting : ℕ → Output

-- A line after the acknowledgement: not an object, or an event with its name; or the reading fails.
pub data EventLine : Type 0 where
  ignored : EventLine
  pushed : String → EventLine

-- How a connection ends: the server closes it, or OSError, an over-long or a malformed line.
pub data Ending : Type 0 where
  dropped : Ending
  broken : Ending

-- One pass through the loop: whether a connection is made, how the acknowledgement reads, the lines after
-- it, the clock at a failure, and whether the subscription is closed before the wait or during it.
pub record Cycle : Type 0 where
  pub has_connection : Bool
  pub ack : Reading
  pub lines : List EventLine
  pub ending : Ending
  pub now : ℕ
  pub closed : Bool
  pub closed_waiting : Bool

abbrev pub events_of : List EventLine → List Output
events_of [] = []
events_of (ignored ∷ l) = events_of l
events_of (pushed name ∷ l) = event name ∷ events_of l

abbrev pub since : ℕ → Option ℕ → ℕ
since now none = now
since now (some t) = t

abbrev pub is_degraded : Settings → ℕ → ℕ → ℕ → Bool
is_degraded c count now start =
    leb c.degraded_after_failures count || leb c.degraded_after (now - start)

abbrev pub counted : ℕ → Reader → Reader
counted now r = record r {
  fail_count = suc r.fail_count;
  fail_since = some (since now r.fail_since);
}

abbrev pub notify_degraded : Bool → Reader → Reader × List Output
notify_degraded true r = (record r { degraded_notified = true }, degraded ∷ [])
notify_degraded false r = (r, [])

-- except (OSError, HerdrConnectionError, ValueError)
unfoldable pub failed : Settings → ℕ → Reader → Reader × List Output
failed c now r =
    notify_degraded
      (not r.degraded_notified && is_degraded c (suc r.fail_count) now (since now r.fail_since))
      (counted now r)

abbrev pub acknowledged : Settings → Reader → Reader
acknowledged c r = record {
  backoff = c.backoff_initial;
  ever_connected = true;
  fail_count = 0;
  fail_since = none;
  degraded_notified = false;
}

abbrev pub hello : Reader → Output
hello r = if r.ever_connected then reconnected else connected

abbrev pub prefixed : List Output → Reader × List Output → Reader × List Output
prefixed l (r, m) = (r, l ++ m)

abbrev pub end_with : Settings → ℕ → Ending → Reader → Reader × List Output
end_with c now dropped r = (r, [])
end_with c now broken r = failed c now r

-- From the acknowledgement to the end of the connection.
unfoldable pub serve : Settings → Cycle → Reader → Reader × List Output
serve c y r = prefixed (hello r ∷ events_of y.lines) (end_with c y.now y.ending (acknowledged c r))

pub data Attempt : Type 0 where
  -- HerdrApiError: not retried
  rejected : Attempt
  ran : Reader × List Output → Attempt

abbrev pub answered :
    Settings → Cycle → Reader → Result ClientError (List (String × Member)) → Attempt
answered c y r (ok result) = ran (serve c y r)
answered c y r (raise (agent_not_found code message)) = rejected
answered c y r (raise (api_error code message)) = rejected
answered c y r (raise connection_error) = ran (failed c y.now r)
answered c y r (raise timeout_error) = ran (failed c y.now r)
answered c y r (raise value_error) = ran (failed c y.now r)

-- The body of the try statement and its handlers.
unfoldable pub attempt : Settings → Cycle → Reader → Attempt
attempt c y r = if y.has_connection then answered c y r (received y.ack) else ran (failed c y.now r)

-- The next state, or none if the thread ends.
abbrev pub Next : Type 0
Next = Option Reader × List Output

abbrev pub minimum : ℕ → ℕ → ℕ
minimum m n = if leb m n then m else n

abbrev pub pause : Settings → Cycle → Reader × List Output → Next
pause c y (r, l) =
    if y.closed
    then (none, l)
    else if y.closed_waiting
    then (none, l ++ disconnected ∷ waiting r.backoff ∷ [])
    else (
      some (record r { backoff = minimum (r.backoff * 2) c.backoff_max }),
      l ++ disconnected ∷ waiting r.backoff ∷ [],
    )

abbrev pub after : Settings → Cycle → Attempt → Next
after c y rejected = (none, [])
after c y (ran r) = pause c y r

-- One pass through `while not sub.closed`
unfoldable pub cycle : Settings → Cycle → Reader → Next
cycle c y r = after c y (attempt c y r)

abbrev pub read_on : (Reader → Next) → Next → Next
read_on next (none, l) = (none, l)
read_on next (some r, l) = let n = next r in (n.0, l ++ n.1)

-- reader, for any number of connections
unfoldable pub read_all : Settings → List Cycle → Reader → Next
read_all c [] = λ r. (some r, [])
read_all c (y ∷ l) = λ r. read_on (read_all c l) (cycle c y r)
