-- ===== src/Session/Client/Reader/Runs.antt =====
-- What holds of each failure and each connection of the subscription reader of client.py holds of its runs.
use herdr_bridge.Prelude.{
  ℕ, ◌*◌, true, false, none, some, List, [], ◌∷◌, ◌++◌, String, if◌then◌else◌, Result, ok, raise,
}
use herdr_bridge.Session.Client.{
  ClientError, connection_error, timeout_error, agent_not_found, api_error, value_error, Member,
  received,
}
use herdr_bridge.Session.Client.Reader.{
  Settings, Reader, Output, disconnected, waiting, Cycle, failed, serve, Attempt, rejected, ran,
  answered, attempt, Next, minimum, pause, after, cycle, read_on, read_all,
}

abbrev pub OnRun : (Reader × List Output → Type 0) → Attempt → Type 0
OnRun P rejected = Unit
OnRun P (ran n) = P n

pub OnRun-map :
    {P Q : Reader × List Output → Type 0} (a : Attempt)
    → ((n : Reader × List Output) → P n → Q n)
    → OnRun P a
    → OnRun Q a
OnRun-map rejected f h = tt
OnRun-map (ran n) f h = f n h

module _ (c : Settings) (P : Reader → Reader × List Output → Type 0)
    (fails : (now : ℕ) (r : Reader) → P r (failed c now r))
    (serves : (y : Cycle) (r : Reader) → P r (serve c y r)) where
  answered-OnRun :
      (y : Cycle) (r : Reader) (a : Result ClientError (List (String × Member)))
      → OnRun (P r) (answered c y r a)
  answered-OnRun y r (ok result) = serves y r
  answered-OnRun y r (raise connection_error) = fails y.now r
  answered-OnRun y r (raise timeout_error) = fails y.now r
  answered-OnRun y r (raise value_error) = fails y.now r
  answered-OnRun y r (raise (agent_not_found code message)) = tt
  answered-OnRun y r (raise (api_error code message)) = tt

  pub attempt-OnRun : (y : Cycle) (r : Reader) → OnRun (P r) (attempt c y r)
  unfolding attempt
  attempt-OnRun y r =
      elim y.has_connection
        as (λ b.
          OnRun (P r) (if b then answered c y r (received y.ack) else ran (failed c y.now r))) [
            | true ↦ answered-OnRun y r (received y.ack)
            | false ↦ fails y.now r
          ]

-- The reader after a wait.
abbrev pub backed_off : Settings → Reader → Reader
backed_off c r = record r { backoff = minimum (r.backoff * 2) c.backoff_max }

abbrev pub waited : Reader × List Output → List Output
waited n = n.1 ++ disconnected ∷ waiting n.0.backoff ∷ []

module _ (c : Settings) (R : Reader → Next → Type 0) (stops : (r : Reader) → R r (none, []))
    (starts : (r : Reader) → R r (some r, []))
    (steps : (y : Cycle) (r : Reader)
      → OnRun
          (λ n. R r (none, n.1) × R r (none, waited n) × R r (some (backed_off c n.0), waited n))
          (attempt c y r))
    (joins : (r t : Reader) (l : List Output) (n : Next)
      → R r (some t, l)
      → R t n
      → R r (n.0, l ++ n.1)) where
  pause-runs :
      (y : Cycle) (r : Reader) (n : Reader × List Output)
      → R r (none, n.1) × R r (none, waited n) × R r (some (backed_off c n.0), waited n)
      → R r (pause c y n)
  pause-runs y r (t, l) h =
      elim y.closed
        as (λ b. R r (
          if b
          then (none, l)
          else if y.closed_waiting
          then (none, waited (t, l))
          else (some (backed_off c t), waited (t, l)))) [
            | true ↦ h.0
            | false ↦
                elim y.closed_waiting
                  as (λ b.
                    R r (
                      if b
                      then (none, waited (t, l))
                      else (some (backed_off c t), waited (t, l)))) [ true ↦ h.1 | false ↦ h.2 ]
          ]

  after-runs :
      (y : Cycle) (r : Reader) (a : Attempt)
      → OnRun
          (λ n. R r (none, n.1) × R r (none, waited n) × R r (some (backed_off c n.0), waited n))
          a
      → R r (after c y a)
  after-runs y r rejected h = stops r
  after-runs y r (ran n) h = pause-runs y r n h

  read_on-runs :
      (r : Reader) (next : Reader → Next)
      → ((t : Reader) → R t (next t))
      → (n : Next) → R r n
      → R r (read_on next n)
  read_on-runs r next h (none, l) k = k
  read_on-runs r next h (some t, l) k = joins r t l (next t) k (h t)

  pub read_all-runs : (l : List Cycle) (r : Reader) → R r (read_all c l r)
  unfolding read_all cycle
  read_all-runs [] r = starts r
  read_all-runs (y ∷ l) r =
      read_on-runs r (read_all c l) (λ t. read_all-runs l t) (after c y (attempt c y r))
        (after-runs y r (attempt c y r) (steps y r))
