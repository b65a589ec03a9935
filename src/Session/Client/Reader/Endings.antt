-- ===== src/Session/Client/Reader/Endings.antt =====
-- When client.py's subscription reader ends its thread.
use herdr_bridge.Prelude.{
  ◌≡◌, refl, sym, Bool, true, false, none, some, List, [], ◌∷◌, String, if◌then◌else◌, Result, ok,
  raise, arith, All,
}
use herdr_bridge.Session.Client.{
  ClientError, connection_error, timeout_error, agent_not_found, api_error, value_error, Member,
  received,
}
use mathlib.Core.Path.{subst}
use herdr_bridge.Session.Client.Reader.Runs.{backed_off}
use herdr_bridge.Session.Client.Reader.{
  Settings, Reader, Output, Cycle, failed, serve, ran, answered, attempt, Next, pause, after, cycle,
  read_on, read_all,
}

-- HerdrApiError in the acknowledgement, with its subclass for unknown agents.
abbrev pub is_rejection : Result ClientError (List (String × Member)) → Bool
is_rejection (ok result) = false
is_rejection (raise connection_error) = false
is_rejection (raise timeout_error) = false
is_rejection (raise value_error) = false
is_rejection (raise (agent_not_found code message)) = true
is_rejection (raise (api_error code message)) = true

-- The server does not reject the subscription, and nobody closes it.
abbrev pub IsLive : Cycle → Type 0
IsLive y =
    ((if y.has_connection then is_rejection (received y.ack) else false) ≡ false)
    × (y.closed ≡ false)
    × (y.closed_waiting ≡ false)

module _ (c : Settings) where
  answered-ran :
      (y : Cycle) (r : Reader) (a : Result ClientError (List (String × Member)))
      → is_rejection a ≡ false
      → (n : Reader × List Output) × (answered c y r a ≡ ran n)
  answered-ran y r (ok result) h = (serve c y r, refl)
  answered-ran y r (raise connection_error) h = (failed c y.now r, refl)
  answered-ran y r (raise timeout_error) h = (failed c y.now r, refl)
  answered-ran y r (raise value_error) h = (failed c y.now r, refl)
  answered-ran y r (raise (agent_not_found code message)) h = ground (arith, h)
  answered-ran y r (raise (api_error code message)) h = ground (arith, h)

  attempt-ran :
      (y : Cycle) (r : Reader) (b : Bool)
      → (if b then is_rejection (received y.ack) else false) ≡ false
      → (n : Reader × List Output) × ((if b
            then answered c y r (received y.ack)
            else ran (failed c y.now r))
          ≡ ran n)
  attempt-ran y r true h = answered-ran y r (received y.ack) h
  attempt-ran y r false h = (failed c y.now r, refl)

  pause-some :
      (y : Cycle) (n : Reader × List Output)
      → y.closed ≡ false
      → y.closed_waiting ≡ false
      → (t : Reader) × ((pause c y n).0 ≡ some t)
  pause-some y (r, l) a b = (backed_off c r, ground (arith, a, b))

  cycle-some : (y : Cycle) (r : Reader) → IsLive y → (t : Reader) × ((cycle c y r).0 ≡ some t)
  unfolding cycle attempt
  cycle-some y r u =
      let n : (n : Reader × List Output) × ((if y.has_connection
              then answered c y r (received y.ack)
              else ran (failed c y.now r))
            ≡ ran n) =
        attempt-ran y r y.has_connection u.0 in
      subst (λ a. (t : Reader) × ((after c y a).0 ≡ some t)) (sym n.1) (pause-some y n.0 u.1 u.2)

  read_on-some :
      (f : Reader → Next)
      → ((r : Reader) → (t : Reader) × ((f r).0 ≡ some t))
      → (n : Next) → (t : Reader) × (n.0 ≡ some t)
      → (t : Reader) × ((read_on f n).0 ≡ some t)
  read_on-some f h (none, l) k = ground (arith, k.1)
  read_on-some f h (some r, l) k = h r

  -- The reader never ends of itself: whatever connections fail, whatever lines arrive, as long as the server
  -- does not reject the subscription and nobody closes it, the reader goes on to the next connection.
  pub read_all-some :
      (l : List Cycle) (r : Reader) → All IsLive l → (t : Reader) × ((read_all c l r).0 ≡ some t)
  unfolding read_all
  read_all-some [] r u = (r, refl)
  read_all-some (y ∷ l) r u =
      read_on-some (read_all c l) (λ t. read_all-some l t u.1) (cycle c y r) (cycle-some y r u.0)
