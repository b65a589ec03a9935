-- ===== src/Session/Client/Reader/Schedule.antt =====
-- The waits of client.py's subscription reader while no connection is acknowledged.
use herdr_bridge.Prelude.{
  ℕ, zero, suc, ◌*◌, ◌≤◌, ◌≡◌, refl, ap, ◌∙◌, Bool, true, false, not, ◌&&◌, some, List, [], ◌∷◌,
  ◌++◌, String, if◌then◌else◌, Result, ok, raise, arith, All, length,
}
use herdr_bridge.Session.Client.{
  ClientError, connection_error, timeout_error, agent_not_found, api_error, value_error, Member,
  received,
}
use herdr_bridge.Session.Client.Reader.{
  Settings, Reader, new_reader, Output, Cycle, since, is_degraded, counted, notify_degraded, failed,
  ran, answered, attempt, minimum, after, cycle, read_on, read_all,
}
use herdr_bridge.Session.Client.Reader.Traces.{gather, gather_++}
use herdr_bridge.Session.Client.Reader.Backoff.{wait_of, waits, failed-Sits, Sits-waited}
use herdr_bridge.Session.Client.Reader.Runs.{backed_off, waited}

-- A reply that is no acknowledgement, and after which the reader tries again.
abbrev pub is_retried : Result ClientError (List (String × Member)) → Bool
is_retried (ok result) = false
is_retried (raise connection_error) = true
is_retried (raise timeout_error) = true
is_retried (raise value_error) = true
is_retried (raise (agent_not_found code message)) = false
is_retried (raise (api_error code message)) = false

-- No connection, or no acknowledgement; and the subscription is not closed.
abbrev pub IsUnanswered : Cycle → Type 0
IsUnanswered y =
    ((if y.has_connection then is_retried (received y.ack) else true) ≡ true)
    × (y.closed ≡ false)
    × (y.closed_waiting ≡ false)

-- initial, 2 * initial, 4 * initial, ..., each cut off at `max`.
unfoldable pub doubling : ℕ → ℕ → ℕ → List ℕ
doubling max initial zero = []
doubling max initial (suc n) = minimum initial max ∷ doubling max (initial * 2) n

module _ (c : Settings) where
  answered-failed :
      (y : Cycle) (r : Reader) (a : Result ClientError (List (String × Member)))
      → is_retried a ≡ true
      → answered c y r a ≡ ran (failed c y.now r)
  answered-failed y r (ok result) h = ground (arith, h)
  answered-failed y r (raise connection_error) h = refl
  answered-failed y r (raise timeout_error) h = refl
  answered-failed y r (raise value_error) h = refl
  answered-failed y r (raise (agent_not_found code message)) h = ground (arith, h)
  answered-failed y r (raise (api_error code message)) h = ground (arith, h)

  attempt-failed :
      (y : Cycle) (r : Reader) → IsUnanswered y → attempt c y r ≡ ran (failed c y.now r)
  unfolding attempt
  attempt-failed y r u = ground (arith, u.0, answered-failed y r (received y.ack))

  cycle-failed :
      (y : Cycle) (r : Reader)
      → IsUnanswered y
      → cycle c y r ≡ (some (backed_off c (failed c y.now r).0), waited (failed c y.now r))
  unfolding cycle
  cycle-failed y r u = ap (after c y) (attempt-failed y r u) ∙ ground (arith, u.1, u.2)

  notify_degraded-backoff : (b : Bool) (r : Reader) → (notify_degraded b r).0.backoff ≡ r.backoff
  notify_degraded-backoff true r = refl
  notify_degraded-backoff false r = refl

  failed-backoff : (now : ℕ) (r : Reader) → (failed c now r).0.backoff ≡ r.backoff
  unfolding failed
  failed-backoff now r =
      notify_degraded-backoff
        (not r.degraded_notified && is_degraded c (suc r.fail_count) now (since now r.fail_since))
        (counted now r)

  read_all-doubling :
      (l : List Cycle) (r : Reader) (d : ℕ)
      → All IsUnanswered l
      → r.backoff ≡ minimum d c.backoff_max
      → waits (read_all c l r).1 ≡ doubling c.backoff_max d (length l)
  unfolding read_all doubling gather
  read_all-doubling [] r d u e = refl
  read_all-doubling (y ∷ l) r d u e =
      let n : Reader × List Output = failed c y.now r in
      let t : Reader = backed_off c n.0 in
      let k : n.0.backoff ≡ minimum d c.backoff_max = failed-backoff y.now r ∙ e in
      let h : waits (waited n) ≡ minimum d c.backoff_max ∷ [] =
        Sits-waited c r n (failed-Sits c y.now r) ∙ ap (λ b. b ∷ []) k in
      ap (λ m. waits (read_on (read_all c l) m).1) (cycle-failed y r u.0)
      ∙ gather_++ wait_of (waited n) (read_all c l t).1
      ∙ ap (λ m. m ++ waits (read_all c l t).1) h
      ∙ ap (λ m. minimum d c.backoff_max ∷ m)
          (read_all-doubling l t (d * 2) u.1 (ground (arith, k)))

-- As long as no connection is acknowledged, the n-th wait is the initial backoff doubled n times, cut off at
-- the greatest backoff.
pub waits-doubling :
    (c : Settings) (l : List Cycle)
    → c.backoff_initial ≤ c.backoff_max
    → All IsUnanswered l
    → waits (read_all c l (new_reader c)).1 ≡ doubling c.backoff_max c.backoff_initial (length l)
waits-doubling c l v u =
    read_all-doubling c l (new_reader c) c.backoff_initial u (ground (arith, v))
