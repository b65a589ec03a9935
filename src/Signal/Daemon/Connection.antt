-- ===== src/Signal/Daemon/Connection.antt =====
-- What one connection makes of the daemon.
use herdr_bridge.Prelude.{
  ℕ, ◌≤◌, ◌<◌, [], ◌∷◌, Bool-cases, inl, inr, ltb, ◌==◌, ◌≡◌, ◌↔◌, refl, sym, ap, ◌∙◌, Bool, true,
  false, none, some, String, text_key, arith, if◌then◌else◌, ok,
}
use herdr_bridge.Signal.Envelope.{Envelope, verify, default_ttl}
use herdr_bridge.Signal.Envelope.Checks.{IsAuthentic, verify-IsAuthentic}
use herdr_bridge.Signal.Ack.{find_active_signal_by_target}
use herdr_bridge.Signal.Store.{Rows}
use herdr_bridge.Signal.Daemon.{
  Nonces, forget_expired, has_seen, Daemon, Config, line, max_line_bytes, check_and_record_nonce,
  handle_connection, is_duplicate, enqueue,
}

-- The nonce is not among those that were recorded, unless its time is over.
abbrev pub IsFresh : ℕ → String → Nonces → Type 0
IsFresh now n [] = Unit
IsFresh now n ((k, expiry) ∷ s) = ((k ≡ n) → expiry < now) × IsFresh now n s

seen-IsFresh :
    (now : ℕ) (n : String) (s : Nonces)
    → has_seen n (forget_expired now s) ≡ false
    → IsFresh now n s
unfolding has_seen forget_expired
seen-IsFresh now n [] h = tt
seen-IsFresh now n ((k, expiry) ∷ s) h = elim (Bool-cases (ltb expiry now)) [
  | inl old ↦ ((λ e. ground (arith, old)), seen-IsFresh now n s (ground (arith, old, h)))
  | inr live ↦ (
    (λ e. absurd (ground (arith, live, h, (text_key.eqb_iff k n).1 e))),
    seen-IsFresh now n s (ground (arith, live, h)),
  )
]

IsFresh-seen :
    (now : ℕ) (n : String) (s : Nonces)
    → IsFresh now n s
    → has_seen n (forget_expired now s) ≡ false
unfolding has_seen forget_expired
IsFresh-seen now n [] f = refl
IsFresh-seen now n ((k, expiry) ∷ s) f = elim (Bool-cases (ltb expiry now)) [
  | inl old ↦ ground (arith, old, IsFresh-seen now n s f.1)
  | inr live ↦ elim (Bool-cases (k == n)) [
    | inl e ↦ absurd (ground (arith, live, f.0 ((text_key.eqb_iff k n).0 e)))
    | inr e ↦ ground (arith, live, e, IsFresh-seen now n s f.1)
  ]
]

-- The check of a nonce says whether it is fresh.
pub nonce_iff :
    (now : ℕ) (n : String) (s : Nonces)
    → ((check_and_record_nonce now n s).0 ≡ true) ↔ IsFresh now n s
unfolding check_and_record_nonce
nonce_iff now n s =
    ((λ h. seen-IsFresh now n s (ground (arith, h))), (λ f. ground (arith, IsFresh-seen now n s f)))

-- The tests that a packet has to pass before the daemon answers.
pub record Passes (c : Config) (now bytes : ℕ) (e : Envelope) (d : Daemon) : Type 0 where
  pub fits : bytes ≤ max_line_bytes
  pub same_host : e.sender_hostname ≡ c.own_hostname
  pub authentic : IsAuthentic c.crypto e c.shared_secret now default_ttl
  pub fresh : IsFresh now e.nonce d.nonce_seen

module _ (c : Config) (now bytes : ℕ) (e : Envelope) (t : Rows) (d : Daemon) where
  abbrev pub seen_now : Daemon
  seen_now = record d { nonce_seen = (check_and_record_nonce now e.nonce d.nonce_seen).1 }

  -- A packet that passes is answered; it is queued unless a message for the same target is in flight.
  pub handle-Passes :
      Passes c now bytes e d
      → handle_connection c now (line bytes (some e)) t d ≡ record {
        daemon =
            if is_duplicate e (find_active_signal_by_target now e.to_project e.inbox_ref none t)
            then seen_now
            else enqueue e seen_now;
        reply = some e.message_id;
      }
  unfolding handle_connection
  handle-Passes p =
      let fresh_now = (nonce_iff now e.nonce d.nonce_seen).1 p.fresh in
      let ok_now = (verify-IsAuthentic c.crypto e c.shared_secret now default_ttl).1 p.authentic in
      ground (arith, text_key.eqb_iff e.sender_hostname c.own_hostname)

  verified :
      verify c.crypto e c.shared_secret now default_ttl ≡ ok tt
      → IsAuthentic c.crypto e c.shared_secret now default_ttl
  verified = (verify-IsAuthentic c.crypto e c.shared_secret now default_ttl).0

  -- A packet that is answered has passed every test.
  pub reply-Passes :
      (m : String)
      → (handle_connection c now (line bytes (some e)) t d).reply ≡ some m
      → Passes c now bytes e d
  unfolding handle_connection
  reply-Passes m h = record {
    fits = ground arith;
    same_host = ground (arith, text_key.eqb_iff e.sender_hostname c.own_hostname);
    authentic = verified (ground arith);
    fresh = (nonce_iff now e.nonce d.nonce_seen).0 (ground arith);
  }

  -- The daemon answers a packet exactly if its line is not too long, it comes from this host, it is
  -- signed and in its time window, and its nonce was not recorded or its record has expired; the answer names the packet's message.
  pub reply_iff :
      (m : String)
      → ((handle_connection c now (line bytes (some e)) t d).reply ≡ some m)
        ↔ (Passes c now bytes e d × (m ≡ e.message_id))
  reply_iff m = (
    (λ h. let p = reply-Passes m h in (p, cc (ap (λ x. x.reply) (handle-Passes p)))),
    (λ h. ap (λ x. x.reply) (handle-Passes h.0) ∙ ap some (sym h.1)),
  )

  pub nonces-handle :
      Passes c now bytes e d
      → (handle_connection c now (line bytes (some e)) t d).daemon.nonce_seen
        ≡ (check_and_record_nonce now e.nonce d.nonce_seen).1
  nonces-handle p = ap (λ x. x.daemon.nonce_seen) (handle-Passes p) ∙ same_nonces _
    where
      same_nonces :
          (b : Bool) → (if b then seen_now else enqueue e seen_now).nonce_seen ≡ seen_now.nonce_seen
      same_nonces true = refl
      same_nonces false = refl
