-- ===== src/Signal/Envelope/Checks.antt =====
-- What `verify` accepts.
use herdr_bridge.Prelude.{
  ℕ, ◌+◌, Bool, false, Option, none, some, List, [], ◌∷◌, ◌==◌, ◌∙◌, ◌≤◌, ◌≡◌, ◌↔◌, refl, String,
  text_key, ok, raise, ltb, if◌then◌else◌, arith,
}
use herdr_bridge.Signal.Envelope.{
  Scalar, text, flag, time, Envelope, Crypto, expired, in_future, signing_payload, signed, verify,
}

abbrev text_of : Option Scalar → String
text_of (some (text s)) = s
text_of _ = ""

abbrev flag_of : Option Scalar → Bool
flag_of (some (flag b)) = b
flag_of _ = false

abbrev time_of : Option Scalar → ℕ
time_of (some (time n)) = n
time_of _ = 0

abbrev member_at : String → List (String × Scalar) → Option Scalar
member_at k [] = none
member_at k ((j, v) ∷ l) = let later = member_at k l in if j == k then some v else later

module _ (c : Crypto) where
  -- A packet can be read off its signed text and its signature.
  same_payload :
      (e original : Envelope) {h : String}
      → signing_payload c e ≡ signing_payload c original
      → e.hmac ≡ h
      → e ≡ record original { hmac = h }
  unfolding signing_payload
  same_payload e original p h = λ i. record {
    from_project = text_of (member_at "from_project" (p i));
    to_project = text_of (member_at "to_project" (p i));
    inbox_ref = text_of (member_at "inbox_ref" (p i));
    kind = text_of (member_at "kind" (p i));
    sender_id = text_of (member_at "sender_id" (p i));
    message_id = text_of (member_at "message_id" (p i));
    requires_processed_ack = flag_of (member_at "requires_processed_ack" (p i));
    nonce = text_of (member_at "nonce" (p i));
    timestamp = time_of (member_at "timestamp" (p i));
    sender_hostname = text_of (member_at "sender_hostname" (p i));
    hmac = h i;
  }

  -- The packet carries the signature of its other fields, and the clock is at most one TTL away from
  -- its timestamp.
  abbrev pub IsAuthentic : Envelope → String → ℕ → ℕ → Type 0
  IsAuthentic e secret now ttl =
      (c.mac secret (signing_payload c e) ≡ e.hmac)
      × (now ≤ e.timestamp + ttl)
      × (e.timestamp ≤ now + ttl)

  -- `verify` accepts a packet exactly if it is signed with the secret over its own fields and
  -- neither older nor further in the future than the TTL.
  pub verify-IsAuthentic :
      (e : Envelope) (secret : String) (now ttl : ℕ)
      → (verify c e secret now ttl ≡ ok tt) ↔ IsAuthentic e secret now ttl
  unfolding verify
  verify-IsAuthentic e secret now ttl = (
    (λ h. ground (arith, text_key.eqb_iff (c.mac secret (signing_payload c e)) e.hmac)),
    (λ h. ground (arith, text_key.eqb_iff (c.mac secret (signing_payload c e)) e.hmac)),
  )

  -- A packet that carries the signature of a signed packet is accepted only if it is that packet, in every
  -- field, and the clock is in its window; unless the two signed texts collide under the secret.
  pub verify-untampered :
      (e original : Envelope) (secret : String) (now ttl : ℕ)
      → (c.mac secret (signing_payload c e) ≡ c.mac secret (signing_payload c original)
          → signing_payload c e ≡ signing_payload c original)
      → e.hmac ≡ (signed c original secret).hmac
      → verify c e secret now ttl ≡ ok tt
      → (e ≡ signed c original secret) × (now ≤ e.timestamp + ttl) × (e.timestamp ≤ now + ttl)
  unfolding signed
  verify-untampered e original secret now ttl no_collision h v =
      let a = (verify-IsAuthentic e secret now ttl).0 v in
      (same_payload e original (no_collision (a.0 ∙ h)) h, a.1, a.2)

  -- A packet that was just signed is accepted with the same secret in the whole window of its
  -- timestamp, is refused as expired after it and as dated in the future before it.
  pub verify-signed :
      (e : Envelope) (secret : String) (now ttl : ℕ)
      → verify c (signed c e secret) secret now ttl ≡ (
          if ltb (e.timestamp + ttl) now
          then raise expired
          else if ltb (now + ttl) e.timestamp
          then raise in_future
          else ok tt)
  unfolding verify signed signing_payload
  verify-signed e secret now ttl = rw ((text_key.eqb_iff _ _).1 refl)
