-- ===== src/Signal/Envelope.antt =====
-- signal/envelope.py: the wake packet, its signature and its check. HMAC, SHA-256 and the JSON
-- encoder are not code of this repository: they are the parameters of `Crypto`.
pub mod Checks
use herdr_bridge.Prelude.{
  ℕ, ◌+◌, ◌*◌, Bool, Option, none, some, List, [], ◌∷◌, String, ◌==◌, text_key, Result, ok, raise,
  ltb, if◌then◌else◌,
}

pub record Envelope : Type 0 where
  pub from_project : String
  pub to_project : String
  pub inbox_ref : String
  pub kind : String
  pub sender_id : String
  pub message_id : String
  pub requires_processed_ack : Bool
  pub nonce : String
  pub timestamp : ℕ  -- milliseconds since the epoch
  pub sender_hostname : String
  pub hmac : String

-- A value of the signed dictionary.
pub data Scalar : Type 0 where
  text : String → Scalar
  flag : Bool → Scalar
  time : ℕ → Scalar

-- `mac secret d` is the hex digest of the HMAC of `json.dumps(d, sort_keys=True)`, and
-- `digest p r` that of the SHA-256 of "p:r".
pub record Crypto : Type 0 where
  pub mac : String → List (String × Scalar) → String
  pub digest : String → String → String

-- DEFAULT_TTL_SECONDS
abbrev pub default_ttl : ℕ
default_ttl = 60 * 1000

pub data Error : Type 0 where
  bad_hmac expired in_future : Error

module _ (c : Crypto) where
  abbrev pub idempotency_key : String → String → String
  idempotency_key to_project inbox_ref = c.digest to_project inbox_ref

  -- The keys stand in the order in which the encoder sorts them.
  unfoldable pub signing_payload : Envelope → List (String × Scalar)
  signing_payload e =
      ("from_project", text e.from_project)
      ∷ ("idempotency_key", text (idempotency_key e.to_project e.inbox_ref))
      ∷ ("inbox_ref", text e.inbox_ref)
      ∷ ("kind", text e.kind)
      ∷ ("message_id", text e.message_id)
      ∷ ("nonce", text e.nonce)
      ∷ ("requires_processed_ack", flag e.requires_processed_ack)
      ∷ ("sender_hostname", text e.sender_hostname)
      ∷ ("sender_id", text e.sender_id)
      ∷ ("timestamp", time e.timestamp)
      ∷ ("to_project", text e.to_project)
      ∷ []

  unfoldable pub signed : Envelope → String → Envelope
  signed e shared_secret = record e { hmac = c.mac shared_secret (signing_payload e) }

  -- `age > ttl` and `age < -ttl`, where `age` is `now - timestamp`, without the subtraction.
  unfoldable pub verify : Envelope → String → ℕ → ℕ → Result Error (Unit {0})
  verify e shared_secret now ttl =
      if c.mac shared_secret (signing_payload e) == e.hmac
      then if ltb (e.timestamp + ttl) now
        then raise expired
        else if ltb (now + ttl) e.timestamp
        then raise in_future
        else ok tt
      else raise bad_hmac
