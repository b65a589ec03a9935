-- ===== src/Signal/Store/History.antt =====
-- What a row of signal_state_store.py says of the writes of its message.
use herdr_bridge.Prelude.{
  ℕ, ◌+◌, ◌≤◌, ◌≡◌, refl, ap, ◌∙◌, Bool-cases, inl, inr, Option, none, some, List, [], ◌∷◌, String,
  ◌==◌, text_key, All, arith, if◌then◌else◌,
}
use herdr_bridge.Table.{kept}
use herdr_bridge.Signal.Store.{
  Row, Rows, Fields, coalesce, or_zero, row_expiry, write_state, read_state,
}
use herdr_bridge.Signal.Store.Writes.{IsTable, written, read-write, write_state-IsTable}

-- A call of `write_state`.
pub record Write : Type 0 where
  pub message : String
  pub now : ℕ
  pub fields : Fields

-- The table after some writes, the newest first.
abbrev pub write_all : ℕ → List Write → Rows
write_all ttl [] = []
write_all ttl (w ∷ l) = write_state w.now ttl w.message w.fields (write_all ttl l)

abbrev pub writes_of : String → List Write → List Write
writes_of m [] = []
writes_of m (w ∷ l) = let rest = writes_of m l in if w.message == m then w ∷ rest else rest

abbrev pub oldest : Write → List Write → Write
oldest w [] = w
oldest w (v ∷ l) = oldest v l

abbrev pub given_or : Option ℕ → Option ℕ → Option ℕ
given_or (some n) later = some n
given_or none later = later

-- The value of the newest write that has one.
abbrev pub newest_given : (Fields → Option ℕ) → List Write → Option ℕ
newest_given f [] = none
newest_given f (w ∷ l) = given_or (f w.fields) (newest_given f l)

abbrev pub or_nought : Option ℕ → ℕ
or_nought none = 0
or_nought (some n) = n

-- The row that the writes of one message make, the newest first.
abbrev pub summary : ℕ → String → List Write → Option Row
summary ttl m [] = none
summary ttl m (w ∷ l) = some (record {
  message_id = m;
  from_project = (oldest w l).fields.from_project;
  to_project = (oldest w l).fields.to_project;
  inbox_ref = (oldest w l).fields.inbox_ref;
  state = w.fields.state;
  attempt_count = or_nought w.fields.attempt_count;
  accepted_at = newest_given (λ f. f.accepted_at) (w ∷ l);
  injected_at = newest_given (λ f. f.injected_at) (w ∷ l);
  seen_at = newest_given (λ f. f.seen_at) (w ∷ l);
  created_at = (oldest w l).now;
  updated_at = w.now;
  expires_at = w.now + ttl;
})

coalesce-given : (a b : Option ℕ) → coalesce a b ≡ given_or a b
coalesce-given none b = refl
coalesce-given (some a) b = refl

alone-given : (a : Option ℕ) → a ≡ given_or a none
alone-given none = refl
alone-given (some a) = refl

zero-nought : (a : Option ℕ) → or_zero a ≡ or_nought a
zero-nought none = refl
zero-nought (some a) = refl

written-summary :
    (ttl : ℕ) (m : String) (w : Write) (l : List Write)
    → some (written w.now ttl m w.fields (summary ttl m l)) ≡ summary ttl m (w ∷ l)
written-summary ttl m w [] = λ i. some (record {
  message_id = m;
  from_project = w.fields.from_project;
  to_project = w.fields.to_project;
  inbox_ref = w.fields.inbox_ref;
  state = w.fields.state;
  attempt_count = zero-nought w.fields.attempt_count i;
  accepted_at = alone-given w.fields.accepted_at i;
  injected_at = alone-given w.fields.injected_at i;
  seen_at = alone-given w.fields.seen_at i;
  created_at = w.now;
  updated_at = w.now;
  expires_at = w.now + ttl;
})
written-summary ttl m w (v ∷ l) = λ i. some (record {
  message_id = m;
  from_project = (oldest v l).fields.from_project;
  to_project = (oldest v l).fields.to_project;
  inbox_ref = (oldest v l).fields.inbox_ref;
  state = w.fields.state;
  attempt_count = zero-nought w.fields.attempt_count i;
  accepted_at = coalesce-given w.fields.accepted_at (newest_given (λ f. f.accepted_at) (v ∷ l)) i;
  injected_at = coalesce-given w.fields.injected_at (newest_given (λ f. f.injected_at) (v ∷ l)) i;
  seen_at = coalesce-given w.fields.seen_at (newest_given (λ f. f.seen_at) (v ∷ l)) i;
  created_at = (oldest v l).now;
  updated_at = w.now;
  expires_at = w.now + ttl;
})

-- The clocks of the writes lie in one lifetime of a row.
abbrev pub InLifetime : ℕ → ℕ → List Write → Type 0
InLifetime last ttl l = All (λ w. (w.now ≤ last) × (last ≤ w.now + ttl)) l

InLifetime-writes_of :
    (last ttl : ℕ) (m : String) (l : List Write)
    → InLifetime last ttl l
    → InLifetime last ttl (writes_of m l)
InLifetime-writes_of last ttl m [] h = tt
InLifetime-writes_of last ttl m (w ∷ l) h = elim (Bool-cases (w.message == m)) [
  | inl e ↦ rw e (h.0, InLifetime-writes_of last ttl m l h.1)
  | inr e ↦ rw e (InLifetime-writes_of last ttl m l h.1)
]

summary-kept :
    (last ttl now : ℕ) (m : String) (l : List Write)
    → InLifetime last ttl l
    → now ≤ last
    → kept row_expiry now (summary ttl m l) ≡ summary ttl m l
summary-kept last ttl now m [] h le = refl
summary-kept last ttl now m (w ∷ l) h le = ground (arith, h.0, le)

write_all-IsTable : (ttl : ℕ) (l : List Write) → IsTable (write_all ttl l)
write_all-IsTable ttl [] = tt
write_all-IsTable ttl (w ∷ l) =
    write_state-IsTable w.now ttl w.message w.fields (write_all ttl l) (write_all-IsTable ttl l)

-- After any writes of any messages, in whatever order their clocks are, within one lifetime of a row, the
-- row of a message has the state, the count and the times of its newest write, the projects, the inbox and
-- the creation time of its oldest, and each of the three stamps from the newest write that gave it. A
-- message that was never written has no row.
pub read-write_all :
    (last ttl : ℕ) (m : String) (l : List Write)
    → InLifetime last ttl l
    → read_state m (write_all ttl l) ≡ summary ttl m (writes_of m l)
unfolding herdr_bridge.Table.find
read-write_all last ttl m [] h = refl
read-write_all last ttl m (w ∷ l) h =
    let t = write_all ttl l in
    let before = read-write_all last ttl m l h.1 in
    let here = read-write w.now ttl w.message m w.fields t (write_all-IsTable ttl l) in
    elim (Bool-cases (w.message == m)) [
      | inl e ↦
          let same = (text_key.eqb_iff w.message m).0 e in
          let row : some (written w.now ttl w.message w.fields (read_state w.message t))
              ≡ some (written w.now ttl m w.fields (read_state m t)) =
            λ i. some (written w.now ttl (same i) w.fields (read_state (same i) t)) in
          here
          ∙ rw e (
              row
              ∙ ap (λ o. some (written w.now ttl m w.fields o)) before
              ∙ written-summary ttl m w (writes_of m l))
      | inr e ↦
          here
          ∙ rw e (
              ap (kept row_expiry w.now) before
              ∙ summary-kept last ttl w.now m (writes_of m l)
                  (InLifetime-writes_of last ttl m l h.1) h.0.0)
    ]
