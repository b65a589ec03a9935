-- ===== src/Signal/Store/Writes.antt =====
-- What `read_state` finds after `write_state`.
use herdr_bridge.Prelude.{
  ℕ, ◌≡◌, refl, true, false, Option, none, some, String, ◌==◌, text_key, ltb, arith, if◌then◌else◌,
}
use herdr_bridge.Table.{
  IsKeyed, kept, merged, find-upsert, find-sweep, sweep-IsKeyed, upsert-IsKeyed,
}
use herdr_bridge.Signal.Store.{
  Row, Rows, Fields, inserted, updated, row_key, row_expiry, write_state, read_state,
}

abbrev pub IsTable : Rows → Type 0
IsTable t = IsKeyed row_key t

-- The row that a write leaves under its key, from the row that was there.
abbrev pub written : ℕ → ℕ → String → Fields → Option Row → Row
written now ttl m f old = let new = inserted now ttl m f in merged new (updated new) old

written_stays :
    (now ttl : ℕ) (m : String) (f : Fields) (old : Option Row)
    → ltb (written now ttl m f old).expires_at now ≡ false
written_stays now ttl m f none = ground arith
written_stays now ttl m f (some r) = ground arith

pub state-written :
    (now ttl : ℕ) (m : String) (f : Fields) (old : Option Row)
    → (written now ttl m f old).state ≡ f.state
state-written now ttl m f none = refl
state-written now ttl m f (some r) = refl

-- After a write, a read of the key that was written finds the merged row, and a read of any other
-- key finds what it found before, unless that row has expired.
pub read-write :
    (now ttl : ℕ) (m k : String) (f : Fields) (t : Rows)
    → IsTable t
    → read_state k (write_state now ttl m f t) ≡ (
        if m == k
        then some (written now ttl m f (read_state m t))
        else kept row_expiry now (read_state k t))
unfolding write_state
read-write now ttl m k f t u =
    let new = inserted now ttl m f in
    rw
      (find-sweep row_key row_expiry k now _
        (upsert-IsKeyed row_key new (updated new) t (λ r. refl) u))
      (rw (find-upsert row_key k new (updated new) t (λ r. refl))
        (ground (arith, text_key.eqb_iff m k, written_stays now ttl m f (read_state m t))))

-- A write keeps `message_id` a primary key.
pub write_state-IsTable :
    (now ttl : ℕ) (m : String) (f : Fields) (t : Rows)
    → IsTable t
    → IsTable (write_state now ttl m f t)
unfolding write_state
write_state-IsTable now ttl m f t u =
    let new = inserted now ttl m f in
    sweep-IsKeyed row_key row_expiry now _
      (upsert-IsKeyed row_key new (updated new) t (λ r. refl) u)

pub text_key_self : (m : String) → (m == m) ≡ true
text_key_self m = (text_key.eqb_iff m m).1 refl

pub read-write_self :
    (now ttl : ℕ) (m : String) (f : Fields) (t : Rows)
    → IsTable t
    → read_state m (write_state now ttl m f t) ≡ some (written now ttl m f (read_state m t))
read-write_self now ttl m f t u = rw (read-write now ttl m m f t u) (rw (text_key_self m))

-- The three timestamps are sticky, and the columns that name the message are written once.
abbrev pub KeepsStamps : Row → Row → Type 0
KeepsStamps old new =
    ((a : ℕ) → old.accepted_at ≡ some a → (b : ℕ) × (new.accepted_at ≡ some b))
    × ((a : ℕ) → old.injected_at ≡ some a → (b : ℕ) × (new.injected_at ≡ some b))
    × ((a : ℕ) → old.seen_at ≡ some a → (b : ℕ) × (new.seen_at ≡ some b))
    × (new.created_at ≡ old.created_at)
    × (new.from_project ≡ old.from_project)
    × (new.to_project ≡ old.to_project)
    × (new.inbox_ref ≡ old.inbox_ref)
