-- ===== src/Table/Laws.antt =====
-- What a read finds after an upsert and after a sweep.
use herdr_bridge.Prelude.{
  ℕ, ◌≡◌, refl, true, Option, none, some, List, [], ◌∷◌, Key, ◌==◌, ltb, arith, if◌then◌else◌,
  Bool-cases, inl, inr,
}
use herdr_bridge.Table.Ops.{find, upsert, sweep}

-- What a sweep at time `now` leaves of a row that was found.
abbrev pub kept {ℓ} : {R : Type ℓ} → (R → ℕ) → ℕ → Option R → Option R
kept expires now none = none
kept expires now (some r) = if ltb (expires r) now then none else some r

-- What an upsert makes of the row that was found.
abbrev pub merged {ℓ} : {R : Type ℓ} → R → (R → R) → Option R → R
merged new merge none = new
merged new merge (some r) = merge r

module _ {ℓ κ} {K : Type κ} {R : Type ℓ} ⦃e : Key K⦄ (key : R → K) where
  -- No two rows have one key.
  abbrev pub IsKeyed : List R → Type ℓ
  IsKeyed [] = Unit
  IsKeyed (r ∷ t) = (find key (key r) t ≡ none) × IsKeyed t

  beq_self : (k : K) → (k == k) ≡ true
  beq_self k = (e.eqb_iff k k).1 refl

  pub find-upsert :
      (k : K) (new : R) (merge : R → R) (t : List R)
      → ((r : R) → key (merge r) ≡ key r)
      → find key k (upsert key new merge t)
        ≡ (if key new == k then some (merged new merge (find key k t)) else find key k t)
  unfolding find upsert
  find-upsert k new merge [] same = refl
  find-upsert k new merge (r ∷ t) same = ground (
    arith,
    same r,
    find-upsert k new merge t same,
    e.eqb_iff (key r) (key new),
    e.eqb_iff (key r) k,
    e.eqb_iff (key new) k,
  )

  pub find-key : (k : K) (t : List R) (r : R) → find key k t ≡ some r → key r ≡ k
  unfolding find
  find-key k [] x h = ground arith
  find-key k (r ∷ t) x h = ground (arith, e.eqb_iff (key r) k, find-key k t x)

module _ {ℓ κ} {K : Type κ} {R : Type ℓ} ⦃e : Key K⦄ (key : R → K) (expires : R → ℕ) where
  find-sweep_of_none :
      (k : K) (now : ℕ) (t : List R) → find key k t ≡ none → find key k (sweep expires now t) ≡ none
  unfolding find sweep
  find-sweep_of_none k now [] h = refl
  find-sweep_of_none k now (r ∷ t) h = ground (arith, find-sweep_of_none k now t)

  pub find-sweep :
      (k : K) (now : ℕ) (t : List R)
      → IsKeyed key t
      → find key k (sweep expires now t) ≡ kept expires now (find key k t)
  unfolding find sweep
  find-sweep k now [] u = refl
  find-sweep k now (r ∷ t) u =
      ground
        (arith, e.eqb_iff (key r) k, find-sweep k now t u.1, find-sweep_of_none (key r) now t u.0)

  -- A sweep keeps the primary key.
  pub sweep-IsKeyed : (now : ℕ) (t : List R) → IsKeyed key t → IsKeyed key (sweep expires now t)
  unfolding sweep
  sweep-IsKeyed now [] u = u
  sweep-IsKeyed now (r ∷ t) u = elim (Bool-cases (ltb (expires r) now)) [
    | inl old ↦ rw old (sweep-IsKeyed now t u.1)
    | inr live ↦ rw live (find-sweep_of_none (key r) now t u.0, sweep-IsKeyed now t u.1)
  ]

module _ {ℓ κ} {K : Type κ} {R : Type ℓ} ⦃e : Key K⦄ (key : R → K) where
  -- An upsert keeps the primary key.
  pub upsert-IsKeyed :
      (new : R) (merge : R → R) (t : List R)
      → ((r : R) → key (merge r) ≡ key r)
      → IsKeyed key t
      → IsKeyed key (upsert key new merge t)
  unfolding upsert find
  upsert-IsKeyed new merge [] same u = (refl, tt)
  upsert-IsKeyed new merge (r ∷ t) same u = elim (Bool-cases (key r == key new)) [
    | inl hit ↦ rw hit (ground (arith, same r), u.1)
    | inr miss ↦ rw miss (
      ground (
        arith,
        find-upsert key (key r) new merge t same,
        e.eqb_iff (key new) (key r),
        e.eqb_iff (key r) (key new),
      ),
      upsert-IsKeyed new merge t same u.1,
    )
  ]
