-- ===== src/Signal/Daemon/Nonces.antt =====
-- The replay cache: what a recorded nonce refuses, and for how long.
use herdr_bridge.Prelude.{
  ℕ, ◌+◌, ◌≤◌, ◌≡◌, refl, Bool, true, false, [], ◌∷◌, ◌++◌, String, text_key, ltb, arith,
  Bool-cases, inl, inr, ◌⊎◌,
}
use herdr_bridge.Signal.Daemon.{Nonces, nonce_ttl, forget_expired, has_seen, check_and_record_nonce}

-- The cache holds the nonce until the time `exp` at least.
abbrev pub Holds : String → ℕ → Nonces → Type 0
Holds n exp [] = ◌≡◌ {A = Bool} true false
Holds n exp ((k, x) ∷ s) = ((k ≡ n) × (exp ≤ x)) ⊎ Holds n exp s

Holds-forget :
    (n : String) (exp now : ℕ) (s : Nonces)
    → now ≤ exp
    → Holds n exp s
    → Holds n exp (forget_expired now s)
unfolding forget_expired
Holds-forget n exp now [] le h = h
Holds-forget n exp now ((k, x) ∷ s) le (inr h) = elim (Bool-cases (ltb x now)) [
  | inl old ↦ rw old (Holds-forget n exp now s le h)
  | inr live ↦ rw live (inr (Holds-forget n exp now s le h))
]
Holds-forget n exp now ((k, x) ∷ s) le (inl (e, lx)) =
    let live : ltb x now ≡ false = ground arith in rw live (inl (e, lx))

Holds-append : (n : String) (exp : ℕ) (s s' : Nonces) → Holds n exp s → Holds n exp (s ++ s')
Holds-append n exp [] s' h = absurd (cc)
Holds-append n exp (x ∷ s) s' (inl h) = inl h
Holds-append n exp (x ∷ s) s' (inr h) = inr (Holds-append n exp s s' h)

Holds-added : (n : String) (exp : ℕ) (s : Nonces) → Holds n exp (s ++ (n, exp) ∷ [])
Holds-added n exp [] = inl (refl, omega arith)
Holds-added n exp (x ∷ s) = inr (Holds-added n exp s)

Holds-has_seen : (n : String) (exp : ℕ) (s : Nonces) → Holds n exp s → has_seen n s ≡ true
unfolding has_seen
Holds-has_seen n exp [] h = absurd (cc)
Holds-has_seen n exp ((k, x) ∷ s) (inl (e, l)) = ground (arith, text_key.eqb_iff k n)
Holds-has_seen n exp ((k, x) ∷ s) (inr h) = ground (arith, Holds-has_seen n exp s h)

-- Any later check, of any nonce, at a time up to `exp`, keeps the entry.
pub check-Holds :
    (n j : String) (exp now : ℕ) (s : Nonces)
    → now ≤ exp
    → Holds n exp s
    → Holds n exp (check_and_record_nonce now j s).1
unfolding check_and_record_nonce
check-Holds n j exp now s le h =
    let kept = Holds-forget n exp now s le h in
    elim (Bool-cases (has_seen j (forget_expired now s))) [
      | inl old ↦ rw old kept
      | inr new ↦ rw new (Holds-append n exp (forget_expired now s) _ kept)
    ]

-- A held nonce is refused.
pub Holds-refused :
    (n : String) (exp now : ℕ) (s : Nonces)
    → now ≤ exp
    → Holds n exp s
    → (check_and_record_nonce now n s).0 ≡ false
unfolding check_and_record_nonce
Holds-refused n exp now s le h =
    rw (Holds-has_seen n exp (forget_expired now s) (Holds-forget n exp now s le h))

-- A nonce that is accepted is held for the TTL of the cache.
pub check-accepted :
    (n : String) (now : ℕ) (s : Nonces)
    → (check_and_record_nonce now n s).0 ≡ true
    → Holds n (now + nonce_ttl) (check_and_record_nonce now n s).1
unfolding check_and_record_nonce
check-accepted n now s h = elim (Bool-cases (has_seen n (forget_expired now s))) [
  | inl old ↦ absurd (ground arith)
  | inr new ↦ rw new (Holds-added n (now + nonce_ttl) (forget_expired now s))
]
