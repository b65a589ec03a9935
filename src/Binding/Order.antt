-- ===== src/Binding/Order.antt =====
-- The order of the texts that acp/binding.py compares.
use Prim.Native.Nat.{Ordering, compare as compare_ℕ}
use Prim.Native.Char.{Char, code}
use Prim.Native.String.compare
use Prim.Native.String.{String, [], ◌∷◌, compare, then}
use herdr_bridge.Prelude.{
  ℕ, ◌≡◌, refl, sym, ap, ◌∙◌, Bool, Bool-cases, true, false, ◌&&◌, ◌||◌, ltb, nat_eq, ◌⊎◌, inl, inr,
  arith,
}

abbrev pub is_before : Ordering → Bool
is_before Ordering.lt = true
is_before _ = false

abbrev pub earlier : String → String → Bool
earlier s t = is_before (compare s t)

is_level : Ordering → Bool
is_level Ordering.eq = true
is_level _ = false

-- The first characters decide, and the rest where they are equal.
abbrev first_decides : ℕ → ℕ → Bool → Bool
first_decides m n rest = ltb m n || (nat_eq m n && rest)

then-before : (o r : Ordering) → is_before (then o r) ≡ (is_before o || (is_level o && is_before r))
unfolding is_level
then-before Ordering.lt r = refl
then-before Ordering.eq r = refl
then-before Ordering.gt r = refl

codes-before :
    (m n : ℕ) (b : Bool)
    → (is_before (compare_ℕ m n) || (is_level (compare_ℕ m n) && b)) ≡ first_decides m n b
unfolding is_level
codes-before m n b = ground arith

earlier-cons :
    (c d : Char) (s t : String)
    → earlier (c ∷ s) (d ∷ t) ≡ first_decides (code c) (code d) (earlier s t)
earlier-cons c d s t =
    ap is_before (compare.cons-cons c d s t)
    ∙ then-before (compare_ℕ (code c) (code d)) (compare s t)
    ∙ codes-before (code c) (code d) (earlier s t)

first_between :
    (l m n : ℕ) (a b c : Bool)
    → (c ≡ true → (a ≡ true) ⊎ (b ≡ true))
    → first_decides l n c ≡ true
    → (first_decides l m a ≡ true) ⊎ (first_decides m n b ≡ true)
first_between l m n true b c f h = elim (Bool-cases (first_decides l m true)) [
  | inl e ↦ inl e
  | inr e ↦ inr (ground (arith, e, h))
]
first_between l m n false true c f h = elim (Bool-cases (first_decides m n true)) [
  | inl e ↦ inr e
  | inr e ↦ inl (ground (arith, e, h))
]
first_between l m n false false true f h = elim (f refl) [
  | inl e ↦ absurd (ground (arith, e))
  | inr e ↦ absurd (ground (arith, e))
]
first_between l m n false false false f h = elim (Bool-cases (ltb l m)) [
  | inl e ↦ inl (ground (arith, e))
  | inr e ↦ inr (ground (arith, e, h))
]

-- Of two texts in order, any third one is after the first or before the second.
pub earlier_between :
    (s t u : String) → earlier s u ≡ true → (earlier s t ≡ true) ⊎ (earlier t u ≡ true)
earlier_between [] [] u h = inr h
earlier_between [] (d ∷ t) u h = inl (ap is_before (compare.nil-cons d t))
earlier_between (c ∷ s) t [] h =
    absurd (ground (arith, sym h ∙ ap is_before (compare.cons-nil c s)))
earlier_between (c ∷ s) [] (e ∷ u) h = inr (ap is_before (compare.nil-cons e u))
earlier_between (c ∷ s) (d ∷ t) (e ∷ u) h =
    elim (first_between (code c) (code d) (code e) (earlier s t) (earlier t u) (earlier s u)
      (earlier_between s t u) (sym (earlier-cons c e s u) ∙ h)) [
        | inl a ↦ inl (earlier-cons c d s t ∙ a)
        | inr b ↦ inr (earlier-cons d e t u ∙ b)
      ]

-- No two texts are each before the other.
pub earlier_once : (s t : String) → earlier s t ≡ true → earlier t s ≡ false
earlier_once [] [] h = absurd (ground (arith, sym h ∙ ap is_before compare.nil-nil))
earlier_once [] (d ∷ t) h = ap is_before (compare.cons-nil d t)
earlier_once (c ∷ s) [] h = absurd (ground (arith, sym h ∙ ap is_before (compare.cons-nil c s)))
earlier_once (c ∷ s) (d ∷ t) h =
    earlier-cons d c t s
    ∙ swapped (code c) (code d) (earlier s t) (earlier t s) (earlier_once s t)
        (sym (earlier-cons c d s t) ∙ h)
  where
    swapped :
        (m n : ℕ) (a b : Bool)
        → (a ≡ true → b ≡ false)
        → first_decides m n a ≡ true
        → first_decides n m b ≡ false
    swapped m n true b f h = ground (arith, h, f refl)
    swapped m n false b f h = ground (arith, h)
