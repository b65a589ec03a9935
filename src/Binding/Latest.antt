-- ===== src/Binding/Latest.antt =====
-- The latest of the entries of the ledger in acp/binding.py that pass a test.
use mathlib.Core.Path.{subst}
use herdr_bridge.Prelude.{
  ◌≡◌, refl, sym, ap, ◌∙◌, Bool, true, Option, none, some, [], ◌∷◌, String, false, Bool-cases, inl,
  inr, All, Any, arith,
}
use Prim.Native.Nat.{Ordering}
use Prim.Native.String.{compare}
use herdr_bridge.Binding.Order.{is_before, earlier, earlier_between, earlier_once}
use herdr_bridge.Binding.{LedgerEntry, Ledger, matching, is_later, latest_from, latest}

-- An entry of the ledger for which the test holds.
abbrev pub IsFound : (LedgerEntry → Bool) → Ledger → LedgerEntry → Type 0
IsFound test ledger e = Any (λ x. x ≡ e) ledger × (test e ≡ true)

skip_second :
    (P : LedgerEntry → Type 0) (a b : LedgerEntry) (ledger : Ledger)
    → Any P (a ∷ ledger)
    → Any P (a ∷ b ∷ ledger)
skip_second P a b ledger (inl p) = inl p
skip_second P a b ledger (inr q) = inr (inr q)

latest_from-Any :
    (best : LedgerEntry) (ledger : Ledger) → Any (λ x. x ≡ latest_from best ledger) (best ∷ ledger)
latest_from-Any best [] = inl refl
latest_from-Any best (e ∷ ledger) = elim (Bool-cases (is_later e best)) [
  | inl l ↦
      let same : latest_from best (e ∷ ledger) ≡ latest_from e ledger = rw l refl in
      inr (subst (λ z. Any (λ x. x ≡ z) (e ∷ ledger)) (sym same) (latest_from-Any e ledger))
  | inr l ↦
      let same : latest_from best (e ∷ ledger) ≡ latest_from best ledger = rw l refl in
      subst (λ z. Any (λ x. x ≡ z) (best ∷ e ∷ ledger)) (sym same)
        (skip_second (λ x. x ≡ latest_from best ledger) best e ledger (latest_from-Any best ledger))
]

matching-IsFound :
    (test : LedgerEntry → Bool) (ledger : Ledger) (e : LedgerEntry)
    → Any (λ x. x ≡ e) (matching test ledger)
    → IsFound test ledger e
matching-IsFound test [] e m = elim m [ ]
matching-IsFound test (x ∷ ledger) e m = elim (Bool-cases (test x)) [
  | inl t ↦
      let same : matching test (x ∷ ledger) ≡ x ∷ matching test ledger = rw t refl in
      elim (subst (Any (λ y. y ≡ e)) same m) [
        | inl p ↦ (inl p, ap test (sym p) ∙ t)
        | inr q ↦ let found = matching-IsFound test ledger e q in (inr found.0, found.1)
      ]
  | inr t ↦
      let same : matching test (x ∷ ledger) ≡ matching test ledger = rw t refl in
      let found = matching-IsFound test ledger e (subst (Any (λ y. y ≡ e)) same m) in
      (inr found.0, found.1)
]

later_before : (a b : LedgerEntry) → is_later a b ≡ earlier b.dispatched_at a.dispatched_at
later_before a b = by_order (compare b.dispatched_at a.dispatched_at)
  where
    by_order : (o : Ordering) → (elim o [ Ordering.lt ↦ true | _ ↦ false ]) ≡ is_before o
    by_order Ordering.lt = refl
    by_order Ordering.eq = refl
    by_order Ordering.gt = refl

-- No entry is dispatched later than this one.
abbrev IsLast : LedgerEntry → Ledger → Type 0
IsLast r ledger = All (λ x. earlier r.dispatched_at x.dispatched_at ≡ false) ledger

last_self : (s : String) → earlier s s ≡ false
last_self s = elim (Bool-cases (earlier s s)) [ inl e ↦ earlier_once s s e | inr e ↦ e ]

-- What is after the one of two texts that is not before the other is after both.
last_of_two : (r s t : String) → earlier s t ≡ true → earlier r t ≡ false → earlier r s ≡ false
last_of_two r s t h k = elim (Bool-cases (earlier r s)) [
  | inl e ↦ elim (earlier_between r t s e) [
    | inl a ↦ absurd (cc (a, k))
    | inr b ↦ absurd (cc (b, earlier_once s t h))
  ]
  | inr e ↦ e
]

last_of_equal : (r s t : String) → earlier s t ≡ false → earlier r s ≡ false → earlier r t ≡ false
last_of_equal r s t h k = elim (Bool-cases (earlier r t)) [
  | inl e ↦ elim (earlier_between r s t e) [
    | inl a ↦ absurd (cc (a, k))
    | inr b ↦ absurd (cc (b, h))
  ]
  | inr e ↦ e
]

latest_from-IsLast :
    (best : LedgerEntry) (ledger : Ledger) → IsLast (latest_from best ledger) (best ∷ ledger)
latest_from-IsLast best [] = (last_self best.dispatched_at, tt)
latest_from-IsLast best (e ∷ ledger) = elim (Bool-cases (is_later e best)) [
  | inl l ↦
      let rest = latest_from-IsLast e ledger in
      let same : latest_from best (e ∷ ledger) ≡ latest_from e ledger = rw l refl in
      subst (λ z. IsLast z (best ∷ e ∷ ledger)) (sym same)
        (
          last_of_two (latest_from e ledger).dispatched_at best.dispatched_at e.dispatched_at
              (sym (later_before e best) ∙ l) rest.0,
          rest,
        )
  | inr l ↦
      let rest = latest_from-IsLast best ledger in
      let same : latest_from best (e ∷ ledger) ≡ latest_from best ledger = rw l refl in
      subst (λ z. IsLast z (best ∷ e ∷ ledger)) (sym same)
        (
          rest.0,
          (
            last_of_equal (latest_from best ledger).dispatched_at best.dispatched_at e.dispatched_at
                (sym (later_before e best) ∙ l) rest.0,
            rest.1,
          ),
        )
]

-- No entry that passes the test is dispatched later than this one.
abbrev pub IsLastOf : (LedgerEntry → Bool) → LedgerEntry → Ledger → Type 0
IsLastOf test r ledger =
    All (λ x. test x ≡ true → earlier r.dispatched_at x.dispatched_at ≡ false) ledger

matching-IsLastOf :
    (test : LedgerEntry → Bool) (r : LedgerEntry) (ledger : Ledger)
    → IsLast r (matching test ledger)
    → IsLastOf test r ledger
matching-IsLastOf test r [] h = tt
matching-IsLastOf test r (x ∷ ledger) h = elim (Bool-cases (test x)) [
  | inl t ↦
      let same : matching test (x ∷ ledger) ≡ x ∷ matching test ledger = rw t refl in
      let k = subst (IsLast r) same h in ((λ p. k.0), matching-IsLastOf test r ledger k.1)
  | inr t ↦
      let same : matching test (x ∷ ledger) ≡ matching test ledger = rw t refl in
      ((λ p. absurd (cc (p, t))), matching-IsLastOf test r ledger (subst (IsLast r) same h))
]

abbrev entry_or : LedgerEntry → Option LedgerEntry → LedgerEntry
entry_or default none = default
entry_or default (some e) = e

pub latest-IsFound :
    (test : LedgerEntry → Bool) (ledger found : Ledger) (e : LedgerEntry)
    → matching test ledger ≡ found
    → latest found ≡ some e
    → IsFound test ledger e
latest-IsFound test ledger [] e f h = absurd (ground (arith, h))
latest-IsFound test ledger (x ∷ found) e f h =
    let is : latest_from x found ≡ e = ap (entry_or x) h in
    matching-IsFound test ledger e (
      subst (Any (λ y. y ≡ e)) (sym f)
        (subst (λ z. Any (λ y. y ≡ z) (x ∷ found)) is (latest_from-Any x found)))

pub latest-IsLastOf :
    (test : LedgerEntry → Bool) (ledger found : Ledger) (e : LedgerEntry)
    → matching test ledger ≡ found
    → latest found ≡ some e
    → IsLastOf test e ledger
latest-IsLastOf test ledger [] e f h = absurd (ground (arith, h))
latest-IsLastOf test ledger (x ∷ found) e f h = matching-IsLastOf test e ledger (
    subst (IsLast e) (sym f)
      (subst (λ z. IsLast z (x ∷ found)) (ap (entry_or x) h) (latest_from-IsLast x found)))
