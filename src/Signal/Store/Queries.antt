-- ===== src/Signal/Store/Queries.antt =====
-- What the two queries that order rows by time return.
use herdr_bridge.Prelude.{
  ℕ, ◌≤◌, ◌+◌, ◌≢◌, ◌↔◌, text_key, ◌≡◌, refl, Bool, true, false, Option, none, some, [], ◌∷◌,
  String, arith, All, All-map, Bool-cases, inl, inr, take, ltb,
}
use herdr_bridge.Signal.State.{completed, same_iff}
use herdr_bridge.Signal.Store.{
  Row, Rows, is_active, newer, latest, find_active_by_target, or_empty, insert_desc, sort_desc,
  list_recent,
}
use mathlib.Core.List.Perm
use mathlib.Core.Path.{subst}
use mathlib.Core.List.{Perm, Memᴰ}

-- A row of a message to the target that is not completed, was updated within the timeout and is not the
-- excluded one.
pub record IsInFlight (now timeout : ℕ) (to_project inbox_ref exclude : String) (r : Row)
    : Type 0 where
  pub to_same_project : r.to_project ≡ to_project
  pub to_same_inbox : r.inbox_ref ≡ inbox_ref
  pub not_completed : r.state ≢ completed
  pub is_recent : now ≤ r.updated_at + timeout
  pub not_excluded : r.message_id ≢ exclude

differs {ℓ} : {A : Type ℓ} {a b : A} (t : Bool) → (t ≡ true) ↔ (a ≡ b) → a ≢ b → t ≡ false
differs true i n = absurd (n (i.0 refl))
differs false i n = refl

active_iff :
    (now timeout : ℕ) (to_project inbox_ref exclude : String) (r : Row)
    → (is_active now timeout to_project inbox_ref exclude r ≡ true)
      ↔ IsInFlight now timeout to_project inbox_ref exclude r
active_iff now timeout to_project inbox_ref exclude r = (
  (λ h. record {
    to_same_project = (text_key.eqb_iff r.to_project to_project).0 (ground (arith, h));
    to_same_inbox = (text_key.eqb_iff r.inbox_ref inbox_ref).0 (ground (arith, h));
    not_completed = λ e. absurd (ground (arith, h, (same_iff r.state completed).1 e));
    is_recent = ground (arith, h);
    not_excluded = λ e. absurd (ground (arith, h, (text_key.eqb_iff r.message_id exclude).1 e));
  }),
  (λ a. ground (
    arith,
    (text_key.eqb_iff r.to_project to_project).1 a.to_same_project,
    (text_key.eqb_iff r.inbox_ref inbox_ref).1 a.to_same_inbox,
    differs _ (same_iff r.state completed) a.not_completed,
    a.is_recent,
    differs _ (text_key.eqb_iff r.message_id exclude) a.not_excluded,
  )),
)

-- The newest of the rows in flight, or none where there is none.
abbrev pub IsNewestInFlight : (Row → Type 0) → Rows → Option Row → Type 0
IsNewestInFlight P t none = All (λ x. ¬ P x) t
IsNewestInFlight P t (some r) = Memᴰ r t × P r × All (λ x. P x → x.updated_at ≤ r.updated_at) t

-- `latest p t ≡ some r` says that `r` is a row that passes the test, and none that passes is newer.
abbrev pub IsNewest : (Row → Bool) → Rows → Option Row → Type 0
IsNewest p t none = All (λ x. p x ≡ false) t
IsNewest p t (some r) =
    Memᴰ r t × (p r ≡ true) × All (λ x. p x ≡ true → x.updated_at ≤ r.updated_at) t

IsNewest-add :
    (p : Row → Bool) (r : Row) (t : Rows) (best : Option Row)
    → p r ≡ true
    → IsNewest p t best
    → IsNewest p (r ∷ t) (some (newer r best))
IsNewest-add p r t none e h =
    (Memᴰ.head refl, e, ((λ _. omega arith), All-map t (λ x no_pass pass. absurd (cc)) h))
IsNewest-add p r t (some b) e (m, pb, top) = elim (Bool-cases (ltb r.updated_at b.updated_at)) [
  | inl older ↦
      let keep : b ≡ newer r (some b) = rw older in
      subst (λ n. IsNewest p (r ∷ t) (some n)) keep (Memᴰ.tail m, pb, ((λ _. ground arith), top))
  | inr newest ↦
      let take_new : r ≡ newer r (some b) = rw newest in
      subst (λ n. IsNewest p (r ∷ t) (some n)) take_new
        (
          Memᴰ.head refl,
          e,
          ((λ _. omega arith), All-map t (λ x le pass. ground (arith, le pass)) top),
        )
]

IsNewest-skip :
    (p : Row → Bool) (r : Row) (t : Rows) (best : Option Row)
    → p r ≡ false
    → IsNewest p t best
    → IsNewest p (r ∷ t) best
IsNewest-skip p r t none e h = (e, h)
IsNewest-skip p r t (some b) e (m, pb, top) = (Memᴰ.tail m, pb, ((λ pass. absurd (cc)), top))

latest-IsNewest : (p : Row → Bool) (t : Rows) → IsNewest p t (latest p t)
unfolding latest
latest-IsNewest p [] = tt
latest-IsNewest p (r ∷ t) = elim (Bool-cases (p r)) [
  | inl pass ↦ rw pass (IsNewest-add p r t (latest p t) pass (latest-IsNewest p t))
  | inr fail ↦ rw fail (IsNewest-skip p r t (latest p t) fail (latest-IsNewest p t))
]

IsNewest-IsNewestInFlight :
    (p : Row → Bool) (P : Row → Type 0)
    → ((r : Row) → (p r ≡ true) ↔ P r)
    → (t : Rows) (o : Option Row) → IsNewest p t o
    → IsNewestInFlight P t o
IsNewest-IsNewestInFlight p P i t none h =
    All-map t (λ x no_pass a. absurd (ground (arith, no_pass, (i x).1 a))) h
IsNewest-IsNewestInFlight p P i t (some r) h =
    (h.0, (i r).0 h.1, All-map t (λ x le a. le ((i x).1 a)) h.2)

-- The search for a message in flight returns a row of the table that is to the same target, is not
-- completed, was updated within the timeout and is not the excluded message, and no such row is
-- newer; it returns none exactly when there is no such row.
pub find_active_by_target-IsNewest :
    (now timeout : ℕ) (to_project inbox_ref : String) (exclude : Option String) (t : Rows)
    → IsNewestInFlight
        (IsInFlight now timeout to_project inbox_ref (or_empty exclude))
        t
        (find_active_by_target now timeout to_project inbox_ref exclude t)
unfolding find_active_by_target
find_active_by_target-IsNewest now timeout to_project inbox_ref exclude t =
    IsNewest-IsNewestInFlight (is_active now timeout to_project inbox_ref (or_empty exclude)) _
      (active_iff now timeout to_project inbox_ref (or_empty exclude)) t _ (latest-IsNewest _ t)

-- Every row is at least as new as those below it.
abbrev pub IsDescending : Rows → Type 0
IsDescending [] = Unit
IsDescending (r ∷ t) = All (λ x. x.updated_at ≤ r.updated_at) t × IsDescending t

All-insert_desc : (P : Row → Type 0) (r : Row) (t : Rows) → P r → All P t → All P (insert_desc r t)
unfolding insert_desc
All-insert_desc P r [] h a = (h, tt)
All-insert_desc P r (x ∷ t) h a = elim (Bool-cases (ltb r.updated_at x.updated_at)) [
  | inl below ↦ rw below (a.0, All-insert_desc P r t h a.1)
  | inr above ↦ rw above (h, a)
]

insert_desc-IsDescending : (r : Row) (t : Rows) → IsDescending t → IsDescending (insert_desc r t)
unfolding insert_desc
insert_desc-IsDescending r [] d = (tt, tt)
insert_desc-IsDescending r (x ∷ t) d = elim (Bool-cases (ltb r.updated_at x.updated_at)) [
  | inl below ↦
      rw below (All-insert_desc _ r t (ground arith) d.0, insert_desc-IsDescending r t d.1)
  | inr above ↦ rw above ((ground arith, All-map t (λ y le. ground arith) d.0), d)
]

insert_desc-perm : (r : Row) (t : Rows) → Perm (insert_desc r t) (r ∷ t)
unfolding insert_desc
insert_desc-perm r [] = Perm.refl (r ∷ [])
insert_desc-perm r (x ∷ t) = elim (Bool-cases (ltb r.updated_at x.updated_at)) [
  | inl below ↦ rw below (Perm.trans (Perm.cons x (insert_desc-perm r t)) (Perm.swap r x t))
  | inr above ↦ rw above (Perm.refl (r ∷ x ∷ t))
]

sort_desc-perm : (t : Rows) → Perm (sort_desc t) t
unfolding sort_desc
sort_desc-perm [] = Perm.refl []
sort_desc-perm (r ∷ t) =
    Perm.trans (insert_desc-perm r (sort_desc t)) (Perm.cons r (sort_desc-perm t))

sort_desc-IsDescending : (t : Rows) → IsDescending (sort_desc t)
unfolding sort_desc
sort_desc-IsDescending [] = tt
sort_desc-IsDescending (r ∷ t) = insert_desc-IsDescending r (sort_desc t) (sort_desc-IsDescending t)

-- The recent records are the first `limit` rows of an arrangement of the whole table in which every
-- row is at least as new as those behind it.
pub list_recent-IsDescending :
    (limit : ℕ) (t : Rows)
    → (s : Rows) × Perm s t × IsDescending s × (list_recent limit t ≡ take limit s)
unfolding list_recent
list_recent-IsDescending limit t = (sort_desc t, sort_desc-perm t, sort_desc-IsDescending t, refl)
