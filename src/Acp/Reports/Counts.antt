-- ===== src/Acp/Reports/Counts.antt =====
-- How many entries a dictionary of acp/router.py's reports has after a sweep.
use herdr_bridge.Prelude.{
  ℕ, zero, suc, ◌≤◌, ◌≡◌, refl, ap, ◌∙◌, Bool, true, false, none, some, [], ◌∷◌, String, ◌==◌,
  text_key, leb, length, take, if◌then◌else◌, arith,
}
use herdr_bridge.Tasks.Dict.{Dict, get, put, pop, get-put, get-pop, IsDict}
use herdr_bridge.Acp.Reports.{insert_by_time, by_time}

module _ {V : Type 0} where
  put_next-IsDict :
      (k j : String) (v w : V) (d : Dict V) (b : Bool)
      → (j == k) ≡ b
      → IsDict ((j, w) ∷ d)
      → IsDict (put k v d)
      → IsDict (if b then (j, v) ∷ d else (j, w) ∷ put k v d)
  put_next-IsDict k j v w d true e h n = h
  put_next-IsDict k j v w d false e h n =
      (ground (arith, e, h.0, get-put j k v d, text_key.eqb_iff k j, text_key.eqb_iff j k), n)

  pub put-IsDict : (k : String) (v : V) (d : Dict V) → IsDict d → IsDict (put k v d)
  unfolding put get
  put-IsDict k v [] h = (refl, tt)
  put-IsDict k v ((j, w) ∷ d) h = put_next-IsDict k j v w d (j == k) refl h (put-IsDict k v d h.1)

  pop_next-IsDict :
      (k j : String) (w : V) (d : Dict V) (b : Bool)
      → IsDict ((j, w) ∷ d)
      → IsDict (pop k d)
      → IsDict (if b then pop k d else (j, w) ∷ pop k d)
  pop_next-IsDict k j w d true h n = n
  pop_next-IsDict k j w d false h n = (ground (arith, h.0, get-pop j k d), n)

  pub pop-IsDict : (k : String) (d : Dict V) → IsDict d → IsDict (pop k d)
  unfolding pop
  pop-IsDict k [] h = tt
  pop-IsDict k ((j, w) ∷ d) h = pop_next-IsDict k j w d (j == k) h (pop-IsDict k d h.1)

  pub length-put : (k : String) (v : V) (d : Dict V) → length (put k v d) ≤ suc (length d)
  unfolding put
  length-put k v [] = ground arith
  length-put k v ((j, w) ∷ d) = ground (arith, length-put k v d)

  -- A key that is not there is not popped.
  pub length-pop_absent : (k : String) (d : Dict V) → get k d ≡ none → length (pop k d) ≡ length d
  unfolding get pop
  length-pop_absent k [] h = refl
  length-pop_absent k ((j, w) ∷ d) h = ground (arith, h, length-pop_absent k d)

  pub length-pop :
      (k : String) (v : V) (d : Dict V)
      → IsDict d
      → get k d ≡ some v
      → suc (length (pop k d)) ≡ length d
  unfolding get pop
  length-pop k v [] i h = ground (arith, h)
  length-pop k v ((j, w) ∷ d) i h =
      ground (arith, h, i.0, length-pop k v d i.1, length-pop_absent j d i.0, text_key.eqb_iff j k)

get-insert_by_time :
    (j k : String) (t : ℕ) (d : Dict ℕ)
    → get k d ≡ none
    → get j (insert_by_time k t d) ≡ (if k == j then some t else get j d)
unfolding get
get-insert_by_time j k t [] h = refl
get-insert_by_time j k t ((i, u) ∷ d) h = ground (
  arith,
  h,
  get-insert_by_time j k t d,
  text_key.eqb_iff i k,
  text_key.eqb_iff i j,
  text_key.eqb_iff k j,
)

insert_by_time-IsDict :
    (k : String) (t : ℕ) (d : Dict ℕ) → get k d ≡ none → IsDict d → IsDict (insert_by_time k t d)
unfolding get
insert_by_time-IsDict k t [] n h = (refl, tt)
insert_by_time-IsDict k t ((i, u) ∷ d) n h =
    elim (leb t u)
      as (λ b. IsDict (if b then (k, t) ∷ (i, u) ∷ d else (i, u) ∷ insert_by_time k t d)) [
        | true ↦ (n, h)
        | false ↦ (
          ground (
            arith,
            n,
            h.0,
            get-insert_by_time i k t d,
            text_key.eqb_iff i k,
            text_key.eqb_iff k i,
          ),
          insert_by_time-IsDict k t d (ground (arith, n)) h.1,
        )
      ]

length-insert_by_time :
    (k : String) (t : ℕ) (d : Dict ℕ) → length (insert_by_time k t d) ≡ suc (length d)
length-insert_by_time k t [] = refl
length-insert_by_time k t ((i, u) ∷ d) = ground (arith, length-insert_by_time k t d)

-- Sorting keeps the entries.
pub get-by_time : (j : String) (d : Dict ℕ) → IsDict d → get j (by_time d) ≡ get j d
unfolding get
get-by_time j [] h = refl
get-by_time j ((k, t) ∷ d) h =
    get-insert_by_time j k t (by_time d) (get-by_time k d h.1 ∙ h.0)
    ∙ ap (λ o. if k == j then some t else o) (get-by_time j d h.1)

pub by_time-IsDict : (d : Dict ℕ) → IsDict d → IsDict (by_time d)
by_time-IsDict [] h = tt
by_time-IsDict ((k, t) ∷ d) h =
    insert_by_time-IsDict k t (by_time d) (get-by_time k d h.1 ∙ h.0) (by_time-IsDict d h.1)

pub length-by_time : (d : Dict ℕ) → length (by_time d) ≡ length d
length-by_time [] = refl
length-by_time ((k, t) ∷ d) =
    length-insert_by_time k t (by_time d) ∙ ap (λ n. suc n) (length-by_time d)

-- The first entries of a dictionary are entries of it.
pub get-take :
    (n : ℕ) (j : String) (v : ℕ) (d : Dict ℕ) → get j (take n d) ≡ some v → get j d ≡ some v
unfolding get
get-take zero j v d h = ground (arith, h)
get-take (suc n) j v [] h = h
get-take (suc n) j v ((k, t) ∷ d) h = ground (arith, h, get-take n j v d)

take-none : (n : ℕ) (j : String) (d : Dict ℕ) → get j d ≡ none → get j (take n d) ≡ none
unfolding get
take-none zero j d h = refl
take-none (suc n) j [] h = refl
take-none (suc n) j ((k, t) ∷ d) h = ground (arith, h, take-none n j d)

pub take-IsDict : (n : ℕ) (d : Dict ℕ) → IsDict d → IsDict (take n d)
take-IsDict zero d h = tt
take-IsDict (suc n) [] h = tt
take-IsDict (suc n) ((k, t) ∷ d) h = (take-none n k d h.0, take-IsDict n d h.1)

pub length-take : (n : ℕ) (d : Dict ℕ) → n ≤ length d → length (take n d) ≡ n
length-take zero d h = refl
length-take (suc n) [] h = ground (arith, h)
length-take (suc n) ((k, t) ∷ d) h = ground (arith, length-take n d (ground (arith, h)))
