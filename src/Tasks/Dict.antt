-- ===== src/Tasks/Dict.antt =====
-- A dictionary with text keys, in the order of insertion.
use herdr_bridge.Prelude.{
  ◌≡◌, refl, Option, none, some, List, [], ◌∷◌, String, ◌==◌, text_key, arith, if◌then◌else◌,
}

abbrev pub Dict {ℓ} : Type ℓ → Type ℓ
Dict V = List (String × V)

module _ {ℓ} {V : Type ℓ} where
  -- d.get(k)
  unfoldable pub get : String → Dict V → Option V
  get k [] = none
  get k ((j, v) ∷ d) = if j == k then some v else get k d

  -- d[k] = v
  unfoldable pub put : String → V → Dict V → Dict V
  put k v [] = (k, v) ∷ []
  put k v ((j, w) ∷ d) = if j == k then (j, v) ∷ d else (j, w) ∷ put k v d

  -- d.pop(k, None)
  unfoldable pub pop : String → Dict V → Dict V
  pop k [] = []
  pop k ((j, w) ∷ d) = let later = pop k d in if j == k then later else (j, w) ∷ later

  -- {**d, **e}
  unfoldable pub join : Dict V → Dict V → Dict V
  join d [] = d
  join d ((k, v) ∷ e) = join (put k v d) e

  abbrev pub or_else : Option V → Option V → Option V
  or_else none v = v
  or_else (some w) v = some w

  pub get-put :
      (j k : String) (v : V) (d : Dict V) → get j (put k v d) ≡ (if k == j then some v else get j d)
  unfolding get put
  get-put j k v [] = refl
  get-put j k v ((i, w) ∷ d) =
      ground
        (arith, get-put j k v d, text_key.eqb_iff i k, text_key.eqb_iff i j, text_key.eqb_iff k j)

  pub get-pop : (j k : String) (d : Dict V) → get j (pop k d) ≡ (if k == j then none else get j d)
  unfolding get pop
  get-pop j k [] = ground arith
  get-pop j k ((i, w) ∷ d) =
      ground
        (arith, get-pop j k d, text_key.eqb_iff i k, text_key.eqb_iff i j, text_key.eqb_iff k j)

  -- No key occurs twice.
  abbrev pub IsDict : Dict V → Type ℓ
  IsDict [] = Unit
  IsDict ((k, v) ∷ d) = (get k d ≡ none) × IsDict d

  pub get-join :
      (j : String) (d e : Dict V) → IsDict e → get j (join d e) ≡ or_else (get j e) (get j d)
  unfolding get join
  get-join j d [] u = refl
  get-join j d ((k, v) ∷ e) u =
      ground (arith, get-join j (put k v d) e u.1, get-put j k v d, u.0, text_key.eqb_iff k j)
