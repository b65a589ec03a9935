-- ===== src/Session/Client/Reader/Traces.antt =====
-- What is read off the outputs of the subscription reader of client.py.
use herdr_bridge.Prelude.{ℕ, ◌+◌, ◌≡◌, refl, sym, ap, ◌∙◌, List, [], ◌∷◌, ◌++◌, String, arith}
use mathlib.Core.List.{append_assoc}
use herdr_bridge.Session.Client.Reader.{Output, event, EventLine, ignored, pushed, events_of}

module _ {A : Type 0} (f : Output → List A) where
  -- What `f` takes from each output, in order.
  unfoldable pub gather : List Output → List A
  gather [] = []
  gather (o ∷ l) = f o ++ gather l

  pub gather_++ : (l m : List Output) → gather (l ++ m) ≡ gather l ++ gather m
  unfolding gather
  gather_++ [] m = refl
  gather_++ (o ∷ l) m =
      ap (λ k. f o ++ k) (gather_++ l m) ∙ sym (append_assoc (f o) (gather l) (gather m))

  pub gather-events_of :
      ((name : String) → f (event name) ≡ []) → (l : List EventLine) → gather (events_of l) ≡ []
  unfolding gather
  gather-events_of h [] = refl
  gather-events_of h (ignored ∷ l) = gather-events_of h l
  gather-events_of h (pushed name ∷ l) =
      ap (λ k. k ++ gather (events_of l)) (h name) ∙ gather-events_of h l

  -- A connection's greeting, its events, and the rest.
  pub gather-greeted :
      ((name : String) → f (event name) ≡ [])
      → (o : Output) (l : List EventLine) (m : List Output)
      → gather (o ∷ (events_of l ++ m)) ≡ f o ++ gather m
  unfolding gather
  gather-greeted h o l m =
      ap (λ k. f o ++ k)
        (gather_++ (events_of l) m ∙ ap (λ k. k ++ gather m) (gather-events_of h l))

module _ (f : Output → ℕ) where
  -- The sum of what `f` counts in the outputs.
  unfoldable pub total : List Output → ℕ
  total [] = 0
  total (o ∷ l) = f o + total l

  pub total_++ : (l m : List Output) → total (l ++ m) ≡ total l + total m
  unfolding total
  total_++ [] m = ground arith
  total_++ (o ∷ l) m = ground (arith, total_++ l m)

  pub total-events_of :
      ((name : String) → f (event name) ≡ 0) → (l : List EventLine) → total (events_of l) ≡ 0
  unfolding total
  total-events_of h [] = refl
  total-events_of h (ignored ∷ l) = total-events_of h l
  total-events_of h (pushed name ∷ l) = ground (arith, h name, total-events_of h l)

  pub total-greeted :
      ((name : String) → f (event name) ≡ 0)
      → (o : Output) (l : List EventLine) (m : List Output)
      → total (o ∷ (events_of l ++ m)) ≡ f o + total m
  unfolding total
  total-greeted h o l m = ground (arith, total_++ (events_of l) m, total-events_of h l)
