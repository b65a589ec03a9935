-- ===== src/Gates/Checks.antt =====
-- What a passed check says, and a file that the cache does not read as the first time.
use herdr_bridge.Prelude.{
  ℕ, ◌+◌, ◌≡◌, refl, sym, ◌∙◌, Bool, true, false, ◌&&◌, Option, none, some, List, [], ◌∷◌, String,
  text_key, nat_eq_iff, Result, ok, raise, ltb, Bool-cases, inl, inr, All, arith,
}
use herdr_bridge.Tasks.Dict.{get}
use herdr_bridge.Tasks.Value.{Value, null, text, flag, number, container, Error, key_error}
use herdr_bridge.Tasks.Pool.{is_text}
use herdr_bridge.Gates.{
  Gate, file, Executor, cache_ttl, Context, check_named, GateResult, passed, reject, judge,
  check_gate, select, check_gates, load_gates, check,
}

abbrev is_false : Option Bool → Bool
is_false (some false) = true
is_false _ = false

abbrev fails : Context → Option Value → Bool
fails ctx (some (text name)) = is_false (check_named name ctx)
fails ctx _ = false

abbrev is_for : String → Option Value → Bool
is_for trigger none = false
is_for trigger (some v) = is_text trigger v

-- A gate of the trigger whose check is known and does not hold.
abbrev pub is_violated : String → Context → Gate → Bool
is_violated trigger ctx gate = is_for trigger (get "trigger" gate) && fails ctx (get "check" gate)

reject_fails : (id message : Option Value) → reject id message ≡ ok passed → ⊥
reject_fails none message h = absurd (ground (arith, h))
reject_fails (some id) none h = absurd (ground (arith, h))
reject_fails (some id) (some message) h = absurd (ground (arith, h))

module _ (trigger : String) (ctx : Context) (gate : Gate) (later : Result Error GateResult) where
  judge-passed :
      (o : Option Bool)
      → judge gate (ok o) later ≡ ok passed
      → (is_false o ≡ false) × (later ≡ ok passed)
  judge-passed none h = (refl, h)
  judge-passed (some true) h = (refl, h)
  judge-passed (some false) h = absurd (reject_fails (get "id" gate) (get "error_msg" gate) h)

  check_gate-passed :
      (c : Option Value)
      → check_gate ctx gate c later ≡ ok passed
      → (fails ctx c ≡ false) × (later ≡ ok passed)
  check_gate-passed none h = absurd (ground (arith, h))
  check_gate-passed (some (text name)) h = judge-passed (check_named name ctx) h
  check_gate-passed (some (container _ _)) h = absurd (ground (arith, h))
  check_gate-passed (some null) h = (refl, h)
  check_gate-passed (some (flag _)) h = (refl, h)
  check_gate-passed (some (number _ _)) h = (refl, h)

  -- A passed gate is not violated, and the gates after it were passed too.
  select-passed :
      (t : Option Value)
      → select trigger ctx gate t later ≡ ok passed
      → ((is_for trigger t && fails ctx (get "check" gate)) ≡ false) × (later ≡ ok passed)
  select-passed none h = absurd (ground (arith, h))
  select-passed (some v) h = elim (Bool-cases (is_text trigger v)) [
    | inl e ↦
        let chosen : select trigger ctx gate (some v) later
            ≡ check_gate ctx gate (get "check" gate) later =
          rw e refl in
        rw e (check_gate-passed (get "check" gate) (sym chosen ∙ h))
    | inr e ↦
        let chosen : select trigger ctx gate (some v) later ≡ later = rw e refl in
        rw e (refl, sym chosen ∙ h)
  ]

-- Where the check of a list of gates passes, no gate of that trigger has a known check that fails.
pub passed_gates_hold :
    (trigger : String) (ctx : Context) (gates : List Gate)
    → check_gates trigger ctx gates ≡ ok passed
    → All (λ gate. is_violated trigger ctx gate ≡ false) gates
unfolding check_gates
passed_gates_hold trigger ctx [] h = tt
passed_gates_hold trigger ctx (gate ∷ gates) h =
    let s = select-passed trigger ctx gate (check_gates trigger ctx gates) (get "trigger" gate) h in
    (s.0, passed_gates_hold trigger ctx gates s.1)

-- A file without the member "gates" passes every check when it is parsed, and raises a KeyError when it
-- is read again from the cache within a second.
pub cached_file_without_gates_raises :
    (now now' mtime : ℕ) (trigger : String) (ctx : Context) (x : Executor)
    → x.cache ≡ none
    → ltb now' (now + cache_ttl) ≡ true
    → ((check now (file mtime none) trigger ctx x).0 ≡ ok passed)
      × ((check now' (file mtime none) trigger ctx (check now (file mtime none) trigger ctx x).1).0
          ≡ raise key_error)
unfolding check load_gates check_gates
cached_file_without_gates_raises now now' mtime trigger ctx x c l =
    rw c (refl, rw l (rw ((nat_eq_iff mtime mtime).1 refl) refl))
