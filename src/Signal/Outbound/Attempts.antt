-- ===== src/Signal/Outbound/Attempts.antt =====
-- What the attempts of outbound.py, `_try_once` and `_send_with_retries`, make of the answers.
use herdr_bridge.Prelude.{
  ℕ, ◌≤◌, ◌≡◌, ◌≢◌, refl, ap, Bool, Bool-cases, true, false, ◌&&◌, Option, none, some, List, [],
  ◌∷◌, String, ◌==◌, text_key, ltb, ◌⊎◌, inl, inr, All, arith,
}
use herdr_bridge.Signal.Outbound.{
  Answer, failed, unreadable, answered, garbled, max_line_bytes, try_once, or_later, any_accepted,
  send_with_retries,
}

-- The daemon accepted the message, in a line of at most 64 KiB.
abbrev pub Takes : String → Answer → Type 0
Takes m a = (bytes : ℕ) × (a ≡ answered bytes "accepted" m) × (bytes ≤ 65536)

-- There was no connection, or another reply that can be read.
abbrev pub Misses : String → Answer → Type 0
Misses m a = ¬ Takes m a × (a ≢ garbled)

abbrev pub IsAcknowledged : String → List Answer → Type 0
IsAcknowledged m [] = ⊥
IsAcknowledged m (a ∷ l) = Takes m a ⊎ (Misses m a × IsAcknowledged m l)

abbrev pub IsUnanswered : String → List Answer → Type 0
IsUnanswered m l = All (Misses m) l

abbrev pub IsBroken : String → List Answer → Type 0
IsBroken m [] = ⊥
IsBroken m (a ∷ l) = (a ≡ garbled) ⊎ (Misses m a × IsBroken m l)

abbrev Attempted : String → Answer → Option Bool → Type 0
Attempted m a none = a ≡ garbled
Attempted m a (some true) = Takes m a
Attempted m a (some false) = Misses m a

abbrev bytes_of : Answer → ℕ
bytes_of (answered bytes status id) = bytes
bytes_of _ = 0

abbrev status_in : Answer → String
status_in (answered bytes status id) = status
status_in _ = ""

abbrev id_in : Answer → String
id_in (answered bytes status id) = id
id_in _ = ""

abbrev is_garbled : Answer → Bool
is_garbled garbled = true
is_garbled _ = false

abbrev has_reply : Answer → Bool
has_reply (answered bytes status id) = true
has_reply _ = false

not_garbled : (a : Answer) → is_garbled a ≡ false → a ≢ garbled
not_garbled a h e = absurd (ground (arith, h, ap is_garbled e))

no_reply : (m : String) (a : Answer) → has_reply a ≡ false → ¬ Takes m a
no_reply m a h (bytes, e, le) = absurd (ground (arith, h, ap has_reply e))

judged-Attempted :
    (m : String) (bytes : ℕ) (status id : String)
    → ltb max_line_bytes bytes ≡ false
    → (b : Bool) → (status == "accepted" && id == m) ≡ b
    → Attempted m (answered bytes status id) (some b)
judged-Attempted m bytes status id h true e = (
  bytes,
  (λ i.
      answered bytes ((text_key.eqb_iff status "accepted").0 (ground (arith, e)) i)
        ((text_key.eqb_iff id m).0 (ground (arith, e)) i)),
  ground (arith, h),
)
judged-Attempted m bytes status id h false e = (
  (λ (n, same, le). absurd (
      ground (
        arith,
        e,
        (text_key.eqb_iff status "accepted").1 (ap status_in same),
        (text_key.eqb_iff id m).1 (ap id_in same),
      ))),
  not_garbled (answered bytes status id) refl,
)

try_once-Attempted : (m : String) (a : Answer) → Attempted m a (try_once m a)
unfolding try_once
try_once-Attempted m failed = (no_reply m failed refl, not_garbled failed refl)
try_once-Attempted m unreadable = (no_reply m unreadable refl, not_garbled unreadable refl)
try_once-Attempted m garbled = refl
try_once-Attempted m (answered bytes status id) = elim (Bool-cases (ltb max_line_bytes bytes)) [
  | inl long ↦ rw long (
    (λ (n, same, le). absurd (ground (arith, long, le, ap bytes_of same))),
    not_garbled (answered bytes status id) refl,
  )
  | inr short ↦
      rw short (judged-Attempted m bytes status id short (status == "accepted" && id == m) refl)
]

-- What the verdict of the attempts says of the answers.
abbrev pub Verdict : String → List Answer → Option Bool → Type 0
Verdict m l none = IsBroken m l
Verdict m l (some true) = IsAcknowledged m l
Verdict m l (some false) = IsUnanswered m l

or_later-Verdict :
    (m : String) (a : Answer) (l : List Answer) (o later : Option Bool)
    → Attempted m a o
    → Verdict m l later
    → Verdict m (a ∷ l) (or_later o later)
or_later-Verdict m a l none later h v = inl h
or_later-Verdict m a l (some true) later h v = inl h
or_later-Verdict m a l (some false) none h v = inr (h, v)
or_later-Verdict m a l (some false) (some true) h v = inr (h, v)
or_later-Verdict m a l (some false) (some false) h v = (h, v)

any_accepted-Verdict : (m : String) (l : List Answer) → Verdict m l (any_accepted m l)
unfolding any_accepted
any_accepted-Verdict m [] = tt
any_accepted-Verdict m (a ∷ l) =
    or_later-Verdict m a l (try_once m a) (any_accepted m l) (try_once-Attempted m a)
      (any_accepted-Verdict m l)

pub send_with_retries-Verdict :
    (m : String) (first second third : Answer)
    → Verdict m (first ∷ second ∷ third ∷ []) (send_with_retries m first second third)
unfolding send_with_retries
send_with_retries-Verdict m first second third =
    any_accepted-Verdict m (first ∷ second ∷ third ∷ [])
