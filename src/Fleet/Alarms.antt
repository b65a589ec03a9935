-- ===== src/Fleet/Alarms.antt =====
-- Which alarms are raised again.
use mathlib.Core.Path.{subst}
use herdr_bridge.Prelude.{
  ◌≡◌, ◌≢◌, refl, sym, ap, ◌∙◌, Bool, true, false, Option, none, some, List, [], ◌∷◌, String, ◌==◌,
  text_key, pair_key, Result, ok, raise, if◌then◌else◌, Bool-cases, inl, inr, Any, All, All-map,
  arith,
}
use herdr_bridge.Table.{find, find-upsert, merged}
use herdr_bridge.Tasks.Dict.{Dict}
use herdr_bridge.Tasks.Value.{Error}
use herdr_bridge.Tasks.Board.{key_of}
use herdr_bridge.Fleet.{
  Anomaly, Detail, AlarmKey, Seen, seen_key, is_same, with_key, add_alarm, Filtered, entry,
  record_seen, filter_from, filter_new_anomalies,
}

abbrev pub key_at : Anomaly → Result Error AlarmKey
key_at a = elim (key_of a.task_id) [ ok id ↦ ok (id, a.rule_code) | raise e ↦ raise e ]

-- No two anomalies have one key.
abbrev pub AreDistinct : List Anomaly → Type 0
AreDistinct [] = Unit
AreDistinct (a ∷ rest) = All (λ b. key_at b ≢ key_at a) rest × AreDistinct rest

with_key-ok :
    (r : Result Error String) (next : String → Filtered) (x : List Anomaly × Seen)
    → with_key r next ≡ ok x
    → (id : String) × (r ≡ ok id) × (next id ≡ ok x)
with_key-ok (ok id) next x h = (id, refl, h)
with_key-ok (raise e) next x h = absurd (ground (arith, h))

add_alarm-ok :
    (b : Bool) (a : Anomaly) (r : Filtered) (f : List Anomaly) (n : Seen)
    → add_alarm b a r ≡ ok (f, n)
    → (f' : List Anomaly) × (r ≡ ok (f', n)) × (f ≡ (if b then f' else a ∷ f'))
add_alarm-ok true a r f n h = (f, h, refl)
add_alarm-ok false a (ok (f', m)) f n h = (f', ap ok (ground (arith, h)), ground (arith, h))
add_alarm-ok false a (raise e) f n h = absurd (ground (arith, h))

key_at-ok : (a : Anomaly) (id : String) → key_of a.task_id ≡ ok id → key_at a ≡ ok (id, a.rule_code)
key_at-ok a id k = rw (k, key_at) refl

ok_key : {k j : AlarmKey} → Path (Result Error AlarmKey) (ok k) (ok j) → k ≡ j
ok_key h = ground (arith, h)

abbrev text_or : Option String → String
text_or none = ""
text_or (some s) = s

text_in : {s t : String} → some s ≡ some t → s ≡ t
text_in h = ap text_or h

abbrev signature_of : Option (AlarmKey × String) → Option String
signature_of none = none
signature_of (some e) = some e.1

abbrev pub signature_at : AlarmKey → Seen → Option String
signature_at k seen = signature_of (find seen_key k seen)

signature_of-merged :
    (e : AlarmKey × String) (o : Option (AlarmKey × String))
    → signature_of (some (merged e (λ r. (r.0, e.1)) o)) ≡ some e.1
signature_of-merged e none = refl
signature_of-merged e (some r) = refl

signature_at-record_seen :
    (k : AlarmKey) (e : AlarmKey × String) (new : Seen)
    → signature_at k (record_seen e new) ≡ (if e.0 == k then some e.1 else signature_at k new)
unfolding record_seen
signature_at-record_seen k e new =
    ap signature_of (find-upsert seen_key k e (λ r. (r.0, e.1)) new (λ r. refl))
    ∙ elim (Bool-cases (e.0 == k)) [
      | inl q ↦ rw q (signature_of-merged e (find seen_key k new))
      | inr q ↦ rw q refl
    ]

module _ (repr : Dict Detail → String) where
  abbrev Recorded : Seen → Anomaly → Type 0
  Recorded seen a =
      (k : AlarmKey) → key_at a ≡ ok k → signature_at k seen ≡ some (repr a.signature_detail)

  -- A run over a first anomaly that returns.
  filter_cons :
      (a : Anomaly) (rest : List Anomaly) (seen new n : Seen) (f : List Anomaly)
      → filter_from repr (a ∷ rest) seen new ≡ ok (f, n)
      → (id : String) × (key_of a.task_id ≡ ok id)
        × (f' : List Anomaly) × (filter_from repr rest seen (record_seen (entry repr a id) new)
            ≡ ok (f', n))
        × (f ≡ (
            if is_same (find seen_key (entry repr a id).0 seen) (entry repr a id).1
            then f'
            else a ∷ f'))
  unfolding filter_from
  filter_cons a rest seen new n f h =
      let (id, k, g) =
        with_key-ok (key_of a.task_id)
          (λ id.
            add_alarm (is_same (find seen_key (entry repr a id).0 seen) (entry repr a id).1) a
              (filter_from repr rest seen (record_seen (entry repr a id) new)))
          (f, n) h in
      let (f', r, w) =
        add_alarm-ok (is_same (find seen_key (entry repr a id).0 seen) (entry repr a id).1) a
          (filter_from repr rest seen (record_seen (entry repr a id) new)) f n g in
      (id, k, f', r, w)

  -- A key that no anomaly has stays as it is.
  filter-others :
      (anomalies : List Anomaly) (seen new n : Seen) (f : List Anomaly) (k : AlarmKey)
      → filter_from repr anomalies seen new ≡ ok (f, n)
      → All (λ b. key_at b ≢ ok k) anomalies
      → signature_at k n ≡ signature_at k new
  unfolding filter_from
  filter-others [] seen new n f k h d = ap (signature_at k) (sym (ground (arith, h)))
  filter-others (a ∷ rest) seen new n f k h d =
      let (id, at, f', g, w) = filter_cons a rest seen new n f h in
      let e = entry repr a id in
      filter-others rest seen (record_seen e new) n f' k g d.1
      ∙ (signature_at-record_seen k e new ∙ elim (Bool-cases (e.0 == k)) [
        | inl q ↦ absurd (d.0 (key_at-ok a id at ∙ ap ok ((pair_key.eqb_iff e.0 k).0 q)))
        | inr q ↦ rw q refl
      ])

  filter-Recorded :
      (anomalies : List Anomaly) (seen new n : Seen) (f : List Anomaly)
      → filter_from repr anomalies seen new ≡ ok (f, n)
      → AreDistinct anomalies
      → All (Recorded n) anomalies
  filter-Recorded [] seen new n f h d = tt
  filter-Recorded (a ∷ rest) seen new n f h d =
      let (id, at, f', g, w) = filter_cons a rest seen new n f h in
      let e = entry repr a id in
      let key : key_at a ≡ ok e.0 = key_at-ok a id at in
      let others = filter-others rest seen (record_seen e new) n f' e.0 g (
        All-map {P = λ b. key_at b ≢ key_at a} {Q = λ b. key_at b ≢ ok e.0} rest
          (λ b ne q. ne (q ∙ sym key)) d.0) in
      let put : signature_at e.0 (record_seen e new) ≡ some e.1 =
        signature_at-record_seen e.0 e new ∙ rw ((pair_key.eqb_iff e.0 e.0).1 refl) refl in
      (
        λ k q. subst (λ z. signature_at z n ≡ some e.1) (ok_key (sym key ∙ q)) (others ∙ put),
        filter-Recorded rest seen (record_seen e new) n f' g d.1,
      )

  same-Recorded :
      (o : Option (AlarmKey × String)) (s : String) → signature_of o ≡ some s → is_same o s ≡ true
  same-Recorded none s h = absurd (ground (arith, h))
  same-Recorded (some e) s h = (text_key.eqb_iff e.1 s).1 (text_in h)

  filter_again :
      (anomalies : List Anomaly) (seen seen' new n : Seen) (f : List Anomaly)
      → filter_from repr anomalies seen new ≡ ok (f, n)
      → All (Recorded seen') anomalies
      → filter_from repr anomalies seen' new ≡ ok ([], n)
  unfolding filter_from
  filter_again [] seen seen' new n f h k = ap (λ z. ok ([], z)) (ground (arith, h))
  filter_again (a ∷ rest) seen seen' new n f h k =
      let (id, at, f', g, w) = filter_cons a rest seen new n f h in
      let e = entry repr a id in
      let known = same-Recorded (find seen_key e.0 seen') e.1 (k.0 e.0 (key_at-ok a id at)) in
      rw at (rw known (filter_again rest seen seen' (record_seen e new) n f' g k.1))

  -- A second round over the same anomalies, of which no two have one key, raises no alarm and keeps
  -- what is recorded.
  pub second_round_is_silent :
      (anomalies : List Anomaly) (seen n : Seen) (f : List Anomaly)
      → filter_new_anomalies repr anomalies seen ≡ ok (f, n)
      → AreDistinct anomalies
      → filter_new_anomalies repr anomalies n ≡ ok ([], n)
  unfolding filter_new_anomalies
  second_round_is_silent anomalies seen n f h d =
      filter_again anomalies seen n [] n f h (filter-Recorded anomalies seen [] n f h d)

  unseen-new :
      (o : Option (AlarmKey × String)) (s : String) → signature_of o ≡ none → is_same o s ≡ false
  unseen-new none s h = refl
  unseen-new (some e) s h = absurd (ground (arith, h))

  signature_at-nil : (k : AlarmKey) → signature_at k [] ≡ none
  unfolding find
  signature_at-nil k = refl

  new-Any :
      (a : Anomaly) (k : AlarmKey) (anomalies : List Anomaly) (seen new n : Seen) (f : List Anomaly)
      → key_at a ≡ ok k
      → signature_at k seen ≡ none
      → filter_from repr anomalies seen new ≡ ok (f, n)
      → Any (λ b. b ≡ a) anomalies
      → Any (λ b. b ≡ a) f
  new-Any a k [] seen new n f q s h m = elim m [ ]
  new-Any a k (b ∷ rest) seen new n f q s h (inl e) =
      let (id, at, f', g, w) = filter_cons b rest seen new n f h in
      let x = entry repr b id in
      let key : k ≡ x.0 = ok_key (sym q ∙ (ap key_at (sym e) ∙ key_at-ok b id at)) in
      let fresh =
        unseen-new (find seen_key x.0 seen) x.1 (subst (λ z. signature_at z seen ≡ none) key s) in
      let now : f ≡ b ∷ f' = w ∙ rw fresh refl in subst (Any (λ c. c ≡ a)) (sym now) (inl e)
  new-Any a k (b ∷ rest) seen new n f q s h (inr m) =
      let (id, at, f', g, w) = filter_cons b rest seen new n f h in
      let x = entry repr b id in
      let later = new-Any a k rest seen (record_seen x new) n f' q s g m in
      elim (Bool-cases (is_same (find seen_key x.0 seen) x.1)) [
        | inl y ↦ let now : f ≡ f' = w ∙ rw y refl in subst (Any (λ c. c ≡ a)) (sym now) later
        | inr y ↦
            let now : f ≡ b ∷ f' = w ∙ rw y refl in subst (Any (λ c. c ≡ a)) (sym now) (inr later)
      ]

  -- An anomaly that was gone for a round raises an alarm again when it is back, whatever the rounds
  -- before had recorded of it.
  pub returning_is_fresh :
      (a : Anomaly) (k : AlarmKey) (before anomalies : List Anomaly) (seen n n' : Seen)
      (f f' : List Anomaly)
      → key_at a ≡ ok k
      → All (λ b. key_at b ≢ ok k) before
      → filter_new_anomalies repr before seen ≡ ok (f, n)
      → filter_new_anomalies repr anomalies n ≡ ok (f', n')
      → Any (λ b. b ≡ a) anomalies
      → Any (λ b. b ≡ a) f'
  unfolding filter_new_anomalies
  returning_is_fresh a k before anomalies seen n n' f f' q gone h h' m =
      new-Any a k anomalies n [] n' f' q
        (filter-others before seen [] n f k h gone ∙ signature_at-nil k) h' m
