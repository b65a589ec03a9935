-- ===== src/Session/Client/Reader/Outages.antt =====
-- What client.py's subscription reader reports of outages, and when it ends.
use herdr_bridge.Prelude.{
  ◌∙◌, ap, if◌then◌else◌, ℕ, suc, ◌+◌, ◌≤◌, ◌≡◌, refl, Bool, true, false, not, ◌&&◌, none, some,
  List, [], ◌∷◌, ◌++◌, arith,
}
use herdr_bridge.Session.Client.Reader.{
  Settings, Reader, new_reader, Output, event, EventLine, ignored, pushed, events_of, connected,
  reconnected, disconnected, degraded, waiting, Ending, dropped, broken, Cycle, since, is_degraded,
  counted, notify_degraded, failed, acknowledged, hello, end_with, serve, attempt, Next, read_all,
}
use herdr_bridge.Session.Client.Reader.Traces.{total, total_++, total-greeted}
use herdr_bridge.Session.Client.Reader.Runs.{
  OnRun-map, attempt-OnRun, backed_off, waited, read_all-runs,
}

abbrev is_first : Output → ℕ
is_first connected = 1
is_first other = 0

abbrev pub firsts : List Output → ℕ
firsts = total is_first

abbrev bit : Bool → ℕ
bit true = 1
bit false = 0

-- Between two greetings there is at most one `degraded`, and none before the first greeting if there was
-- one already.
unfoldable pub are_spaced : Bool → List Output → Bool
are_spaced told [] = true
are_spaced told (degraded ∷ l) = let rest = are_spaced true l in not told && rest
are_spaced told (connected ∷ l) = are_spaced false l
are_spaced told (reconnected ∷ l) = are_spaced false l
are_spaced told (o ∷ l) = are_spaced told l

-- Whether there was a `degraded` since the last greeting.
unfoldable told_after : Bool → List Output → Bool
told_after told [] = told
told_after told (degraded ∷ l) = told_after true l
told_after told (connected ∷ l) = told_after false l
told_after told (reconnected ∷ l) = told_after false l
told_after told (o ∷ l) = told_after told l

are_spaced_++ :
    (told : Bool) (l m : List Output)
    → are_spaced told (l ++ m) ≡ (are_spaced told l && are_spaced (told_after told l) m)
unfolding are_spaced told_after
are_spaced_++ told [] m = refl
are_spaced_++ told (degraded ∷ l) m = ground (arith, are_spaced_++ true l m)
are_spaced_++ told (connected ∷ l) m = are_spaced_++ false l m
are_spaced_++ told (reconnected ∷ l) m = are_spaced_++ false l m
are_spaced_++ told (disconnected ∷ l) m = are_spaced_++ told l m
are_spaced_++ told (event name ∷ l) m = are_spaced_++ told l m
are_spaced_++ told (waiting n ∷ l) m = are_spaced_++ told l m

told_after_++ :
    (told : Bool) (l m : List Output) → told_after told (l ++ m) ≡ told_after (told_after told l) m
unfolding told_after
told_after_++ told [] m = refl
told_after_++ told (degraded ∷ l) m = told_after_++ true l m
told_after_++ told (connected ∷ l) m = told_after_++ false l m
told_after_++ told (reconnected ∷ l) m = told_after_++ false l m
told_after_++ told (disconnected ∷ l) m = told_after_++ told l m
told_after_++ told (event name ∷ l) m = told_after_++ told l m
told_after_++ told (waiting n ∷ l) m = told_after_++ told l m

events_are_silent :
    (l : List EventLine) (m : List Output)
    → (are_spaced false (events_of l ++ m) ≡ are_spaced false m)
      × (told_after false (events_of l ++ m) ≡ told_after false m)
unfolding are_spaced told_after
events_are_silent [] m = (refl, refl)
events_are_silent (ignored ∷ l) m = events_are_silent l m
events_are_silent (pushed name ∷ l) m = events_are_silent l m

greeted_anew :
    (told : Bool) (r : Reader) (l : List Output)
    → (are_spaced told (hello r ∷ l) ≡ are_spaced false l)
      × (told_after told (hello r ∷ l) ≡ told_after false l)
unfolding are_spaced told_after
greeted_anew told r l =
    elim r.ever_connected
      as (λ b.
        (are_spaced told ((if b then reconnected else connected) ∷ l) ≡ are_spaced false l)
        × (told_after told ((if b then reconnected else connected) ∷ l) ≡ told_after false l)) [
          | true ↦ (refl, refl)
          | false ↦ (refl, refl)
        ]

-- The flag of the reader tells whether there was an alarm since the last greeting; and the first greeting
-- alone is `connected`.
abbrev Alarmed : Reader → Reader × List Output → Type 0
Alarmed r n =
    (are_spaced r.degraded_notified n.1 ≡ true)
    × (told_after r.degraded_notified n.1 ≡ n.0.degraded_notified)
    × (firsts n.1 + bit r.ever_connected ≡ bit n.0.ever_connected)

-- The same of a run, whose last reader is gone if the thread has ended.
abbrev AlarmedRun : Reader → Next → Type 0
AlarmedRun r (none, l) =
    (are_spaced r.degraded_notified l ≡ true) × (firsts l + bit r.ever_connected ≤ 1)
AlarmedRun r (some t, l) = Alarmed r (t, l)

not_notified : (d b : Bool) → (not d && b) ≡ true → d ≡ false
not_notified true b h = ground (arith, h)
not_notified false b h = refl

notify_degraded-Alarmed :
    (b : Bool) (r : Reader)
    → (b ≡ true → r.degraded_notified ≡ false)
    → Alarmed r (notify_degraded b r)
unfolding total are_spaced told_after
notify_degraded-Alarmed true r h = ground (arith, h refl)
notify_degraded-Alarmed false r h = ground arith

failed-Alarmed : (c : Settings) (now : ℕ) (r : Reader) → Alarmed r (failed c now r)
unfolding failed
failed-Alarmed c now r =
    notify_degraded-Alarmed
      (not r.degraded_notified && is_degraded c (suc r.fail_count) now (since now r.fail_since))
      (counted now r)
      (not_notified r.degraded_notified
        (is_degraded c (suc r.fail_count) now (since now r.fail_since)))

end_with-Alarmed :
    (c : Settings) (now : ℕ) (ending : Ending) (r : Reader) → Alarmed r (end_with c now ending r)
unfolding total are_spaced told_after
end_with-Alarmed c now dropped r = ground arith
end_with-Alarmed c now broken r = failed-Alarmed c now r

serve-Alarmed : (c : Settings) (y : Cycle) (r : Reader) → Alarmed r (serve c y r)
unfolding serve
serve-Alarmed c y r =
    let n : Reader × List Output = end_with c y.now y.ending (acknowledged c r) in
    let h : Alarmed (acknowledged c r) n = end_with-Alarmed c y.now y.ending (acknowledged c r) in
    let greeted = greeted_anew r.degraded_notified r (events_of y.lines ++ n.1) in
    let silent = events_are_silent y.lines n.1 in
    (
      greeted.0 ∙ silent.0 ∙ h.0,
      greeted.1 ∙ silent.1 ∙ h.1,
      ground (arith, h.2, total-greeted is_first (λ name. refl) (hello r) y.lines n.1),
    )

waits_are_silent :
    (told : Bool) (n : ℕ)
    → (are_spaced told (disconnected ∷ waiting n ∷ []) ≡ true)
      × (told_after told (disconnected ∷ waiting n ∷ []) ≡ told)
unfolding are_spaced told_after
waits_are_silent told n = (refl, refl)

waited-Alarmed :
    (c : Settings) (r : Reader) (n : Reader × List Output)
    → Alarmed r n
    → Alarmed r (backed_off c n.0, waited n)
unfolding total
waited-Alarmed c r n h =
    let m : List Output = disconnected ∷ waiting n.0.backoff ∷ [] in
    let told = r.degraded_notified in
    let silent = waits_are_silent (told_after told n.1) n.0.backoff in
    (
      ground (arith, h.0, are_spaced_++ told n.1 m, silent.0),
      told_after_++ told n.1 m ∙ silent.1 ∙ h.1,
      ground (arith, h.2, total_++ is_first n.1 m),
    )

-- A thread that ends keeps what its last reader had.
ended-AlarmedRun : (r t : Reader) (l : List Output) → Alarmed r (t, l) → AlarmedRun r (none, l)
ended-AlarmedRun r t l h = (h.0, ground (arith, h.2))

joined :
    (r t : Reader) (l m : List Output)
    → Alarmed r (t, l)
    → are_spaced t.degraded_notified m ≡ true
    → are_spaced r.degraded_notified (l ++ m) ≡ true
joined r t l m h k =
    let same : are_spaced (told_after r.degraded_notified l) m ≡ true =
      ap (λ b. are_spaced b m) h.1 ∙ k in
    ground (arith, h.0, are_spaced_++ r.degraded_notified l m, same)

joins-AlarmedRun :
    (r t : Reader) (l : List Output) (n : Next)
    → AlarmedRun r (some t, l)
    → AlarmedRun t n
    → AlarmedRun r (n.0, l ++ n.1)
joins-AlarmedRun r t l (none, m) h k =
    (joined r t l m h k.0, ground (arith, h.2, k.1, total_++ is_first l m))
joins-AlarmedRun r t l (some u, m) h k = (
  joined r t l m h k.0,
  told_after_++ r.degraded_notified l m ∙ ap (λ b. told_after b m) h.1 ∙ k.1,
  ground (arith, h.2, k.2, total_++ is_first l m),
)

started-AlarmedRun : (r : Reader) → AlarmedRun r (some r, []) × AlarmedRun r (none, [])
unfolding total are_spaced told_after
started-AlarmedRun r = ((refl, refl, ground arith), (refl, ground arith))

read_all-AlarmedRun : (c : Settings) (l : List Cycle) (r : Reader) → AlarmedRun r (read_all c l r)
read_all-AlarmedRun c =
    read_all-runs c AlarmedRun (λ r. (started-AlarmedRun r).1) (λ r. (started-AlarmedRun r).0)
      (λ y r.
        OnRun-map (attempt c y r)
          (λ n h. (
            ended-AlarmedRun r n.0 n.1 h,
            ended-AlarmedRun r (backed_off c n.0) (waited n) (waited-Alarmed c r n h),
            waited-Alarmed c r n h,
          ))
          (attempt-OnRun c Alarmed (failed-Alarmed c) (serve-Alarmed c) y r))
      joins-AlarmedRun

AlarmedRun-bounds :
    (c : Settings) (n : Next)
    → AlarmedRun (new_reader c) n
    → (are_spaced false n.1 ≡ true) × (firsts n.1 ≤ 1)
AlarmedRun-bounds c (none, l) h = (h.0, ground (arith, h.1))
AlarmedRun-bounds c (some t, l) h = (h.0, ground (arith, h.2))

-- However the connections go, a listener is told at most once that the subscription is degraded between
-- two acknowledged connections, before the first of them and after the last. The greeting `connected`
-- comes at most once.
pub read_all-alarms :
    (c : Settings) (l : List Cycle)
    → (are_spaced false (read_all c l (new_reader c)).1 ≡ true)
      × (firsts (read_all c l (new_reader c)).1 ≤ 1)
read_all-alarms c l =
    AlarmedRun-bounds c (read_all c l (new_reader c)) (read_all-AlarmedRun c l (new_reader c))
