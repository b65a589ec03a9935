-- ===== src/Session/Client/Reader/Backoff.antt =====
-- The waits between the connections of the subscription reader of client.py.
use herdr_bridge.Prelude.{
  ℕ, suc, ◌≤◌, ◌≡◌, refl, sym, ap, ◌∙◌, Bool, true, false, not, ◌&&◌, none, some, List, [], ◌∷◌,
  ◌++◌, arith, All, inl, ◌⊎◌,
}
use mathlib.Core.Path.{subst}
use herdr_bridge.Session.Client.Reader.Runs.{
  OnRun-map, attempt-OnRun, backed_off, waited, read_all-runs,
}
use herdr_bridge.Session.Client.Reader.Traces.{gather, gather_++, gather-greeted}
use herdr_bridge.Session.Client.Reader.{
  Settings, Reader, new_reader, Output, disconnected, waiting, Ending, dropped, broken, Cycle,
  since, is_degraded, counted, notify_degraded, failed, acknowledged, end_with, hello, serve,
  attempt, Next, read_all,
}

abbrev pub wait_of : Output → List ℕ
wait_of (waiting w) = w ∷ []
wait_of other = []

-- The times that a reader waits.
abbrev pub waits : List Output → List ℕ
waits = gather wait_of

-- A connection itself waits for nothing, and leaves the backoff alone or resets it.
abbrev pub Sits : Settings → Reader → Reader × List Output → Type 0
Sits c r n = (waits n.1 ≡ []) × ((n.0.backoff ≡ r.backoff) ⊎ (n.0.backoff ≡ c.backoff_initial))

notify_degraded-Sits : (c : Settings) (b : Bool) (r : Reader) → Sits c r (notify_degraded b r)
unfolding gather
notify_degraded-Sits c true r = (refl, inl refl)
notify_degraded-Sits c false r = (refl, inl refl)

pub failed-Sits : (c : Settings) (now : ℕ) (r : Reader) → Sits c r (failed c now r)
unfolding failed
failed-Sits c now r =
    notify_degraded-Sits c
      (not r.degraded_notified && is_degraded c (suc r.fail_count) now (since now r.fail_since))
      (counted now r)

end_with-Sits :
    (c : Settings) (now : ℕ) (ending : Ending) (r : Reader)
    → r.backoff ≡ c.backoff_initial
    → Sits c r (end_with c now ending r)
unfolding gather
end_with-Sits c now dropped r e = (refl, inl refl)
end_with-Sits c now broken r e = failed-Sits c now r

serve-Sits : (c : Settings) (y : Cycle) (r : Reader) → Sits c r (serve c y r)
unfolding serve
serve-Sits c y r =
    let e : Sits c (acknowledged c r) (end_with c y.now y.ending (acknowledged c r)) =
      end_with-Sits c y.now y.ending (acknowledged c r) refl in
    let h : wait_of (hello r) ≡ [] = ground arith in
    (
      gather-greeted wait_of (λ name. refl) (hello r) y.lines
            (end_with c y.now y.ending (acknowledged c r)).1
          ∙ ap (λ k. k ++ waits (end_with c y.now y.ending (acknowledged c r)).1) h
          ∙ e.0,
      ground (arith, e.1),
    )

abbrev pub InBounds : Settings → ℕ → Type 0
InBounds c w = (c.backoff_initial ≤ w) × (w ≤ c.backoff_max)

-- A reader whose wait is in bounds only waits in bounds, and so it goes on.
abbrev Bounded : Settings → Reader → Next → Type 0
Bounded c r n =
    InBounds c r.backoff
    → All (InBounds c) (waits n.1) × ((t : Reader) → n.0 ≡ some t → InBounds c t.backoff)

All-++ : (P : ℕ → Type 0) (l m : List ℕ) → All P l → All P m → All P (l ++ m)
All-++ P [] m h k = k
All-++ P (x ∷ l) m h k = (h.0, All-++ P l m h.1 k)

pub Sits-waited :
    (c : Settings) (r : Reader) (n : Reader × List Output)
    → Sits c r n
    → waits (waited n) ≡ n.0.backoff ∷ []
unfolding gather
Sits-waited c r n s =
    gather_++ wait_of n.1 (disconnected ∷ waiting n.0.backoff ∷ [])
    ∙ ap (λ k. k ++ n.0.backoff ∷ []) s.0

module _ (c : Settings) (v : c.backoff_initial ≤ c.backoff_max) where
  Sits-InBounds :
      (r : Reader) (n : Reader × List Output)
      → Sits c r n
      → InBounds c r.backoff
      → InBounds c n.0.backoff
  Sits-InBounds r n s b = ground (arith, s.1, b, v)

  steps-Bounded :
      (r : Reader) (n : Reader × List Output)
      → Sits c r n
      → Bounded c r (none, n.1)
        × Bounded c r (none, waited n)
        × Bounded c r (some (backed_off c n.0), waited n)
  steps-Bounded r n s =
      let one : InBounds c r.backoff → All (InBounds c) (waits (waited n)) =
        λ b. subst (All (InBounds c)) (sym (Sits-waited c r n s)) (Sits-InBounds r n s b, tt) in
      (
        λ b. (subst (All (InBounds c)) (sym s.0) tt, λ t e. ground (arith, e)),
        λ b. (one b, λ t e. ground (arith, e)),
        λ b. (one b, λ t e. ground (arith, e, Sits-InBounds r n s b, v)),
      )

  read_all-Bounded : (l : List Cycle) (r : Reader) → Bounded c r (read_all c l r)
  unfolding gather
  read_all-Bounded =
      read_all-runs c (Bounded c) (λ r b. (tt, λ t e. ground (arith, e)))
        (λ r b. (tt, λ t e. ground (arith, e, b)))
        (λ y r.
          OnRun-map (attempt c y r) (steps-Bounded r)
            (attempt-OnRun c (Sits c) (failed-Sits c) (serve-Sits c) y r))
        (λ r t l n h k b.
          let u : InBounds c t.backoff = (h b).1 t refl in
          (
            subst (All (InBounds c)) (sym (gather_++ wait_of l n.1))
                (All-++ (InBounds c) (waits l) (waits n.1) (h b).0 (k u).0),
            (k u).1,
          ))

-- However many connections are made and however they go, every wait between two of them is at least the
-- initial backoff and at most the greatest, if these are in order.
pub read_all-InBounds :
    (c : Settings) (l : List Cycle)
    → c.backoff_initial ≤ c.backoff_max
    → All (InBounds c) (waits (read_all c l (new_reader c)).1)
read_all-InBounds c l v = (read_all-Bounded c v l (new_reader c) (ground arith, v)).0
