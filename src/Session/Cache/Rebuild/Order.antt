-- ===== src/Session/Cache/Rebuild/Order.antt =====
-- What `_rebuild` of cache.py does to the subscriptions.
use herdr_bridge.Prelude.{
  ℕ, ◌≡◌, ◌≢◌, inl, inr, refl, ap, ◌∙◌, Bool, Bool-cases, true, false, Option, none, some, List, [],
  ◌∷◌, nat_eq, nat_eq_iff, if◌then◌else◌, arith,
}
use herdr_bridge.Tasks.Dict.{Dict, put}
use herdr_bridge.Session.Cache.{Fields, AgentInfo, Focus, agent_record, SessionCache}
use herdr_bridge.Session.Cache.Snapshot.{
  Snapshot, panes_by_id, stored_first, index_agents, emptied, focused, overwrite, refresh_snapshot,
}
use herdr_bridge.Session.Cache.Rebuild.{
  Effect, subscribing, snapshotting, closing, Answers, Done, close_old, replace, resubscribe,
  rebuild,
}

-- The open subscriptions after some effects.
abbrev pub drop : ℕ → List ℕ → List ℕ
drop n [] = []
drop n (m ∷ l) = let later = drop n l in if nat_eq m n then later else m ∷ later

unfoldable pub opened : List Effect → List ℕ → List ℕ
opened [] l = l
opened (subscribing n ∷ e) l = opened e (n ∷ l)
opened (snapshotting ∷ e) l = opened e l
opened (closing n ∷ e) l = opened e (drop n l)

abbrev pub held : Option ℕ → List ℕ
held none = []
held (some n) = n ∷ []

-- A new subscription is not the old one.
abbrev pub IsNew : Option ℕ → Option ℕ → Type 0
IsNew (some new) (some old) = new ≢ old
IsNew new old = Unit

-- A step of a snapshot leaves the subscription of the cache alone.
abbrev SameSubscription : (SessionCache → Bool × SessionCache) → Type 0
SameSubscription f = (s : SessionCache) → (f s).1.subscription ≡ s.subscription

stored_first-SameSubscription :
    (f : SessionCache → Bool × SessionCache)
    → SameSubscription f
    → (o : Option AgentInfo) → SameSubscription (stored_first f o)
stored_first-SameSubscription f h none = λ s. refl
stored_first-SameSubscription f h (some a) = λ s. h (record s {
  agents = put a.agent_id a s.agents;
  pane_to_terminal = put a.pane_id a.agent_id s.pane_to_terminal;
})

index_agents-SameSubscription : (l : List Fields) → SameSubscription (index_agents l)
unfolding index_agents
index_agents-SameSubscription [] = λ s. refl
index_agents-SameSubscription (rec ∷ l) =
    stored_first-SameSubscription (index_agents l) (index_agents-SameSubscription l)
      (agent_record rec)

focused-subscription :
    (focus : Focus) (r : Bool × SessionCache) → (focused focus r).1.subscription ≡ r.1.subscription
focused-subscription focus (true, s) = refl
focused-subscription focus (false, s) = refl

overwrite-subscription :
    (snap : Snapshot) (o : Option (Dict Fields)) (s : SessionCache)
    → (overwrite snap o s).1.subscription ≡ s.subscription
overwrite-subscription snap none s = refl
overwrite-subscription snap (some panes) s =
    focused-subscription snap.focus (index_agents snap.agents (emptied panes s))
    ∙ index_agents-SameSubscription snap.agents (emptied panes s)

refresh_snapshot-SameSubscription :
    (snap : Option Snapshot) → SameSubscription (refresh_snapshot snap)
unfolding refresh_snapshot
refresh_snapshot-SameSubscription none = λ s. refl
refresh_snapshot-SameSubscription (some snap) =
    λ s. overwrite-subscription snap (panes_by_id snap.panes []) s

replace-held :
    (a : Answers) (old : Option ℕ) (new : ℕ) (r : Bool × SessionCache)
    → IsNew (some new) old
    → r.0 ≡ true
    → r.1.subscription ≡ old
    → opened (replace a old new r).1 (held old) ≡ held (replace a old new r).0.subscription
unfolding opened
replace-held a none new (false, s) n e h = ground (arith, e)
replace-held a none new (true, s) n e h = ground (arith, h, nat_eq_iff new new)
replace-held a (some old) new (false, s) n e h = ground (arith, e)
replace-held a (some old) new (true, s) n e h =
    ground (arith, h, n, nat_eq_iff new old, nat_eq_iff old new, nat_eq_iff new new)

drop_new : (new : ℕ) (old : Option ℕ) → IsNew (some new) old → drop new (new ∷ held old) ≡ held old
drop_new new none n = ground (arith, nat_eq_iff new new)
drop_new new (some old) n = ground (arith, n, nat_eq_iff old new, nat_eq_iff new new)

resubscribe-held :
    (a : Answers) (o : Option ℕ) (s : SessionCache)
    → IsNew o s.subscription
    → (refresh_snapshot a.snapshot s).0 ≡ true
    → opened (resubscribe a o s).1 (held s.subscription) ≡ held (resubscribe a o s).0.subscription
unfolding opened
resubscribe-held a none s n e = refl
resubscribe-held a (some new) s n e = ground (
  arith,
  drop_new new s.subscription n,
  replace-held a s.subscription new (refresh_snapshot a.snapshot s) n e
      (refresh_snapshot-SameSubscription a.snapshot s),
)

-- If the snapshot can be taken, a rebuild leaves exactly the subscription of the cache open: whether the
-- client raises, the new subscription is not acknowledged, the cache is stopped before or meanwhile, or
-- the old subscription is replaced.
pub rebuild-held :
    (a : Answers) (s : SessionCache)
    → IsNew a.subscribed s.subscription
    → (refresh_snapshot a.snapshot s).0 ≡ true
    → opened (rebuild a s).1 (held s.subscription) ≡ held (rebuild a s).0.subscription
unfolding rebuild opened
rebuild-held a s n r = ground (arith, resubscribe-held a a.subscribed s n r)

-- What a rebuild that changed the subscription has done.
abbrev Replaced : Answers → SessionCache → Done → Type 0
Replaced a s r =
    (new : ℕ) × (r.0.subscription ≡ some new)
    × (a.acked ≡ true)
    × ((refresh_snapshot a.snapshot s).0 ≡ true)
    × (r.1 ≡ subscribing new ∷ snapshotting ∷ close_old s.subscription)

replace-Replaced :
    (a : Answers) (s : SessionCache) (new : ℕ) (r : Bool × SessionCache)
    → a.acked ≡ true
    → refresh_snapshot a.snapshot s ≡ r
    → r.1.subscription ≡ s.subscription
    → (replace a s.subscription new r).0.subscription ≢ s.subscription
    → Replaced a s (replace a s.subscription new r)
replace-Replaced a s new (false, t) k e h d = elim (d h) [ ]
replace-Replaced a s new (true, t) k e h d = elim (Bool-cases a.stopped_after) [
  | inl b ↦ elim (d (ground (arith, b, h))) [ ]
  | inr b ↦ (new, ground (arith, b), k, ap (λ p. p.0) e, ground (arith, b))
]

acked-Replaced :
    (a : Answers) (s : SessionCache) (new : ℕ) (b : Bool)
    → a.acked ≡ b
    → let r : Done =
        if b
        then replace a s.subscription new (refresh_snapshot a.snapshot s)
        else (s, subscribing new ∷ closing new ∷ []) in
      r.0.subscription ≢ s.subscription → Replaced a s r
acked-Replaced a s new true k d =
    replace-Replaced a s new (refresh_snapshot a.snapshot s) k refl
      (refresh_snapshot-SameSubscription a.snapshot s) d
acked-Replaced a s new false k d = elim (d refl) [ ]

resubscribe-Replaced :
    (a : Answers) (o : Option ℕ) (s : SessionCache)
    → (resubscribe a o s).0.subscription ≢ s.subscription
    → Replaced a s (resubscribe a o s)
resubscribe-Replaced a none s d = elim (d refl) [ ]
resubscribe-Replaced a (some new) s d = acked-Replaced a s new a.acked refl d

-- If a rebuild changes the subscription of the cache, the cache was not stopped, the new subscription was acknowledged
-- and the snapshot was taken after it was made, and the old one was closed after both.
pub rebuild-order :
    (a : Answers) (s : SessionCache)
    → (rebuild a s).0.subscription ≢ s.subscription
    → (new : ℕ) × ((rebuild a s).0.subscription ≡ some new)
      × (s.stopped ≡ false)
      × (a.acked ≡ true)
      × ((refresh_snapshot a.snapshot s).0 ≡ true)
      × ((rebuild a s).1 ≡ subscribing new ∷ snapshotting ∷ close_old s.subscription)
unfolding rebuild
rebuild-order a s d = elim (Bool-cases s.stopped) [
  | inl e ↦ elim (d (ground (arith, e))) [ ]
  | inr e ↦
      let r = resubscribe-Replaced a a.subscribed s (ground (arith, d, e)) in
      (r.0, ground (arith, e, r.1), e, r.2, r.3, ground (arith, e, r.4))
]
