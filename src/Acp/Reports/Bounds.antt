-- ===== src/Acp/Reports/Bounds.antt =====
-- The side reports that acp/router.py keeps do not grow without bound.
use herdr_bridge.Prelude.{
  ℕ, suc, ◌+◌, ◌-◌, ◌≤◌, ◌≡◌, refl, sym, ap, ◌∙◌, Bool, Option, none, some, List, [], ◌∷◌, String,
  ◌==◌, text_key, length, take, if◌then◌else◌, arith,
}
use herdr_bridge.Tasks.Dict.{Dict, get, put, pop, get-pop, IsDict}
use herdr_bridge.Acp.Reports.{
  Report, SideReports, no_reports, forget, forget_all, expired, by_time, evict, sweep, store,
  filled, first_filled, handle, handle_structured_report, with_event, begin_wait, Act, reporting,
  waiting, clearing, act, act_all,
}
use herdr_bridge.Acp.Reports.Counts.{
  put-IsDict, pop-IsDict, length-put, length-pop, get-by_time, by_time-IsDict, length-by_time,
  get-take, take-IsDict, length-take,
}

-- The keys of a dictionary, and what put and pop do to them.
abbrev keys : {V : Type 0} → Dict V → List String
keys [] = []
keys ((k, v) ∷ d) = k ∷ keys d

abbrev put_key : String → List String → List String
put_key k [] = k ∷ []
put_key k (j ∷ l) = let later = put_key k l in if j == k then j ∷ l else j ∷ later

abbrev pop_key : String → List String → List String
pop_key k [] = []
pop_key k (j ∷ l) = let later = pop_key k l in if j == k then later else j ∷ later

keys-put : {V : Type 0} (k : String) (v : V) (d : Dict V) → keys (put k v d) ≡ put_key k (keys d)
unfolding put
keys-put k v [] = refl
keys-put k v ((j, w) ∷ d) = ground (arith, keys-put k v d)

keys-pop : {V : Type 0} (k : String) (d : Dict V) → keys (pop k d) ≡ pop_key k (keys d)
unfolding pop
keys-pop k [] = refl
keys-pop k ((j, w) ∷ d) = ground (arith, keys-pop k d)

length-keys : {V : Type 0} (d : Dict V) → length (keys d) ≡ length d
length-keys [] = refl
length-keys ((k, v) ∷ d) = ap (λ n. suc n) (length-keys d)

length-pop_le : {V : Type 0} (k : String) (d : Dict V) → length (pop k d) ≤ length d
unfolding pop
length-pop_le k [] = ground arith
length-pop_le k ((j, w) ∷ d) = ground (arith, length-pop_le k d)

-- Each report has its time, no task has two, and there are at most `n` of them.
record IsWithin (n : ℕ) (s : SideReports) : Type 0 where
  single : IsDict s.times
  paired : keys s.reports ≡ keys s.times
  within : length s.times ≤ n

forget-IsWithin :
    (n : ℕ) (task : String) (s : SideReports) → IsWithin n s → IsWithin n (forget task s)
forget-IsWithin n task s h = record {
  single = pop-IsDict task s.times h.single;
  paired = keys-pop task s.reports ∙ ap (pop_key task) h.paired ∙ sym (keys-pop task s.times);
  within = ground (arith, h.within, length-pop_le task s.times);
}

forget_all-IsWithin :
    (n : ℕ) (l : Dict ℕ) (s : SideReports) → IsWithin n s → IsWithin n (forget_all l s)
forget_all-IsWithin n [] s h = h
forget_all-IsWithin n ((task, t) ∷ l) s h =
    forget_all-IsWithin n l (forget task s) (forget-IsWithin n task s h)

-- Forgetting entries of the table makes it smaller by their number.
length-forget_all :
    (l : Dict ℕ) (s : SideReports)
    → IsDict l
    → IsDict s.times
    → ((j : String) (v : ℕ) → get j l ≡ some v → get j s.times ≡ some v)
    → length (forget_all l s).times + length l ≡ length s.times
unfolding get
length-forget_all [] s i h f = ground arith
length-forget_all ((task, t) ∷ l) s i h f =
    let e : get task s.times ≡ some t = f task t (ground (arith, text_key.eqb_iff task task)) in
    let g : (j : String) (v : ℕ) → get j l ≡ some v → get j (pop task s.times) ≡ some v =
      λ j v k. ground (arith, k, i.0, f j v, get-pop j task s.times, text_key.eqb_iff task j) in
    ground (
      arith,
      length-pop task t s.times h e,
      length-forget_all l (forget task s) i.1 (pop-IsDict task s.times h) g,
    )

evict-IsWithin :
    (n reserve : ℕ) (s : SideReports)
    → reserve ≤ 200
    → IsWithin n s
    → IsWithin (200 - reserve) (evict reserve s)
evict-IsWithin n reserve s r h =
    let k : ℕ = length s.times + reserve - 200 in
    let l : Dict ℕ = take k (by_time s.times) in
    let m : length l ≡ k =
      length-take k (by_time s.times) (ground (arith, length-by_time s.times, r)) in
    let e : length (forget_all l s).times + length l ≡ length s.times =
      length-forget_all l s (take-IsDict k (by_time s.times) (by_time-IsDict s.times h.single))
        h.single
        (λ j v g. sym (get-by_time j s.times h.single) ∙ get-take k j v (by_time s.times) g) in
    let w : IsWithin n (forget_all l s) = forget_all-IsWithin n l s h in
    record { single = w.single; paired = w.paired; within = ground (arith, m, e, r) }

sweep-IsWithin :
    (reserve now : ℕ) (s : SideReports)
    → reserve ≤ 200
    → IsWithin 200 s
    → IsWithin (200 - reserve) (sweep reserve now s)
unfolding sweep
sweep-IsWithin reserve now s r h =
    evict-IsWithin 200 reserve (forget_all (expired now s.times) s) r
      (forget_all-IsWithin 200 (expired now s.times) s h)

store-IsWithin :
    (task : String) (now : ℕ) (report : Report) (s : SideReports)
    → IsWithin 199 s
    → IsWithin 200 (store task now report s)
store-IsWithin task now report s h = record {
  single = put-IsDict task now s.times h.single;
  paired =
      keys-put task report s.reports ∙ ap (put_key task) h.paired ∙ sym (keys-put task now s.times);
  within = ground (arith, h.within, length-put task now s.times);
}

handle-IsWithin :
    (task agent : Option String) (now : ℕ) (report : Report) (s : SideReports)
    → IsWithin 200 s
    → IsWithin 200 (handle task agent now report s)
handle-IsWithin none agent now report s h = h
handle-IsWithin (some task) none now report s h = h
handle-IsWithin (some task) (some agent) now report s h =
    store-IsWithin task now report (sweep 1 now s) (sweep-IsWithin 1 now s (ground arith) h)

with_event-IsWithin :
    (task : String) (o : Option Bool) (s : SideReports)
    → IsWithin 200 s
    → IsWithin 200 (with_event task o s)
with_event-IsWithin task none s h = record {
  single = h.single;
  paired = h.paired;
  within = h.within;
}
with_event-IsWithin task (some b) s h = h

act-IsWithin : (a : Act) (s : SideReports) → IsWithin 200 s → IsWithin 200 (act a s)
unfolding handle_structured_report begin_wait
act-IsWithin (reporting now report) s h =
    handle-IsWithin (filled (first_filled (get "task_id" report) (get "id" report)))
      (filled (first_filled (get "agent_id" report) (get "source" report))) now report s h
act-IsWithin (waiting task now) s h =
    with_event-IsWithin task (get task (sweep 0 now s).events) (sweep 0 now s)
      (sweep-IsWithin 0 now s (ground arith) h)
act-IsWithin (clearing task) s h = forget-IsWithin 200 task s h

act_all-IsWithin : (l : List Act) (s : SideReports) → IsWithin 200 s → IsWithin 200 (act_all l s)
unfolding act_all
act_all-IsWithin [] s h = h
act_all-IsWithin (a ∷ l) s h = act_all-IsWithin l (act a s) (act-IsWithin a s h)

-- Whatever reports arrive, for whatever tasks, and whatever waits and dispatches come between, at most 200
-- reports are kept, each with one time.
pub reports_bounded :
    (l : List Act)
    → (length (act_all l no_reports).reports ≤ 200)
      × (length (act_all l no_reports).times ≡ length (act_all l no_reports).reports)
reports_bounded l =
    let s : SideReports = act_all l no_reports in
    let h : IsWithin 200 s =
      act_all-IsWithin l no_reports
        (record { single = tt; paired = refl; within = ground arith }) in
    let e : length s.reports ≡ length s.times =
      sym (length-keys s.reports) ∙ ap (λ k. length k) h.paired ∙ length-keys s.times in
    (ground (arith, e, h.within), sym e)
