-- ===== src/Session/Controls/Runs.antt =====
-- What holds of the control leases of actions.py after any sequence of acquisitions and releases.
use herdr_bridge.Prelude.{
  ℕ, ◌≡◌, refl, sym, ap, ◌∙◌, ◌↔◌, inl, inr, Option-cases, Option, none, some, List, [], ◌∷◌,
  String, text_key, arith,
}
use herdr_bridge.Tasks.Dict.{get}
use herdr_bridge.Session.Controls.{
  ControlHandle, Registry, empty_registry, record_audit, holder_of, handle_at, held_by, granted,
  denied, acquire_control, acquire, Act, acquiring, releasing, perform, perform_all,
}
use herdr_bridge.Session.Controls.Exclusive.{
  IsSound, controlled, held_by-none, empty-IsSound, acquire-IsSound, release-IsSound,
}

perform-IsSound : (a : Act) (r : Registry) → IsSound r → IsSound (perform a r)
perform-IsSound (acquiring pane actor mode) r s = acquire-IsSound pane actor mode r s
perform-IsSound (releasing i) r s = release-IsSound i r s

perform_all-IsSound : (l : List Act) (r : Registry) → IsSound r → IsSound (perform_all l r)
unfolding perform_all
perform_all-IsSound [] r s = s
perform_all-IsSound (a ∷ l) r s = perform_all-IsSound l (perform a r) (perform-IsSound a r s)

-- Whatever acquisitions and releases were made, in whatever order, two control handles of one pane that
-- are not released are the same handle.
pub one_controller :
    (l : List Act) (i j : ℕ) (pane : String)
    → controlled ((perform_all l empty_registry).handles i) ≡ some pane
    → controlled ((perform_all l empty_registry).handles j) ≡ some pane
    → i ≡ j
one_controller l i j pane a b =
    let s : IsSound (perform_all l empty_registry) =
      perform_all-IsSound l empty_registry empty-IsSound in
    ground (arith, sym (s.leased i pane a) ∙ s.leased j pane b)

module _ (pane actor : String) (r : Registry) (s : IsSound r) where
  held_by-some :
      (holder : String)
      → held_by r pane ≡ some holder
      → (i : ℕ) × (get pane r.control_leases ≡ some i)
  held_by-some holder h = elim (Option-cases (get pane r.control_leases)) [
    | inl e ↦ ground (arith, sym (ap (λ o. holder_of (handle_at r o)) e) ∙ h)
    | inr e ↦ e
  ]

  -- The answer to an acquisition tells whether a handle controls the pane.
  acquire_control-granted :
      (o : Option String)
      → held_by r pane ≡ o
      → ((acquire_control pane actor "control" r o).0 ≡ granted r.next)
        ↔ ((i : ℕ) → ¬ (controlled (r.handles i) ≡ some pane))
  acquire_control-granted none h =
      (λ e i c. held_by-none r pane i h c (s.leased i pane c), λ u. refl)
  acquire_control-granted (some holder) h =
      let g : (i : ℕ) × (get pane r.control_leases ≡ some i) = held_by-some holder h in
      (λ e. ground (arith, e), λ u. elim (u g.0 (s.owned g.0 pane g.1)) [ ])

  acquire_control-denied :
      (i : ℕ) (h : ControlHandle)
      → r.handles i ≡ some h
      → controlled (some h) ≡ some pane
      → held_by r pane ≡ some h.actor_id
  acquire_control-denied i h e c =
      let a : holder_of (some h) ≡ some h.actor_id = ground (arith, c) in
      let g : get pane r.control_leases ≡ some i = s.leased i pane (ap controlled e ∙ c) in
      ap (λ o. holder_of (handle_at r o)) g ∙ ap holder_of e ∙ a

-- Whatever acquisitions and releases were made, a pane can be acquired for control exactly if no handle
-- controls it.
pub acquire-granted :
    (l : List Act) (pane actor : String)
    → let r = perform_all l empty_registry in
      ((acquire pane actor "control" r).0 ≡ granted r.next)
      ↔ ((i : ℕ) → ¬ (controlled (r.handles i) ≡ some pane))
unfolding acquire
acquire-granted l pane actor =
    let r : Registry = perform_all l empty_registry in
    acquire_control-granted pane actor r (perform_all-IsSound l empty_registry empty-IsSound)
      (held_by r pane) refl

-- Whatever acquisitions and releases were made, an attempt to acquire a pane that a handle controls names
-- the actor of that handle, is audited, and changes nothing else.
pub acquire-denied :
    (l : List Act) (pane actor : String) (i : ℕ) (h : ControlHandle)
    → (perform_all l empty_registry).handles i ≡ some h
    → controlled (some h) ≡ some pane
    → acquire pane actor "control" (perform_all l empty_registry) ≡ (
      denied h.actor_id,
      record_audit actor "acquire_control_denied" pane (perform_all l empty_registry),
    )
unfolding acquire
acquire-denied l pane actor i h e c =
    let r : Registry = perform_all l empty_registry in
    let s : IsSound r = perform_all-IsSound l empty_registry empty-IsSound in
    ap (acquire_control pane actor "control" r) (acquire_control-denied pane actor r s i h e c)
