-- ===== src/Session/Controls/Exclusive.antt =====
-- At any time at most one handle controls a pane.
use herdr_bridge.Prelude.{
  ℕ, ◌≤◌, ◌≡◌, refl, sym, ap, ◌∙◌, Bool, true, false, not, ◌&&◌, Option, none, some, String, ◌==◌,
  text_key, nat_eq_iff, if◌then◌else◌, arith,
}
use herdr_bridge.Tasks.Dict.{get, get-put, get-pop}
use herdr_bridge.Session.Controls.{
  ControlHandle, Registry, empty_registry, holder_of, handle_at, held_by, grant, acquire_control,
  acquire, free, release_handle, release,
}

-- A handle that controls its pane.
abbrev pub is_active : ControlHandle → Bool
is_active h = h.mode == "control" && not h.released

abbrev pub controlled : Option ControlHandle → Option String
controlled none = none
controlled (some h) = if is_active h then some h.pane_id else none

-- The lease of a pane is the one handle that controls it.
pub record IsSound (r : Registry) : Type 0 where
  pub fresh : (i : ℕ) → r.next ≤ i → r.handles i ≡ none
  pub leased :
      (i : ℕ) (pane : String)
      → controlled (r.handles i) ≡ some pane
      → get pane r.control_leases ≡ some i
  pub owned :
      (i : ℕ) (pane : String)
      → get pane r.control_leases ≡ some i
      → controlled (r.handles i) ≡ some pane

pub empty-IsSound : IsSound empty_registry
unfolding get
empty-IsSound = record {
  fresh = λ i h. refl;
  leased = λ i pane h. ground (arith, h);
  owned = λ i pane h. ground (arith, h);
}

-- A pane that nobody holds has no handle that controls it.
pub held_by-none :
    (r : Registry) (pane : String) (i : ℕ)
    → held_by r pane ≡ none
    → controlled (r.handles i) ≡ some pane
    → get pane r.control_leases ≡ some i
    → ⊥
held_by-none r pane i h c g =
    let e : holder_of (r.handles i) ≡ none = sym (ap (λ o. holder_of (handle_at r o)) g) ∙ h in
    ground (arith, e, c)

module _ (pane actor mode : String) (r : Registry) (s : IsSound r) where
  grant_control-IsSound :
      (mode == "control") ≡ true → held_by r pane ≡ none → IsSound (grant pane actor mode r).1
  grant_control-IsSound m free = record {
    fresh = λ i h. ground (arith, s.fresh i, nat_eq_iff r.next i);
    leased = λ i p h. ground (
      arith,
      s.leased i p,
      get-put p pane r.next r.control_leases,
      nat_eq_iff r.next i,
      text_key.eqb_iff pane p,
      held_by-none r pane i free,
    );
    owned = λ i p h. ground (
      arith,
      s.owned i p,
      s.fresh i,
      get-put p pane r.next r.control_leases,
      nat_eq_iff r.next i,
      text_key.eqb_iff pane p,
    );
  }

  grant_other-IsSound : (mode == "control") ≡ false → IsSound (grant pane actor mode r).1
  grant_other-IsSound m = record {
    fresh = λ i h. ground (arith, s.fresh i, nat_eq_iff r.next i);
    leased = λ i p h. ground (arith, s.leased i p, nat_eq_iff r.next i);
    owned = λ i p h. ground (arith, s.owned i p, s.fresh i, nat_eq_iff r.next i);
  }

  acquire_control-IsSound :
      (mode == "control") ≡ true
      → (o : Option String) → held_by r pane ≡ o
      → IsSound (acquire_control pane actor mode r o).1
  acquire_control-IsSound m none h = grant_control-IsSound m h
  acquire_control-IsSound m (some holder) h = record {
    fresh = s.fresh;
    leased = s.leased;
    owned = s.owned;
  }

  acquire_mode-IsSound :
      (b : Bool)
      → (mode == "control") ≡ b
      → IsSound
          (if b
            then acquire_control pane actor mode r (held_by r pane)
            else grant pane actor mode r).1
  acquire_mode-IsSound true m = acquire_control-IsSound m (held_by r pane) refl
  acquire_mode-IsSound false m = grant_other-IsSound m

  pub acquire-IsSound : IsSound (acquire pane actor mode r).1
  unfolding acquire
  acquire-IsSound = acquire_mode-IsSound (mode == "control") refl

-- Whatever handle is released, the lease of a pane stays the one handle that controls it.
module _ (i : ℕ) (r : Registry) (s : IsSound r) where
  free-IsSound :
      (h : ControlHandle) → r.handles i ≡ some h → h.released ≡ false → IsSound (free i h r)
  free-IsSound h e n = record {
    fresh = λ j l. ground (arith, s.fresh j l, s.fresh i, e, nat_eq_iff i j);
    leased = λ j p l. ground (
      arith,
      s.leased j p,
      s.leased i p,
      e,
      n,
      l,
      nat_eq_iff i j,
      text_key.eqb_iff h.pane_id p,
      get-pop p h.pane_id r.control_leases,
    );
    owned = λ j p l. ground (
      arith,
      s.owned j p,
      e,
      n,
      l,
      nat_eq_iff i j,
      text_key.eqb_iff h.pane_id p,
      get-pop p h.pane_id r.control_leases,
    );
  }

  release_some-IsSound :
      (h : ControlHandle)
      → r.handles i ≡ some h
      → (b : Bool) → h.released ≡ b
      → IsSound (if b then r else free i h r)
  release_some-IsSound h e true n = s
  release_some-IsSound h e false n = free-IsSound h e n

  release_handle-IsSound :
      (o : Option ControlHandle) → r.handles i ≡ o → IsSound (release_handle i r o)
  release_handle-IsSound none e = s
  release_handle-IsSound (some h) e = release_some-IsSound h e h.released refl

  pub release-IsSound : IsSound (release i r)
  unfolding release
  release-IsSound = release_handle-IsSound (r.handles i) refl
