-- ===== src/Binding/Drift.antt =====
-- What a reconciliation without drift says.
use herdr_bridge.Prelude.{
  ◌≡◌, refl, sym, ap, ◌∙◌, true, List, [], ◌∷◌, String, ◌==◌, text_key, false, All-map, Bool-cases,
  Option-cases, inl, inr, All, Any, arith,
}
use herdr_bridge.Binding.Order.{earlier}
use herdr_bridge.Binding.{
  LedgerEntry, Ledger, matching, latest, current_binding_for_pane, is_bound_to, detect_drift,
}
use herdr_bridge.Binding.Latest.{latest-IsFound, latest-IsLastOf}

-- A dispatch of the session to the pane, and no dispatch to the pane is later.
abbrev pub Dispatched : Ledger → String → String → Type 0
Dispatched ledger pane session =
    (e : LedgerEntry) × Any (λ x. x ≡ e) ledger
    × (e.pane_id ≡ pane)
    × (e.session_name ≡ session)
    × All (λ x. x.pane_id ≡ pane → earlier e.dispatched_at x.dispatched_at ≡ false) ledger

bound-Dispatched :
    (ledger : Ledger) (pane session : String)
    → is_bound_to (current_binding_for_pane ledger pane) session ≡ true
    → Dispatched ledger pane session
unfolding current_binding_for_pane
bound-Dispatched ledger pane session h =
    elim (Option-cases (latest (matching (λ e. e.pane_id == pane) ledger))) [
      | inl n ↦ absurd (ground (arith, sym (ap (λ o. is_bound_to o session) n) ∙ h))
      | inr (e, f) ↦
          let found =
            latest-IsFound (λ e. e.pane_id == pane) ledger
              (matching (λ e. e.pane_id == pane) ledger) e refl f in
          (
            e,
            found.0,
            (text_key.eqb_iff e.pane_id pane).0 found.1,
            (text_key.eqb_iff e.session_name session).0
                (sym (ap (λ o. is_bound_to o session) f) ∙ h),
            All-map ledger (λ x last p. last ((text_key.eqb_iff x.pane_id pane).1 p))
                (latest-IsLastOf (λ e. e.pane_id == pane) ledger
                  (matching (λ e. e.pane_id == pane) ledger) e refl f),
          )
    ]

-- Where a reconciliation reports no drift, each pane that was observed has a dispatch in the ledger of
-- the very session that it was observed with, and no other dispatch to the pane has a later time, as
-- texts are compared.
pub detect_drift-Dispatched :
    (ledger : Ledger) (panes : List (String × String))
    → detect_drift ledger panes ≡ []
    → All {A = String × String} (λ p. Dispatched ledger p.0 p.1) panes
unfolding detect_drift
detect_drift-Dispatched ledger [] h = tt
detect_drift-Dispatched ledger ((pane, session) ∷ panes) h =
    elim (Bool-cases (is_bound_to (current_binding_for_pane ledger pane) session)) [
      | inl b ↦
          let same : detect_drift ledger ((pane, session) ∷ panes) ≡ detect_drift ledger panes =
            rw b refl in
          (
            bound-Dispatched ledger pane session b,
            detect_drift-Dispatched ledger panes (sym same ∙ h),
          )
      | inr b ↦
          let same : detect_drift ledger ((pane, session) ∷ panes)
              ≡ pane ∷ detect_drift ledger panes =
            rw b refl in
          absurd (ground (arith, sym same ∙ h))
    ]
