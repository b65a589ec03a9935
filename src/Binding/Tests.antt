-- ===== src/Binding/Tests.antt =====
-- A ledger of two dispatches.
use herdr_bridge.Prelude.{refl, [], ◌∷◌, String, All}
use herdr_bridge.Binding.{LedgerEntry, Ledger, current_binding_for_pane, detect_drift}
use herdr_bridge.Binding.Drift.{Dispatched, detect_drift-Dispatched}

abbrev dispatch : String → String → LedgerEntry
dispatch session time = record {
  pane_id = "p1";
  session_name = session;
  actor_id = "tower";
  dispatched_at = time;
}

abbrev ledger : Ledger
ledger = dispatch "s1" "2026-01-01" ∷ dispatch "s2" "2026-01-02" ∷ []

detect_drift-Dispatched_example :
    All {A = String × String} (λ p. Dispatched ledger p.0 p.1) (("p1", "s2") ∷ [])
unfolding detect_drift current_binding_for_pane
detect_drift-Dispatched_example = detect_drift-Dispatched ledger (("p1", "s2") ∷ []) refl
