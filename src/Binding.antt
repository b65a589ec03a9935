-- ===== src/Binding.antt =====
-- acp/binding.py: the ledger of dispatches of sessions to panes.
mod Order
mod Latest
pub mod Drift
mod Tests
use Prim.Native.Nat.{Ordering}
use Prim.Native.String.{compare}
use herdr_bridge.Prelude.{
  Bool, true, false, Option, none, some, List, [], ◌∷◌, ◌++◌, String, ◌==◌, text_key, if◌then◌else◌,
}

pub record LedgerEntry : Type 0 where
  pub pane_id : String
  pub session_name : String
  pub actor_id : String
  pub dispatched_at : String

abbrev pub Ledger : Type 0
Ledger = List LedgerEntry

abbrev pub record_dispatch : Ledger → LedgerEntry → Ledger
record_dispatch ledger entry = ledger ++ entry ∷ []

abbrev pub matching : (LedgerEntry → Bool) → Ledger → Ledger
matching test [] = []
matching test (e ∷ ledger) = if test e then e ∷ matching test ledger else matching test ledger

abbrev pub is_later : LedgerEntry → LedgerEntry → Bool
is_later a b = elim (compare b.dispatched_at a.dispatched_at) [ Ordering.lt ↦ true | _ ↦ false ]

-- `max`: the first of the entries that no other one is later than.
abbrev pub latest_from : LedgerEntry → Ledger → LedgerEntry
latest_from best [] = best
latest_from best (e ∷ ledger) =
    if is_later e best then latest_from e ledger else latest_from best ledger

abbrev pub latest : Ledger → Option LedgerEntry
latest [] = none
latest (e ∷ ledger) = some (latest_from e ledger)

unfoldable pub current_binding_for_pane : Ledger → String → Option LedgerEntry
current_binding_for_pane ledger pane = latest (matching (λ e. e.pane_id == pane) ledger)

unfoldable pub current_binding_for_session : Ledger → String → Option LedgerEntry
current_binding_for_session ledger session =
    latest (matching (λ e. e.session_name == session) ledger)

abbrev pub is_bound_to : Option LedgerEntry → String → Bool
is_bound_to none session = false
is_bound_to (some e) session = e.session_name == session

-- The pairs are the items of `actual_pane_session_map`.
unfoldable pub detect_drift : Ledger → List (String × String) → List String
unfolding current_binding_for_pane
detect_drift ledger [] = []
detect_drift ledger ((pane, session) ∷ panes) =
    let drifted = detect_drift ledger panes in
    if is_bound_to (current_binding_for_pane ledger pane) session then drifted else pane ∷ drifted
