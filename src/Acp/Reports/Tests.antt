-- ===== src/Acp/Reports/Tests.antt =====
-- The side reports of acp/router.py at concrete inputs.
use herdr_bridge.Prelude.{◌≡◌, ◌≤◌, refl, List, [], ◌∷◌, String, length, false}
use herdr_bridge.Tasks.Dict.{get, put, pop}
use herdr_bridge.Acp.Reports.{
  Report, no_reports, Act, reporting, waiting, clearing, sweep, begin_wait, act_all,
}
use herdr_bridge.Acp.Reports.Bounds.{reports_bounded}

abbrev report_of : String → Report
report_of task = ("task_id", task) ∷ ("agent_id", "a") ∷ []

abbrev acts : List Act
acts =
    waiting "t1" 10
    ∷ reporting 20 (report_of "t1")
    ∷ reporting 30 (report_of "t2")
    ∷ clearing "t1"
    ∷ []

reports_bounded_example :
    (length (act_all acts no_reports).reports ≤ 200)
    × (length (act_all acts no_reports).times ≡ length (act_all acts no_reports).reports)
reports_bounded_example = reports_bounded acts

-- The events of waits without a report stay, after any time.
events_stay :
    (act_all (waiting "t1" 10 ∷ waiting "t2" 9000000 ∷ []) no_reports).events
    ≡ ("t1", false) ∷ ("t2", false) ∷ []
unfolding act_all begin_wait sweep get put pop
events_stay = refl
