-- ===== src/Fleet/Tests.antt =====
-- Alarms of a small board.
use herdr_bridge.Prelude.{
  ◌≡◌, ◌≢◌, ◌*◌, refl, ap, arith, Result, none, some, [], ◌∷◌, String, ◌==◌, text_key, pair_key, ok,
  raise, Any, inl,
}
use herdr_bridge.Table.{find, upsert}
use herdr_bridge.Tasks.Dict.{Dict, get}
use herdr_bridge.Tasks.Value.{text, Board, Error}
use herdr_bridge.Fleet.{
  Health, Anomaly, Detail, tier, stamp, Seen, AlarmKey, check_task, check_tasks, check_fleet_health,
  record_seen, filter_from, filter_new_anomalies,
}
use herdr_bridge.Fleet.Alarms.{key_at, returning_is_fresh}

-- The tier alone, as a text.
abbrev shown : Dict Detail → String
shown [] = "[]"
shown (e ∷ d) = "stale"

abbrev health : Health
health = record {
  age = λ v. some 400000;
  float = λ v. none;
  is_blank = λ s. s == "";
  heartbeat_stale = 180 * 1000;
  error_count_threshold = 3 * 1000;
}

abbrev board : Board
board = record {
  tasks = some (
      (
        "T1",
        ("task_id", text "T1") ∷ ("status", text "claimed") ∷ ("heartbeat_ts", text "then") ∷ [],
      )
      ∷ (
        "T2",
        ("task_id", text "T2") ∷ ("status", text "done") ∷ ("delivered_content", text "") ∷ [],
      )
      ∷ []);
  others = [];
}

abbrev stale : Anomaly
stale = record {
  rule_code = "heartbeat_stale";
  severity = "critical";
  task_id = text "T1";
  worker = none;
  signature_detail = ("heartbeat_ts", stamp (text "then")) ∷ ("stale_tier", tier 2) ∷ [];
}

abbrev void : Anomaly
void = record {
  rule_code = "empty_delivery";
  severity = "critical";
  task_id = text "T2";
  worker = none;
  signature_detail = [];
}

check_board : check_fleet_health health board ≡ stale ∷ void ∷ []
unfolding check_fleet_health check_tasks check_task get
check_board = refl

abbrev id_of : Result Error AlarmKey → String
id_of (ok k) = k.0
id_of (raise e) = ""

other_key : key_at void ≢ key_at stale
other_key h = absurd (ground (arith, ap (λ r. id_of r == "T2") h))

abbrev seen_both : Seen
seen_both = (("T1", "heartbeat_stale"), "stale") ∷ (("T2", "empty_delivery"), "[]") ∷ []

returning_is_fresh_example : Any (λ b. b ≡ stale) (stale ∷ [])
unfolding filter_new_anomalies filter_from record_seen find upsert
returning_is_fresh_example =
    returning_is_fresh shown stale ("T1", "heartbeat_stale") (void ∷ []) (stale ∷ []) seen_both
      ((("T2", "empty_delivery"), "[]") ∷ []) ((("T1", "heartbeat_stale"), "stale") ∷ []) []
      (stale ∷ []) refl (other_key, tt) refl refl (inl refl)
