-- ===== src/Leader/Tests.antt =====
-- leader/permissions.py at concrete inputs.
use herdr_bridge.Prelude.{◌≡◌, refl, Bool, true, false, not, String, ◌==◌, text_key, ◌&&◌, ◌||◌}
use herdr_bridge.Leader.{in_root, allow, deny, is_write_tool, judge, evaluate}
use herdr_bridge.Leader.Rulings.{is_allowed, matches, is_guarded, is_own, evaluate_decides}

-- What `fnmatch` answers for the patterns of the root "/r", on three paths.
abbrev glob : String → String → Bool
glob path pattern =
    pattern == "/r/**"
    || (path == "/r/charter/c.md" && pattern == "/r/charter/**"
        || (path == "/r/config/a.json" && pattern == "/r/config/**"
            || path == "/r/dispatch/../charter/c.md" && pattern == "/r/dispatch/**"))

evaluate_decides_example :
    (is_allowed (evaluate glob "/h" "Edit" "/r/charter/c.md" "/r").verdict ≡ (
      not (is_write_tool "Edit")
      || (matches glob "/h" "/r/charter/c.md" "/r" (in_root "/dispatch/**")
          || (not (is_guarded glob "/h" "/r/charter/c.md" "/r")
              && is_own glob "/h" "/r/charter/c.md" "/r"))))
    × ((evaluate glob "/h" "Edit" "/r/charter/c.md" "/r").confirmation ≡ (
        is_write_tool "Edit"
        && (not (matches glob "/h" "/r/charter/c.md" "/r" (in_root "/dispatch/**"))
            && (not (is_guarded glob "/h" "/r/charter/c.md" "/r")
                && matches glob "/h" "/r/charter/c.md" "/r" (in_root "/config/**")))))
evaluate_decides_example = evaluate_decides glob "/h" "/r/charter/c.md" "/r" "Edit"

charter_is_denied :
    evaluate glob "/h" "Edit" "/r/charter/c.md" "/r"
    ≡ record { verdict = deny; rule_id = "deny-charter"; confirmation = false }
unfolding evaluate judge
charter_is_denied = refl

config_is_confirmed :
    evaluate glob "/h" "Edit" "/r/config/a.json" "/r"
    ≡ record { verdict = allow; rule_id = "allow-own-config-with-confirm"; confirmation = true }
unfolding evaluate judge
config_is_confirmed = refl

-- The same file of the charter, by a path with "..".
dotted_charter_is_allowed :
    evaluate glob "/h" "Edit" "/r/dispatch/../charter/c.md" "/r"
    ≡ record { verdict = allow; rule_id = "allow-dispatch-own"; confirmation = false }
unfolding evaluate judge
dotted_charter_is_allowed = refl
