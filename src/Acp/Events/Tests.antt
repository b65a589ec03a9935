-- ===== src/Acp/Events/Tests.antt =====
-- Lines of acpx, and the theorems about the reader and the prompts at concrete inputs.
use herdr_bridge.Prelude.{◌≡◌, refl, true, List, [], ◌∷◌}
use herdr_bridge.Acp.Events.{
  string, array, object, end, member, field, Line, json, chrome, blank, raised, parse_line,
  parse_stream, extract_final_result,
}
use herdr_bridge.Acp.Events.Reading.{is_raised, is_misshapen, parse_line-raised}
use herdr_bridge.Acp.Prompts.{returned, run_once, run_prompt}

-- A session update whose parameters are a list.
abbrev list_update : Line
list_update =
    json "" (object (member "method" (string "session/update") (member "params" (array true) end)))

list_update_raises : parse_line list_update ≡ raised
unfolding parse_line field
list_update_raises = refl

parse_line-raised_example : is_raised (parse_line list_update) ≡ is_misshapen list_update
parse_line-raised_example = parse_line-raised list_update

abbrev answer : Line
answer =
    json "" (object (member "result" (object (member "stopReason" (string "end_turn") end)) end))

abbrev lines : List Line
lines = blank ∷ chrome "[acpx] ready" ∷ answer ∷ []

-- A run that asks for a reconnection is followed by one more, and no other.
reconnects_once : (run_prompt (returned [] true) (returned [] true)).0 ≡ 2
unfolding run_prompt run_once parse_stream extract_final_result
reconnects_once = refl
