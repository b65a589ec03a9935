-- ===== src/Acp/Events/Reading.antt =====
-- When the reader of acp/events.py raises, and which result it takes as the final one.
use herdr_bridge.Prelude.{
  ◌≡◌, refl, ◌∙◌, Bool, true, false, not, ◌&&◌, Option, none, some, List, [], ◌∷◌, ◌==◌, text_key,
  if◌then◌else◌,
}
use herdr_bridge.Acp.Events.{
  Json, null, boolean, number, string, array, object, Members, field, Line, blank, chrome, json,
  AcpEvent, Parsed, skipped, event, raised, or_object, plain_event, session_in, update_event,
  session_update, method_event, parse_line, final_of, newer, final_from, extract_final_result,
}

abbrev pub is_object : Json → Bool
is_object (object d) = true
is_object other = false

abbrev pub lacks_object : Json → Bool
lacks_object (object d) = not (is_object (or_object (field "update" d)))
lacks_object other = true

abbrev pub is_update : Option Json → Bool
is_update (some (string method)) = method == "session/update"
is_update other = false

-- A session update whose parameters, or whose update, is given and is no object.
abbrev pub is_misshapen : Line → Bool
is_misshapen (json line (object payload)) =
    is_update (field "method" payload) && lacks_object (or_object (field "params" payload))
is_misshapen other = false

abbrev pub is_raised : Parsed → Bool
is_raised raised = true
is_raised skipped = false
is_raised (event e) = false

update_event-raised :
    (payload params : Members) (u : Json)
    → is_raised (update_event payload params u) ≡ not (is_object u)
update_event-raised payload params (object d) = refl
update_event-raised payload params null = refl
update_event-raised payload params (boolean b) = refl
update_event-raised payload params (number n) = refl
update_event-raised payload params (string t) = refl
update_event-raised payload params (array b) = refl

session_update-raised :
    (payload : Members) (p : Json) → is_raised (session_update payload p) ≡ lacks_object p
session_update-raised payload (object d) =
    update_event-raised payload d (or_object (field "update" d))
session_update-raised payload null = refl
session_update-raised payload (boolean b) = refl
session_update-raised payload (number n) = refl
session_update-raised payload (string t) = refl
session_update-raised payload (array b) = refl

named-raised :
    (b : Bool) (e : AcpEvent) (payload : Members) (p : Json)
    → is_raised (if b then session_update payload p else event e) ≡ (b && lacks_object p)
named-raised true e payload p = session_update-raised payload p
named-raised false e payload p = refl

method_event-raised :
    (payload : Members) (m : Option Json)
    → is_raised (method_event payload m)
      ≡ (is_update m && lacks_object (or_object (field "params" payload)))
method_event-raised payload none = refl
method_event-raised payload (some null) = refl
method_event-raised payload (some (boolean b)) = refl
method_event-raised payload (some (number n)) = refl
method_event-raised payload (some (array b)) = refl
method_event-raised payload (some (object d)) = refl
method_event-raised payload (some (string method)) =
    named-raised (method == "session/update")
      (record (plain_event method payload) {
        session_id = session_in (or_object (field "params" payload));
      })
      payload (or_object (field "params" payload))

-- The reader raises on no line but a session update whose parameters, or whose update, is given, is not
-- falsy, and is no object; on such a line it does raise.
pub parse_line-raised : (x : Line) → is_raised (parse_line x) ≡ is_misshapen x
unfolding parse_line
parse_line-raised blank = refl
parse_line-raised (chrome line) = refl
parse_line-raised (json line (object payload)) =
    method_event-raised payload (field "method" payload)
parse_line-raised (json line null) = refl
parse_line-raised (json line (boolean b)) = refl
parse_line-raised (json line (number n)) = refl
parse_line-raised (json line (string t)) = refl
parse_line-raised (json line (array b)) = refl

-- The final result, looked for from the end.
unfoldable pub last_result : List AcpEvent → Option Members
last_result [] = none
last_result (e ∷ l) = newer (last_result l) (final_of e)

newer_assoc : (a b c : Option Members) → newer a (newer b c) ≡ newer (newer a b) c
newer_assoc none b c = refl
newer_assoc (some d) b c = refl

final_from-last :
    (found : Option Members) (l : List AcpEvent) → final_from found l ≡ newer (last_result l) found
unfolding last_result
final_from-last found [] = refl
final_from-last found (e ∷ l) =
    final_from-last (newer (final_of e) found) l ∙ newer_assoc (last_result l) (final_of e) found

newer-none : (a : Option Members) → newer a none ≡ a
newer-none none = refl
newer-none (some d) = refl

pub extract_final_result-last : (l : List AcpEvent) → extract_final_result l ≡ last_result l
unfolding extract_final_result
extract_final_result-last l = final_from-last none l ∙ newer-none (last_result l)
