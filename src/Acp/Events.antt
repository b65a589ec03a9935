-- ===== src/Acp/Events.antt =====
-- acp/events.py: a line of the output of acpx becomes an event. Lines stand as json.loads reads them; the
-- items of a list are never looked at, so that a list is empty or not.
pub mod Reading
mod Tests
use herdr_bridge.Prelude.{
  ℕ, Bool, true, false, not, ◌&&◌, Option, none, some, List, [], ◌∷◌, String, ◌==◌, text_key,
  nat_eq, if◌then◌else◌,
}

mutual
  pub data Json : Type 0 where
    null : Json
    boolean : Bool → Json
    number : ℕ → Json
    string : String → Json
    array : Bool → Json
    object : Members → Json

  pub data Members : Type 0 where
    end : Members
    member : String → Json → Members → Members

-- d.get(key)
unfoldable pub field : String → Members → Option Json
field key end = none
field key (member k v d) = let later = field key d in if k == key then some v else later

-- A line after strip(): empty, no JSON, or a JSON value.
pub data Line : Type 0 where
  blank : Line
  chrome : String → Line
  json : String → Json → Line

-- The dictionary of a raw event; a line of acpx itself has it as its only field.
pub record AcpEvent : Type 0 where
  pub kind : String
  pub session_id : Option Json
  pub content : Option Json
  pub raw : Members

-- An event, no event, or an exception.
pub data Parsed : Type 0 where
  skipped : Parsed
  event : AcpEvent → Parsed
  -- AttributeError
  raised : Parsed

abbrev pub is_falsy : Json → Bool
is_falsy null = true
is_falsy (boolean b) = not b
is_falsy (number n) = nat_eq n 0
is_falsy (string t) = t == ""
is_falsy (array nonempty) = not nonempty
is_falsy (object end) = true
is_falsy (object (member k v d)) = false

-- d.get(key, {}) or {}
abbrev pub or_object : Option Json → Json
or_object none = object end
or_object (some v) = if is_falsy v then object end else v

-- _chrome_event
abbrev pub chrome_event : String → AcpEvent
chrome_event line = record {
  kind = "cli_status";
  session_id = none;
  content = some (string line);
  raw = member "line" (string line) end;
}

abbrev pub is_text : Option Json → String → Bool
is_text (some (string t)) expected = t == expected
is_text other expected = false

abbrev pub text_content : Option Json → Option Json
text_content (some (object d)) = if is_text (field "type" d) "text" then field "text" d else none
text_content other = none

abbrev pub variant_or : String → Option Json → String
variant_or default (some (string t)) = t
variant_or default other = default

abbrev pub update_event : Members → Members → Json → Parsed
update_event payload params (object update) = event (record {
  kind = variant_or "session_update" (field "sessionUpdate" update);
  session_id = field "sessionId" params;
  content = text_content (field "content" update);
  raw = payload;
})
update_event payload params other = raised

abbrev pub session_update : Members → Json → Parsed
session_update payload (object params) =
    update_event payload params (or_object (field "update" params))
session_update payload other = raised

abbrev pub session_in : Json → Option Json
session_in (object d) = field "sessionId" d
session_in other = none

abbrev pub plain_event : String → Members → AcpEvent
plain_event kind payload = record { kind = kind; session_id = none; content = none; raw = payload }

abbrev pub has : Option Json → Bool
has none = false
has (some v) = true

abbrev pub answer_event : Members → AcpEvent
answer_event payload =
    if has (field "error" payload)
    then plain_event "error" payload
    else if has (field "result" payload)
    then plain_event "result" payload
    else plain_event "unknown" payload

abbrev pub method_event : Members → Option Json → Parsed
method_event payload (some (string method)) =
    if method == "session/update"
    then session_update payload (or_object (field "params" payload))
    else event (record (plain_event method payload) {
      session_id = session_in (or_object (field "params" payload));
    })
method_event payload other = event (answer_event payload)

-- parse_line
unfoldable pub parse_line : Line → Parsed
parse_line blank = skipped
parse_line (chrome line) = event (chrome_event line)
parse_line (json line (object payload)) = method_event payload (field "method" payload)
parse_line (json line other) = event (chrome_event line)

abbrev pub stopped_result : Option Json → Option Members
stopped_result (some (object d)) = if has (field "stopReason" d) then some d else none
stopped_result other = none

abbrev pub final_of : AcpEvent → Option Members
final_of e = if e.kind == "result" then stopped_result (field "result" e.raw) else none

abbrev pub newer : Option Members → Option Members → Option Members
newer none old = old
newer (some d) old = some d

abbrev pub final_from : Option Members → List AcpEvent → Option Members
final_from found [] = found
final_from found (e ∷ l) = final_from (newer (final_of e) found) l

-- extract_final_result
unfoldable pub extract_final_result : List AcpEvent → Option Members
extract_final_result l = final_from none l

-- list(parse_stream(lines)): none if a line raises
abbrev pub with_parsed : Parsed → Option (List AcpEvent) → Option (List AcpEvent)
with_parsed raised rest = none
with_parsed skipped rest = rest
with_parsed (event e) none = none
with_parsed (event e) (some l) = some (e ∷ l)

unfoldable pub parse_stream : List Line → Option (List AcpEvent)
parse_stream [] = some []
parse_stream (x ∷ l) = with_parsed (parse_line x) (parse_stream l)
