-- ===== src/Session/Client.antt =====
-- The socket client of client.py: error envelopes, the unwrapping of results, and one request.
pub mod Reader
use herdr_bridge.Prelude.{
  ℕ, suc, Bool, true, false, not, ◌&&◌, ◌||◌, Option, none, some, List, [], ◌∷◌, String, ◌==◌,
  text_key, leb, if◌then◌else◌, Result, ok, raise,
}
use herdr_bridge.Tasks.Dict.{Dict, get}
use herdr_bridge.Session.Cache.{Value, Fields, text_at, text_or}

pub data ClientError : Type 0 where
  -- HerdrConnectionError
  connection_error : ClientError
  -- HerdrTimeoutError
  timeout_error : ClientError
  -- AgentNotFoundError(code, message)
  agent_not_found : String → String → ClientError
  -- HerdrApiError(code, message)
  api_error : String → String → ClientError
  -- ValueError: the line is not JSON
  value_error : ClientError

-- The value of a key of a result: an object, or anything else.
pub data Member : Type 0 where
  nested : Fields → Member
  plain : Value → Member

pub data ErrorField : Type 0 where
  error_object : Fields → ErrorField
  error_other : ErrorField

-- A line from the server, as json.loads reads it. `result` is resp.get("result", {}).
pub data Line : Type 0 where
  malformed : Line
  not_object : Line
  envelope : Option ErrorField → Dict Member → Line

-- code in _NOT_FOUND_CODES
abbrev pub is_not_found : String → Bool
is_not_found code =
    code == "pane_not_found" || code == "agent_not_found" || code == "terminal_not_found"

abbrev pub coded_error : String → String → ClientError
coded_error code message =
    if is_not_found code then agent_not_found code message else api_error code message

-- SocketClient._raise_for_error, after json.loads
unfoldable pub raise_for_error : Line → Result ClientError (Dict Member)
raise_for_error malformed = raise value_error
raise_for_error not_object = raise connection_error
raise_for_error (envelope none result) = ok result
raise_for_error (envelope (some error_other) result) = raise connection_error
raise_for_error (envelope (some (error_object err)) result) =
    raise
      (coded_error (text_or "unknown" (text_at "code" err)) (text_or "" (text_at "message" err)))

-- [k for k in result if k != "type"], with the values
abbrev pub resources : Dict Member → Dict Member
resources [] = []
resources ((k, v) ∷ d) = let later = resources d in if k == "type" then later else (k, v) ∷ later

pub data Unwrapped : Type 0 where
  inner : Fields → Unwrapped
  as_is : Dict Member → Unwrapped

abbrev pub unwrap_single : Dict Member → Dict Member → Unwrapped
unwrap_single result ((k, nested f) ∷ []) = inner f
unwrap_single result other = as_is result

-- SocketClient.unwrap
unfoldable pub unwrap : Dict Member → Unwrapped
unwrap result = unwrap_single result (resources result)

-- What comes of reading one line: readline(_MAX_LINE_BYTES) raises, gives "" at the end, or a line with
-- its length and whether it ends in a newline.
pub data Reading : Type 0 where
  timed_out : Reading
  os_error : Reading
  ended : Reading
  read : ℕ → Bool → Line → Reading

abbrev pub max_line_bytes : ℕ
max_line_bytes = 16777216

-- _check_line_limit
abbrev pub over_limit : ℕ → Bool → Bool
over_limit size newline = leb max_line_bytes size && not newline

-- SocketClient._connect: two attempts, each of which succeeds or raises OSError.
unfoldable pub connects : Bool → Bool → Bool
connects first second = if first then true else second

abbrev pub received : Reading → Result ClientError (Dict Member)
received timed_out = raise timeout_error
received os_error = raise connection_error
received ended = raise connection_error
received (read size newline line) =
    if over_limit size newline then raise connection_error else raise_for_error line

-- SocketClient.request
unfoldable pub request : Bool → Reading → Result ClientError (Dict Member)
request connected reading = if connected then received reading else raise connection_error

abbrev pub unwrapped : Result ClientError (Dict Member) → Result ClientError Unwrapped
unwrapped (ok result) = ok (unwrap result)
unwrapped (raise e) = raise e

-- SocketClient.call
abbrev pub call : Bool → Reading → Result ClientError Unwrapped
call connected reading = unwrapped (request connected reading)
