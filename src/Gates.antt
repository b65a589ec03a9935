-- ===== src/Gates.antt =====
-- gates.py: the checks before a transition, read from a file with a short cache.
pub mod Checks
mod Tests
use herdr_bridge.Prelude.{
  ℕ, suc, ◌+◌, Bool, true, false, not, ◌&&◌, Option, none, some, List, [], ◌∷◌, String, ◌==◌,
  text_key, nat_eq, Result, ok, raise, ltb, if◌then◌else◌,
}
use herdr_bridge.Tasks.Dict.{Dict, get}
use herdr_bridge.Tasks.Value.{Value, text, container, is_given, Error, key_error, type_error}
use herdr_bridge.Tasks.Pool.{is_text}

abbrev pub Gate : Type 0
Gate = Dict Value

-- What the path resolution and the file bring: no file, a file that cannot be read or parsed, or an
-- object with or without the member "gates"; a file has a modification time.
pub data Source : Type 0 where
  absent : Source
  broken : ℕ → Source
  file : ℕ → Option (List Gate) → Source

-- The fields of `GateExecutor`, with times in milliseconds.
pub record Executor : Type 0 where
  pub cache : Option (Option (List Gate))
  pub cache_mtime : ℕ
  pub cache_loaded_at : ℕ
  pub parse_call_count : ℕ

-- _CACHE_TTL_SECONDS
abbrev pub cache_ttl : ℕ
cache_ttl = 1000

abbrev pub is_cached : ℕ → ℕ → Executor → Bool
is_cached now mtime x = ltb now (x.cache_loaded_at + cache_ttl) && nat_eq mtime x.cache_mtime

-- self._cache["gates"]
abbrev pub gates_of : Option (List Gate) → Result Error (List Gate)
gates_of none = raise key_error
gates_of (some gates) = ok gates

-- data.get("gates", [])
abbrev pub or_no_gates : Option (List Gate) → List Gate
or_no_gates none = []
or_no_gates (some gates) = gates

-- From the count of the parses on.
abbrev pub parse : ℕ → Source → Executor → Result Error (List Gate) × Executor
parse now (file mtime data') x = (
  ok (or_no_gates data'),
  record x {
    cache = some data';
    cache_mtime = mtime;
    cache_loaded_at = now;
    parse_call_count = suc x.parse_call_count;
  },
)
parse now _ x = (ok [], record x { parse_call_count = suc x.parse_call_count })

-- The cache, if there is one and it is young and of that file.
abbrev pub from_cache :
    ℕ → ℕ → Source → Executor → Option (Option (List Gate)) → Result Error (List Gate) × Executor
from_cache now mtime source x none = parse now source x
from_cache now mtime source x (some data') =
    if is_cached now mtime x then (gates_of data', x) else parse now source x

-- _load_gates
unfoldable pub load_gates : ℕ → Source → Executor → Result Error (List Gate) × Executor
load_gates now absent x = (ok [], x)
load_gates now (broken mtime) x = from_cache now mtime (broken mtime) x x.cache
load_gates now (file mtime data') x = from_cache now mtime (file mtime data') x x.cache

-- The members of the context that the checks read.
pub record Context : Type 0 where
  pub pane : Option Value
  pub agent : Option Value
  pub dispatch_receipt : Option Value
  pub blocked_reason : Option Value

-- _CHECK_FUNCS.get(name), applied to the context
abbrev pub check_named : String → Context → Option Bool
check_named name ctx =
    if name == "target_pane_and_agent_present"
    then some (is_given ctx.pane && is_given ctx.agent)
    else if name == "dispatch_receipt_present"
    then some (is_given ctx.dispatch_receipt)
    else if name == "blocked_reason_present"
    then some (is_given ctx.blocked_reason)
    else none

pub data GateResult : Type 0 where
  passed : GateResult
  rejected : Value → Value → GateResult

abbrev pub check_value : Value → Context → Result Error (Option Bool)
check_value (text name) ctx = ok (check_named name ctx)
check_value (container _ _) ctx = raise type_error
check_value _ ctx = ok none

-- gate["id"], gate["error_msg"]
abbrev pub reject : Option Value → Option Value → Result Error GateResult
reject (some id) (some message) = ok (rejected id message)
reject _ _ = raise key_error

abbrev pub judge :
    Gate → Result Error (Option Bool) → Result Error GateResult → Result Error GateResult
judge gate (raise e) later = raise e
judge gate (ok none) later = later
judge gate (ok (some true)) later = later
judge gate (ok (some false)) later = reject (get "id" gate) (get "error_msg" gate)

-- gate["check"]
abbrev pub check_gate :
    Context → Gate → Option Value → Result Error GateResult → Result Error GateResult
check_gate ctx gate none later = raise key_error
check_gate ctx gate (some v) later = judge gate (check_value v ctx) later

-- gate["trigger"] != trigger
abbrev pub select :
    String → Context → Gate → Option Value → Result Error GateResult → Result Error GateResult
select trigger ctx gate none later = raise key_error
select trigger ctx gate (some v) later =
    if is_text trigger v then check_gate ctx gate (get "check" gate) later else later

-- The loop of `check`.
unfoldable pub check_gates : String → Context → List Gate → Result Error GateResult
check_gates trigger ctx [] = ok passed
check_gates trigger ctx (gate ∷ gates) =
    select trigger ctx gate (get "trigger" gate) (check_gates trigger ctx gates)

abbrev pub then_check : String → Context → Result Error (List Gate) → Result Error GateResult
then_check trigger ctx (ok gates) = check_gates trigger ctx gates
then_check trigger ctx (raise e) = raise e

-- GateExecutor.check
unfoldable pub check : ℕ → Source → String → Context → Executor → Result Error GateResult × Executor
unfolding load_gates
check now source trigger ctx x =
    let (gates, x') = load_gates now source x in (then_check trigger ctx gates, x')
