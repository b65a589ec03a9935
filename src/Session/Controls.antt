-- ===== src/Session/Controls.antt =====
-- The control leases of actions.py: `_ControlRegistry` and `ControlHandle`. Handles are objects with an
-- identity, so they stand in a store; each method runs under the lock of the registry.
pub mod Exclusive
pub mod Runs
use herdr_bridge.Prelude.{
  ℕ, suc, Bool, true, false, not, ◌&&◌, Option, none, some, List, [], ◌∷◌, ◌++◌, String, ◌==◌,
  text_key, nat_eq, if◌then◌else◌,
}
use herdr_bridge.Tasks.Dict.{Dict, get, put, pop}

pub record ControlHandle : Type 0 where
  pub pane_id : String
  pub actor_id : String
  pub mode : String
  pub released : Bool

-- An entry of the audit log: actor, action, pane.
abbrev pub Entry : Type 0
Entry = String × String × String

-- `handles` holds the handles that were made, `next` is the address of the next one.
pub record Registry : Type 0 where
  pub handles : ℕ → Option ControlHandle
  pub next : ℕ
  pub control_leases : Dict ℕ
  pub audit : List Entry

abbrev pub empty_registry : Registry
empty_registry = record { handles = λ _. none; next = 0; control_leases = []; audit = [] }

abbrev pub set_handle : ℕ → ControlHandle → (ℕ → Option ControlHandle) → ℕ → Option ControlHandle
set_handle i h handles j = if nat_eq i j then some h else handles j

abbrev pub record_audit : String → String → String → Registry → Registry
record_audit actor action pane r = record r { audit = r.audit ++ (actor, action, pane) ∷ [] }

-- existing is not None and not existing.released
abbrev pub holder_of : Option ControlHandle → Option String
holder_of none = none
holder_of (some h) = if h.released then none else some h.actor_id

abbrev pub handle_at : Registry → Option ℕ → Option ControlHandle
handle_at r none = none
handle_at r (some i) = r.handles i

abbrev pub held_by : Registry → String → Option String
held_by r pane = holder_of (handle_at r (get pane r.control_leases))

pub data Acquired : Type 0 where
  granted : ℕ → Acquired
  -- ControlLeaseError
  denied : String → Acquired

abbrev pub new_handle : String → String → String → ControlHandle
new_handle pane actor mode = record {
  pane_id = pane;
  actor_id = actor;
  mode = mode;
  released = false;
}

-- A handle is made, and becomes the lease of its pane if it is to control it.
abbrev pub grant : String → String → String → Registry → Acquired × Registry
grant pane actor mode r = (
  granted r.next,
  record_audit actor "acquire_control" pane (record r {
    handles = set_handle r.next (new_handle pane actor mode) r.handles;
    next = suc r.next;
    control_leases =
        if mode == "control" then put pane r.next r.control_leases else r.control_leases;
  }),
)

abbrev pub acquire_control :
    String → String → String → Registry → Option String → Acquired × Registry
acquire_control pane actor mode r none = grant pane actor mode r
acquire_control pane actor mode r (some holder) =
    (denied holder, record_audit actor "acquire_control_denied" pane r)

-- _ControlRegistry.acquire
unfoldable pub acquire : String → String → String → Registry → Acquired × Registry
acquire pane actor mode r =
    if mode == "control"
    then acquire_control pane actor mode r (held_by r pane)
    else grant pane actor mode r

abbrev pub is_lease : ℕ → Option ℕ → Bool
is_lease i none = false
is_lease i (some j) = nat_eq i j

abbrev pub free : ℕ → ControlHandle → Registry → Registry
free i h r = record_audit h.actor_id "release_control" h.pane_id (record r {
  handles = set_handle i (record h { released = true }) r.handles;
  control_leases =
      if is_lease i (get h.pane_id r.control_leases)
      then pop h.pane_id r.control_leases
      else r.control_leases;
})

abbrev pub release_handle : ℕ → Registry → Option ControlHandle → Registry
release_handle i r none = r
release_handle i r (some h) = if h.released then r else free i h r

-- _ControlRegistry.release
unfoldable pub release : ℕ → Registry → Registry
release i r = release_handle i r (r.handles i)

pub data Act : Type 0 where
  acquiring : String → String → String → Act
  releasing : ℕ → Act

abbrev pub perform : Act → Registry → Registry
perform (acquiring pane actor mode) r = (acquire pane actor mode r).1
perform (releasing i) r = release i r

-- Calls of any number of threads, in the order in which they took the lock.
unfoldable pub perform_all : List Act → Registry → Registry
perform_all [] r = r
perform_all (a ∷ l) r = perform_all l (perform a r)
