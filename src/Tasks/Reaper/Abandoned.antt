-- ===== src/Tasks/Reaper/Abandoned.antt =====
-- Which claims a scan of signal/daemon.py finds silent.
use herdr_bridge.Prelude.{
  ℕ, Bool, ◌&&◌, ltb, ◌≡◌, refl, false, Option, none, some, ◌==◌, text_key, arith,
}
use herdr_bridge.Tasks.Dict.{get}
use herdr_bridge.Tasks.Value.{Value, null, text, flag, number, container, Task}
use herdr_bridge.Tasks.Board.{get_or}
use herdr_bridge.Tasks.Pool.{is_text}
use herdr_bridge.Tasks.Reaper.{Scan, is_old, is_silent, is_due}

-- A task is claimed, and its heartbeat is there and more than ninety seconds old.
abbrev pub claims : Option Value → Bool
claims (some (text s)) = s == "claimed"
claims _ = false

abbrev pub is_overdue : Option ℕ → Bool
is_overdue none = false
is_overdue (some age) = ltb 90000 age

abbrev pub has_stopped : (Value → Option ℕ) → Option Value → Bool
has_stopped age none = false
has_stopped age (some null) = false
has_stopped age (some v) = is_overdue (age v)

abbrev pub is_abandoned : Scan → Task → Bool
is_abandoned scan task =
    claims (get "status" task) && has_stopped scan.age (get "heartbeat_ts" task)

is_overdue_lem : (o : Option ℕ) → is_old o ≡ is_overdue o
is_overdue_lem none = refl
is_overdue_lem (some age) = refl

silent-has_stopped :
    (scan : Scan) (v : Option Value) → is_silent scan (get_or null v) ≡ has_stopped scan.age v
silent-has_stopped scan none = refl
silent-has_stopped scan (some null) = refl
silent-has_stopped scan (some (text s)) = is_overdue_lem (scan.age (text s))
silent-has_stopped scan (some (flag b)) = is_overdue_lem (scan.age (flag b))
silent-has_stopped scan (some (number m n)) = is_overdue_lem (scan.age (number m n))
silent-has_stopped scan (some (container a b)) = is_overdue_lem (scan.age (container a b))

text-claims : (v : Option Value) → is_text "claimed" (get_or null v) ≡ claims v
text-claims none = refl
text-claims (some v) = ground arith

pub due-is_abandoned : (scan : Scan) (task : Task) → is_due scan task ≡ is_abandoned scan task
unfolding is_due
due-is_abandoned scan task =
    ground
      (arith, text-claims (get "status" task), silent-has_stopped scan (get "heartbeat_ts" task))
