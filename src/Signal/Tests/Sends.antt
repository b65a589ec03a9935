-- ===== src/Signal/Tests/Sends.antt =====
-- A send, its polls and the later check.
use herdr_bridge.Prelude.{ℕ, ◌+◌, ◌*◌, ◌≡◌, refl, true, false, some, [], ◌∷◌, ◌⊎◌, ok}
use herdr_bridge.Table.{find}
use herdr_bridge.Signal.State.{needs_attention, injected}
use herdr_bridge.Signal.Store.{Rows, read_state}
use herdr_bridge.Signal.Store.Writes.{IsTable}
use herdr_bridge.Signal.Ack.{Reply, no_update}
use herdr_bridge.Signal.Ack.Escalation.{Escalates}
use herdr_bridge.Signal.Outbound.{
  Poll, World, answered, failed, wait_for_state, injected_or_later, is_due, check_needs_attention,
}
use herdr_bridge.Signal.Outbound.Attention.{check_needs_attention_cases}
use herdr_bridge.Signal.Tests.Data.{row_in, racing, racing-IsFair}

-- Polls every 100 ms that find the table as it is.
abbrev polls : ℕ → Poll
polls i = record { clock = 2000 + i * 100; before_read = λ t. t }

nothing_found : wait_for_state 5 polls 0 2300 "m1" injected_or_later [] ≡ some (false, [])
unfolding wait_for_state find
nothing_found = refl

-- The first attempt fails, the second is acknowledged.
abbrev world : World
world = record {
  first = failed;
  second = answered 40 "accepted" "m1";
  third = failed;
  escalating = racing;
  accepting = racing;
  polls = polls;
  start = 2000;
  fuel = 200;
  now = 16000;
}

abbrev waiting : Rows
waiting = row_in injected ∷ []

waiting-IsTable : IsTable waiting
unfolding find
waiting-IsTable = (refl, tt)

check_needs_attention_example :
    ((is_due 90000 (read_state "m1" waiting) ≡ false)
      × (check_needs_attention racing 90000 "m1" waiting ≡ (ok false, waiting)))
    ⊎ ((is_due 90000 (read_state "m1" waiting) ≡ true)
        × (reply : Reply) × (check_needs_attention racing 90000 "m1" waiting ≡ (ok true, reply.1))
        × Escalates "m1" needs_attention no_update racing waiting reply)
check_needs_attention_example =
    check_needs_attention_cases racing 90000 "m1" waiting racing-IsFair waiting-IsTable
