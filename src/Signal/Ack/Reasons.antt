-- ===== src/Signal/Ack/Reasons.antt =====
-- From which states `mark_escalated` writes its reasons.
use herdr_bridge.Prelude.{◌≡◌, Bool, true, false, Option, none, some, ok, arith}
use herdr_bridge.Signal.State.{
  State, accepted, injected, validate, daemon_unreachable, injection_unconfirmed, needs_attention,
}
use herdr_bridge.Signal.Ack.{is_reason, is_stale}

-- Where a message may be escalated from: from nothing, if its daemon is unreachable; from "accepted", if its
-- injection is not confirmed; from "injected", if it needs attention; and again for the same reason.
abbrev pub may_escalate : Option State → State → Bool
may_escalate none daemon_unreachable = true
may_escalate (some daemon_unreachable) daemon_unreachable = true
may_escalate (some accepted) injection_unconfirmed = true
may_escalate (some injection_unconfirmed) injection_unconfirmed = true
may_escalate (some injected) needs_attention = true
may_escalate (some needs_attention) needs_attention = true
may_escalate _ _ = false

pub stale-may_escalate :
    (s reason : State)
    → is_reason reason ≡ true
    → is_stale (some s) reason ≡ true
    → may_escalate (some s) reason ≡ false
stale-may_escalate s daemon_unreachable i h = ground arith
stale-may_escalate s injection_unconfirmed i h = ground arith
stale-may_escalate s needs_attention i h = ground arith
stale-may_escalate s _ i h = absurd (cc)

pub valid-may_escalate :
    (s : Option State) (reason : State)
    → is_reason reason ≡ true
    → validate s reason ≡ ok tt
    → may_escalate s reason ≡ true
unfolding validate
valid-may_escalate s daemon_unreachable i h = ground arith
valid-may_escalate s injection_unconfirmed i h = ground arith
valid-may_escalate s needs_attention i h = ground arith
valid-may_escalate s _ i h = absurd (cc)
