-- ===== src/Carrier/Events.antt =====
-- `CarrierEvent`, `recv_binary` and the sends of `Carrier` (rekaserdoba/src/main.rs). What `recv`
-- will answer stands in a list; when it is used up, the carrier fails. A send is taken to succeed.
use reka_serdoba.Common.{ℕ, Bool, List, [], ◌∷◌, ◌++◌, if◌then◌else◌, Result, ok, err}
use reka_serdoba.Common.Steps.{Step}
use reka_serdoba.Errors.{Error, carrier_failed, carrier_closed, expected_binary_message}

pub data CarrierEvent : Type 0 where
  binary ping : List ℕ → CarrierEvent
  close ignore : CarrierEvent

pub data Outgoing : Type 0 where
  binary_message pong : List ℕ → Outgoing

-- A carrier, with the messages that it has sent, oldest first.
pub record Link : Type 0 where
  pub is_web_socket : Bool
  pub incoming : List (Result Error CarrierEvent)
  pub sent : List Outgoing

abbrev pub LinkStep : Type 0 → Type 0
LinkStep A = Step Link Error A

abbrev next_event : List (Result Error CarrierEvent) → Result Error CarrierEvent
next_event [] = err carrier_failed
next_event (event ∷ incoming) = event

abbrev later_events : List (Result Error CarrierEvent) → List (Result Error CarrierEvent)
later_events [] = []
later_events (event ∷ incoming) = incoming

-- `Carrier::recv`
unfoldable pub recv : LinkStep CarrierEvent
recv link = (record link { incoming = later_events link.incoming }, next_event link.incoming)

abbrev pub binary_of : Result Error CarrierEvent → Result Error (List ℕ)
binary_of (ok (binary value)) = ok value
binary_of (ok close) = err carrier_closed
binary_of (ok (ping value)) = err expected_binary_message
binary_of (ok ignore) = err expected_binary_message
binary_of (err e) = err e

-- `recv_binary`
unfoldable pub recv_binary : LinkStep (List ℕ)
unfolding recv
recv_binary link = ((recv link).0, binary_of (recv link).1)

-- `Carrier::send_binary`
unfoldable pub send_binary : List ℕ → LinkStep (Unit {0})
send_binary payload link =
    (record link { sent = link.sent ++ (binary_message payload ∷ []) }, ok tt)

-- `Carrier::send_pong`
unfoldable pub send_pong : List ℕ → LinkStep (Unit {0})
send_pong payload link = (
  if link.is_web_socket then record link { sent = link.sent ++ (pong payload ∷ []) } else link,
  ok tt,
)
