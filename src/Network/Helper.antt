-- ===== src/Network/Helper.antt =====
-- The helper that has the TUN device (rekaserdoba/src/bin/net_helper.rs), a turn of its loop at a
-- time. What the device and the socket answer is part of a turn.
use reka_serdoba.Common.{
  ℕ, ◌/◌, Bool, true, false, not, ◌&&◌, ◌||◌, bit_and, Option, none, some, List, [], ◌∷◌, ◌++◌,
  length, get_or, slice, ltb, ◌==◌, bytes_eq, if◌then◌else◌, Result, ok, err, bail_if,
}
use reka_serdoba.Common.Words.{from_be}
use reka_serdoba.Errors.{
  Error, invalid_network_helper_configuration, read_helper_tun, partial_packet_send_to_edge,
  send_packet_to_edge, receive_packet_from_edge, partial_registration_acknowledgement,
  send_registration_acknowledgement, write_helper_tun, partial_helper_tun_write,
}
use reka_serdoba.Record.Keys.{codes}
use reka_serdoba.Packets.{header_len}
use reka_serdoba.Network.{prefix_mask}

-- The arguments of the program that its loop reads.
pub record HelperSettings : Type 0 where
  pub address : ℕ
  pub prefix : ℕ
  pub mtu : ℕ

-- The check of the arguments, `prefix` and `mtu` being of 8 and 16 bits.
unfoldable pub check_arguments : List ℕ → HelperSettings → Result Error (Unit {0})
check_arguments name h =
    bail_if
      (length name == 0
        || (ltb 15 (length name) || (ltb 32 h.prefix || (ltb h.mtu 576 || ltb 9000 h.mtu))))
      invalid_network_helper_configuration

unfoldable pub network_of : HelperSettings → ℕ
network_of h = bit_and h.address (prefix_mask h.prefix)

-- `valid_ipv4`
unfoldable pub valid_ipv4 : HelperSettings → List ℕ → Bool
valid_ipv4 h packet =
    not (ltb (length packet) 20 || (ltb h.mtu (length packet) || not (get_or packet 0 0 / 16 == 4)))
    && (not (
          ltb (header_len packet) 20
          || (ltb (length packet) (header_len packet)
              || not (from_be (slice 2 4 packet) == length packet)))
        && (bit_and (from_be (slice 12 16 packet)) (prefix_mask h.prefix) == network_of h))

-- What the loop keeps, with what it has sent to the edge and written to the device, oldest first.
pub record Helper : Type 0 where
  pub edge_registered : Bool
  pub to_edge : List (List ℕ)
  pub to_device : List (List ℕ)

abbrev pub idle : Helper
idle = record { edge_registered = false; to_edge = []; to_device = [] }

-- How a send ends; `edge_unavailable` are the errors for a socket that is not there or refuses.
pub data Sent : Type 0 where
  written : ℕ → Sent
  edge_unavailable failed : Sent

-- A turn: a packet off the device with how it can be sent on, or a message of the edge's socket, from
-- its path or another one, with how an acknowledgement and a write end.
pub data Event : Type 0 where
  from_device : (packet : Option (List ℕ)) (sending : Sent) → Event
  from_edge :
      (is_client_path : Bool) (packet : Option (List ℕ)) (acknowledging : Sent) (writing : Option ℕ)
      → Event

abbrev pub Outcome : Type 0
Outcome = Helper × Result Error (Unit {0})

abbrev pub log_edge : List ℕ → Helper → Helper
log_edge packet h = record h { to_edge = h.to_edge ++ (packet ∷ []) }

abbrev pub send_on : List ℕ → Sent → Helper → Outcome
send_on packet (written n) h =
    if n == length packet then (log_edge packet h, ok tt) else (h, err partial_packet_send_to_edge)
send_on packet edge_unavailable h = (record h { edge_registered = false }, ok tt)
send_on packet failed h = (h, err send_packet_to_edge)

abbrev pub acknowledge : Sent → Helper → Outcome
acknowledge (written n) h =
    if n == 4
    then (record h { edge_registered = true }, ok tt)
    else (record h { edge_registered = true }, err partial_registration_acknowledgement)
acknowledge edge_unavailable h = (record h { edge_registered = false }, ok tt)
acknowledge failed h = (record h { edge_registered = true }, err send_registration_acknowledgement)

abbrev pub write_device : List ℕ → Option ℕ → Helper → Outcome
write_device packet none h = (h, err write_helper_tun)
write_device packet (some n) h =
    if n == length packet
    then (record h { to_device = h.to_device ++ (packet ∷ []) }, ok tt)
    else (h, err partial_helper_tun_write)

abbrev pub is_ok : Result Error (Unit {0}) → Bool
is_ok (ok done) = true
is_ok (err e) = false

module _ (settings : HelperSettings) where
  -- The arm of `select!` for the edge's socket.
  unfoldable pub edge_turn : Bool → List ℕ → Sent → Option ℕ → Helper → Outcome
  edge_turn is_client_path packet acknowledging writing h =
      if not is_client_path
      then (h, ok tt)
      else if bytes_eq packet (codes "RSN1")
      then acknowledge acknowledging h
      else if not h.edge_registered || not (valid_ipv4 settings packet)
      then (h, ok tt)
      else write_device packet writing h

  unfoldable pub turn : Event → Helper → Outcome
  turn (from_device none sending) h = (h, err read_helper_tun)
  turn (from_device (some packet) sending) h =
      if h.edge_registered then send_on packet sending h else (h, ok tt)
  turn (from_edge is_client_path none acknowledging writing) h = (h, err receive_packet_from_edge)
  turn (from_edge is_client_path (some packet) acknowledging writing) h =
      edge_turn is_client_path packet acknowledging writing h

  -- The loop, which an error ends.
  unfoldable pub run : List Event → Helper → Helper
  run [] h = h
  run (event ∷ events) h =
      let x = turn event h in let rest = run events x.0 in if is_ok x.1 then rest else x.0
