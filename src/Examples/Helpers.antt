-- ===== src/Examples/Helpers.antt =====
-- The helper at concrete inputs.
use reka_serdoba.Common.{
  ℕ, ◌≡◌, refl, true, false, none, some, List, [], ◌∷◌, replicate, slice, bytes_eq, ok, err, arith,
}
use reka_serdoba.Common.Words.{from_be}
use reka_serdoba.Common.Maps.{find}
use reka_serdoba.Errors.{write_helper_tun}
use reka_serdoba.Record.Keys.{codes}
use reka_serdoba.Packets
use reka_serdoba.Packets.{validate_ipv4_packet}
use reka_serdoba.Handshake.Auth.{Client}
use reka_serdoba.Network.{prefix_mask}
use reka_serdoba.Network.Helper.{
  HelperSettings, network_of, valid_ipv4, check_arguments, Helper, idle, written, edge_unavailable,
  Event, from_device, from_edge, edge_turn, turn, run,
}
use reka_serdoba.Network.Passing.{turn-accepted}
use reka_serdoba.Examples.Configs.{runtime, client-Serves}

-- The device 10.77.0.1/24.
abbrev settings : HelperSettings
settings = record { address = 172818433; prefix = 24; mtu = 1280 }

-- A header alone, from 10.77.0.2 to 10.77.0.1.
abbrev packet : List ℕ
packet =
    69 ∷ 0 ∷ 0 ∷ 20 ∷ 0 ∷ 0 ∷ 0 ∷ 0 ∷ 64 ∷ 17 ∷ 102 ∷ 61 ∷ 10 ∷ 77 ∷ 0 ∷ 2 ∷ 10 ∷ 77 ∷ 0 ∷ 1 ∷ []

-- The header, but from 10.78.0.2.
abbrev foreign : List ℕ
foreign =
    69 ∷ 0 ∷ 0 ∷ 20 ∷ 0 ∷ 0 ∷ 0 ∷ 0 ∷ 64 ∷ 17 ∷ 102 ∷ 60 ∷ 10 ∷ 78 ∷ 0 ∷ 2 ∷ 10 ∷ 77 ∷ 0 ∷ 1 ∷ []

permitted : check_arguments (codes "rs0") settings ≡ ok tt
unfolding check_arguments
permitted = refl

-- A packet before the registration, and one that the edge is not there to take, are lost.
abbrev events : List Event
events =
    from_device (some packet) (written 20)
    ∷ from_edge true (some packet) (written 4) (some 20)
    ∷ from_edge true (some (codes "RSN1")) (written 4) none
    ∷ from_device (some packet) (written 20)
    ∷ from_edge true (some packet) (written 4) (some 20)
    ∷ from_edge true (some foreign) (written 4) (some 20)
    ∷ from_edge false (some packet) (written 4) (some 20)
    ∷ from_device (some packet) edge_unavailable
    ∷ from_edge true (some packet) (written 4) (some 20)
    ∷ []

passed :
    run settings events idle
    ≡ record { edge_registered = false; to_edge = packet ∷ []; to_device = packet ∷ [] }
unfolding run turn edge_turn valid_ipv4 network_of prefix_mask Packets.header_len slice from_be
    bytes_eq
passed = refl

abbrev joined : Helper
joined = record { edge_registered = true; to_edge = []; to_device = [] }

not_written :
    turn settings (from_edge true (some packet) (written 4) none) joined
    ≡ (joined, err write_helper_tun)
unfolding turn edge_turn valid_ipv4 network_of prefix_mask Packets.header_len slice from_be bytes_eq
not_written = refl

abbrev client : Client
client = record {
  id = replicate 16 2;
  gate_key = replicate 32 6;
  public_key = replicate 32 5;
  tunnel_ipv4 = 10 ∷ 77 ∷ 0 ∷ 2 ∷ [];
  session_lifetime_seconds = 3600;
  bandwidth_bytes_per_second = 1048576;
  session_quota_bytes = 0;
}

client_found : find 2668881309183831085987251822994260482 runtime.clients ≡ some client
unfolding find
client_found = refl

accepted : validate_ipv4_packet packet client.tunnel_ipv4 ≡ ok tt
unfolding validate_ipv4_packet Packets.header_len Packets.ipv4_checksum Packets.fold_carry
    Packets.word_sum slice from_be bytes_eq
accepted = refl

turn-accepted_example :
    turn settings (from_edge true (some packet) (written 4) (some 20)) joined
    ≡ (record { edge_registered = true; to_edge = []; to_device = packet ∷ [] }, ok tt)
turn-accepted_example =
    turn-accepted (λ _. true) runtime.clients settings 2668881309183831085987251822994260482 client
      packet (written 4) joined (omega arith) client-Serves client_found (omega arith) accepted
      (omega arith) refl
