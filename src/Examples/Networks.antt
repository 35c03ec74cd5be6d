-- ===== src/Examples/Networks.antt =====
-- The network at a concrete run.
use reka_serdoba.Common.{
  ℕ, ◌≡◌, refl, false, true, none, some, List, [], ◌∷◌, ◌++◌, replicate, slice, ok,
}
use reka_serdoba.Common.Maps.{find, insert}
use reka_serdoba.Common.Words.{from_be}
use reka_serdoba.Packets.{header_len}
use reka_serdoba.Errors.{client_already_has_an_active_session}
use reka_serdoba.Network.{
  Network, TunSettings, fresh, register, drop_lease, receive_packet, route_to_session,
  ipv4_destination, create, validate_settings,
}
use reka_serdoba.Network.Device.{HelperReader, read_tun}
use reka_serdoba.Network.Leases.{IsLeased}
use reka_serdoba.Network.Runs.{Reachable, network-IsLeased}
use reka_serdoba.Network.Counters.{AddsUp, network-AddsUp}

-- 10.77.0.2 and 10.77.0.3
abbrev first : ℕ
first = 172818434

abbrev second : ℕ
second = 172818435

-- A packet for the first address.
abbrev packet : List ℕ
packet = 0x45 ∷ 0 ∷ 0 ∷ 20 ∷ (replicate 12 0 ++ (10 ∷ 77 ∷ 0 ∷ 2 ∷ []))

abbrev settings : TunSettings
settings = record {
  name = 114 ∷ 115 ∷ [];
  address = [];
  prefix_len = 24;
  mtu = 1280;
  session_queue = 64;
  helper_socket = none;
  helper_client_socket = none;
}

created : create (λ _. some 172818433) settings (ok tt) ≡ ok (fresh 64 true)
unfolding create validate_settings
created = refl

to_first : ipv4_destination packet ≡ some first
unfolding ipv4_destination header_len from_be slice
to_first = refl

-- Two sessions get their addresses, a third one is refused, a packet comes, one that is no packet
-- does, and the first session ends.
abbrev two_leases : Network
two_leases = (register second 6 (register first 5 (fresh 64 true)).0).0

abbrev after_packets : Network
after_packets =
    read_tun true (some []) (read_tun true (some packet) (register first 7 two_leases).0)

abbrev ended : HelperReader
ended = record {
  network = drop_lease (record { ip = first; id = 1 }) after_packets;
  registration_failed = false;
  receive_failed = false;
}

run :
    Reachable false ended
      ((second, record { id = 2; outbound = 6 }) ∷ [])
      ((second, 6) ∷ (first, 5) ∷ [])
unfolding register find insert
run =
    Reachable.dropped first (record { id = 1; outbound = 5 })
      ((second, record { id = 2; outbound = 6 }) ∷ []) []
      (Reachable.read_packet
        (Reachable.read_packet
          (Reachable.refused
            (Reachable.leased
              (Reachable.leased (Reachable.started 64 true) first 5 (record { ip = first; id = 1 })
                refl)
              second 6 (record { ip = second; id = 2 }) refl)
            first 7 client_already_has_an_active_session refl)
          true (some packet))
        true (some []))

network-IsLeased_example :
    IsLeased ended.network
      ((second, record { id = 2; outbound = 6 }) ∷ [])
      ((second, 6) ∷ (first, 5) ∷ [])
network-IsLeased_example = network-IsLeased run

network-AddsUp_example : AddsUp ended.network
network-AddsUp_example = network-AddsUp run

-- The packet is with the first channel, and both are counted.
ended_lem :
    (ended.network.taken ≡ (5, packet) ∷ [])
    × (ended.network.received_packets ≡ 2)
    × (ended.network.routed_packets ≡ 1)
    × (ended.network.invalid_packets ≡ 1)
    × (ended.network.next_id ≡ 4)
unfolding register drop_lease read_tun receive_packet route_to_session ipv4_destination find insert
    header_len from_be slice
ended_lem = (refl, refl, refl, refl, refl)
