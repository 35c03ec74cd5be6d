-- ===== src/Network.antt =====
-- The network of the server (rekaserdoba/src/network.rs): the settings, the registry of the sessions
-- by their tunnel address, the packets from the kernel and those to it. An address is a number of 32
-- bits and a channel a number; whether a channel takes a packet, what a socket answers and whether
-- the device can be made are arguments. No code panics with the lock of the registry held, so it is
-- never poisoned.
pub mod Device
pub mod Helper
pub mod Guarded
pub mod Passing
pub mod Leases
pub mod Kept
pub mod Runs
pub mod Counters
use reka_serdoba.Common.{
  ℕ, ◌+◌, ◌-◌, ◌*◌, ◌/◌, ◌%◌, ◌^◌, Bool, true, false, not, ◌&&◌, ◌||◌, Option, none, some, List, [],
  ◌∷◌, length, get_or, slice, ltb, ◌==◌, bytes_eq, if◌then◌else◌, Result, ok, err, ◌>>=◌, ◌>>◌,
  bail_if, ok_or,
}
use reka_serdoba.Common.Words.{from_be}
use reka_serdoba.Common.Maps.{find, insert, erase}
use reka_serdoba.Record.Keys.{codes}
use reka_serdoba.Errors.{
  Error, invalid_tun_interface_name, invalid_tun_mtu, invalid_session_queue_size,
  invalid_tun_ipv4_address, invalid_tun_prefix_length, helper_socket_paths_must_be_different,
  helper_client_socket_is_required, helper_socket_is_required, client_already_has_an_active_session,
  reconnect_network_helper_socket, network_helper_send_failed, partial_network_packet_write,
}
use reka_serdoba.Packets.{header_len}

pub record TunSettings : Type 0 where
  pub name : List ℕ
  pub address : List ℕ
  pub prefix_len : ℕ
  pub mtu : ℕ
  pub session_queue : ℕ
  pub helper_socket : Option (List ℕ)
  pub helper_client_socket : Option (List ℕ)

-- The match on the two socket paths.
abbrev pub check_sockets : Option (List ℕ) → Option (List ℕ) → Result Error (Unit {0})
check_sockets (some server) (some client) =
    if bytes_eq server client then err helper_socket_paths_must_be_different else ok tt
check_sockets (some server) none = err helper_client_socket_is_required
check_sockets none (some client) = err helper_socket_is_required
check_sockets none none = ok tt

-- `validate_settings`, with the parser of addresses; the order of its checks is that of the source.
unfoldable pub validate_settings : (List ℕ → Option ℕ) → TunSettings → Result Error (Unit {0})
validate_settings parse_address settings = do
  bail_if (length settings.name == 0 || ltb 15 (length settings.name)) invalid_tun_interface_name
  bail_if (ltb settings.mtu 576 || ltb 9000 settings.mtu) invalid_tun_mtu
  bail_if (ltb settings.session_queue 8 || ltb 4096 settings.session_queue)
      invalid_session_queue_size
  address ← ok_or (parse_address settings.address) invalid_tun_ipv4_address
  bail_if (ltb settings.prefix_len 1 || ltb 30 settings.prefix_len) invalid_tun_prefix_length
  check_sockets settings.helper_socket settings.helper_client_socket

pub record RegisteredSession : Type 0 where
  pub id : ℕ
  pub outbound : ℕ

-- `Network` with its `Registry`. `taken` lists what the channels have taken, the last packet first,
-- each with its channel.
pub record Network : Type 0 where
  pub next_id : ℕ
  pub sessions : List (ℕ × RegisteredSession)
  pub session_queue : ℕ
  pub ready : Bool
  pub registration_pending : Bool
  pub received_packets : ℕ
  pub routed_packets : ℕ
  pub unrouted_packets : ℕ
  pub invalid_packets : ℕ
  pub dropped_packets : ℕ
  pub taken : List (ℕ × List ℕ)

-- What `create` ends with; a device is ready when it is not a helper.
abbrev pub fresh : ℕ → Bool → Network
fresh session_queue ready = record {
  next_id = 1;
  sessions = [];
  session_queue = session_queue;
  ready = ready;
  registration_pending = false;
  received_packets = 0;
  routed_packets = 0;
  unrouted_packets = 0;
  invalid_packets = 0;
  dropped_packets = 0;
  taken = [];
}

abbrev pub is_absent : Option (List ℕ) → Bool
is_absent none = true
is_absent (some path) = false

-- `create`; `device` is what making the interface or binding and connecting the socket gives.
unfoldable pub create :
    (List ℕ → Option ℕ) → TunSettings → Result Error (Unit {0}) → Result Error Network
create parse_address settings device = do
  validate_settings parse_address settings
  device
  ok (fresh settings.session_queue (is_absent settings.helper_socket))

pub record SessionLease : Type 0 where
  pub ip : ℕ
  pub id : ℕ

abbrev pub bump : ℕ → ℕ
bump n = (n + 1) % 2 ^ 64

-- `register`, with the sender of the new channel.
unfoldable pub register : ℕ → ℕ → Network → Network × Result Error SessionLease
register ip outbound n =
    let id : ℕ = n.next_id in
    let counted : Network = record n { next_id = bump id } in
    elim (find ip counted.sessions) [
      | some session ↦ (counted, err client_already_has_an_active_session)
      | none ↦ (
        record counted {
          sessions = insert ip (record { id = id; outbound = outbound }) counted.sessions;
        },
        ok (record { ip = ip; id = id }),
      )
    ]

-- `drop` of a `SessionLease`
unfoldable pub drop_lease : SessionLease → Network → Network
drop_lease lease n = elim (find lease.ip n.sessions) [
  | none ↦ n
  | some session ↦
      if session.id == lease.id then record n { sessions = erase lease.ip n.sessions } else n
]

-- `route_to_session`; `takes` is whether `try_send` on the session's channel succeeds.
unfoldable pub route_to_session : Bool → ℕ → List ℕ → Network → Network
route_to_session takes destination packet n = elim (find destination n.sessions) [
  | none ↦ record n { unrouted_packets = bump n.unrouted_packets }
  | some session ↦
      if takes
      then (record n {
        routed_packets = bump n.routed_packets;
        taken = (session.outbound, packet) ∷ n.taken;
      })
      else record n { dropped_packets = bump n.dropped_packets }
]

-- `ipv4_destination`; the slices are inside the packet by then.
unfoldable pub ipv4_destination : List ℕ → Option ℕ
ipv4_destination packet =
    if ltb (length packet) 20 || not (get_or packet 0 0 / 16 == 4)
    then none
    else if ltb (header_len packet) 20
        || (ltb (length packet) (header_len packet)
            || not (from_be (slice 2 4 packet) == length packet))
    then none
    else some (from_be (slice 16 20 packet))

-- `prefix_mask`, on prefixes up to 32.
unfoldable pub prefix_mask : ℕ → ℕ
prefix_mask prefix = if prefix == 0 then 0 else (2 ^ 32 - 1) * 2 ^ (32 - prefix) % 2 ^ 32

-- What both readers do with a packet.
unfoldable pub receive_packet : Bool → List ℕ → Network → Network
receive_packet takes packet n =
    let counted : Network = record n { received_packets = bump n.received_packets } in
    elim (ipv4_destination packet) [
      | some destination ↦ route_to_session takes destination packet counted
      | none ↦ record counted { invalid_packets = bump counted.invalid_packets }
    ]
