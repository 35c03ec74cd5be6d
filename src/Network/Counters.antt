-- ===== src/Network/Counters.antt =====
-- The counters of the network (rekaserdoba/src/network.rs) over time.
use reka_serdoba.Common.{
  ℕ, ◌+◌, ◌%◌, ◌^◌, ◌≡◌, refl, Bool, true, false, Bool-cases, Option-cases, Option, none, some,
  List, ◌==◌, inl, inr, bytes_eq, length, arith,
}
use reka_serdoba.Common.Maps.{find}
use reka_serdoba.Record.Keys.{codes}
use reka_serdoba.Network.{
  Network, RegisteredSession, SessionLease, register, drop_lease, route_to_session,
  ipv4_destination, receive_packet,
}
use reka_serdoba.Network.Device.{
  HelperReader, Registration, Sending, read_tun, read_helper, register_helper, registered,
  send_to_kernel,
}
use reka_serdoba.Network.Runs.{Reachable}

-- Every packet that was received is counted once more, modulo 2^64: as routed, as unrouted, as
-- invalid or as dropped. Those that are routed are what the channels have taken.
pub record AddsUp (n : Network) : Type 0 where
  pub total :
      (n.routed_packets + n.unrouted_packets + n.invalid_packets + n.dropped_packets) % 2 ^ 64
      ≡ n.received_packets
  pub routed : length n.taken % 2 ^ 64 ≡ n.routed_packets

register-AddsUp : (ip outbound : ℕ) (n : Network) → AddsUp n → AddsUp (register ip outbound n).0
unfolding register
register-AddsUp ip outbound n h = elim (Option-cases (find ip n.sessions)) [
  | inl free ↦ rw (free, register) (record { total = h.total; routed = h.routed })
  | inr (session, busy) ↦ rw (busy, register) (record { total = h.total; routed = h.routed })
]

drop_lease-AddsUp : (lease : SessionLease) (n : Network) → AddsUp n → AddsUp (drop_lease lease n)
unfolding drop_lease
drop_lease-AddsUp lease n h = elim (Option-cases (find lease.ip n.sessions)) [
  | inl free ↦ rw (free, drop_lease) h
  | inr (session, there) ↦
      rw (there, drop_lease)
        (elim (Bool-cases (session.id == lease.id)) [
          | inl e ↦ rw e (record { total = h.total; routed = h.routed })
          | inr e ↦ rw e h
        ])
]

receive_packet-AddsUp :
    (takes : Bool) (packet : List ℕ) (n : Network)
    → AddsUp n
    → AddsUp (receive_packet takes packet n)
unfolding receive_packet route_to_session
receive_packet-AddsUp takes packet n h = elim (Option-cases (ipv4_destination packet)) [
  | inl nowhere ↦
      rw (nowhere, receive_packet) (record { total = omega (arith, h.total); routed = h.routed })
  | inr (destination, to) ↦
      rw (to, receive_packet)
        (elim (Option-cases (find destination n.sessions)) [
          | inl free ↦
              rw (free, route_to_session)
                (record { total = omega (arith, h.total); routed = h.routed })
          | inr (session, there) ↦
              rw (there, route_to_session)
                (elim (Bool-cases takes) [
                  | inl e ↦
                      rw e (record {
                        total = omega (arith, h.total);
                        routed = omega (arith, h.routed);
                      })
                  | inr e ↦ rw e (record { total = omega (arith, h.total); routed = h.routed })
                ])
        ])
]

read_helper-AddsUp :
    (takes : Bool) (message : Option (List ℕ)) (r : HelperReader)
    → AddsUp r.network
    → AddsUp (read_helper takes message r).network
unfolding read_helper
read_helper-AddsUp takes none r h = record { total = h.total; routed = h.routed }
read_helper-AddsUp takes (some message) r h = elim (Bool-cases (bytes_eq message (codes "RSA1"))) [
  | inl e ↦ rw (e, read_helper) (record { total = h.total; routed = h.routed })
  | inr e ↦ rw (e, read_helper) (receive_packet-AddsUp takes message r.network h)
]

register_helper-AddsUp :
    (answer : Registration) (r : HelperReader)
    → AddsUp r.network
    → AddsUp (register_helper answer r).network
unfolding register_helper
register_helper-AddsUp answer r h = elim (Bool-cases (registered answer)) [
  | inl e ↦ rw (e, register_helper) (record { total = h.total; routed = h.routed })
  | inr e ↦ rw (e, register_helper) (record { total = h.total; routed = h.routed })
]

read_tun-AddsUp :
    (takes : Bool) (packet : Option (List ℕ)) (n : Network)
    → AddsUp n
    → AddsUp (read_tun takes packet n)
unfolding read_tun
read_tun-AddsUp takes none n h = record { total = h.total; routed = h.routed }
read_tun-AddsUp takes (some packet) n h =
    receive_packet-AddsUp takes packet _ (record { total = h.total; routed = h.routed })

send_to_kernel-AddsUp :
    (is_helper : Bool) (first : Sending) (reconnected : Bool) (again : Sending) (packet : List ℕ)
    (n : Network)
    → AddsUp n
    → AddsUp (send_to_kernel is_helper first reconnected again packet n).0
unfolding send_to_kernel
send_to_kernel-AddsUp is_helper (Sending.wrote written) reconnected again packet n h = h
send_to_kernel-AddsUp is_helper Sending.failed reconnected again packet n h = h
send_to_kernel-AddsUp false Sending.lost reconnected again packet n h = h
send_to_kernel-AddsUp true Sending.lost reconnected again packet n h = record {
  total = h.total;
  routed = h.routed;
}

-- Whatever the steps so far: the packets that were received are, modulo 2^64, those that are counted
-- as routed, unrouted, invalid and dropped, and the routed ones those that channels have taken.
pub network-AddsUp :
    {is_helper : Bool} {r : HelperReader} {held : List (ℕ × RegisteredSession)}
    {issued : List (ℕ × ℕ)}
    → Reachable is_helper r held issued
    → AddsUp r.network
network-AddsUp (Reachable.started session_queue ready) = record { total = refl; routed = refl }
network-AddsUp (Reachable.leased h ip outbound lease e) =
    register-AddsUp ip outbound _ (network-AddsUp h)
network-AddsUp (Reachable.refused h ip outbound error e) =
    register-AddsUp ip outbound _ (network-AddsUp h)
network-AddsUp (Reachable.dropped ip session xs ys h) = drop_lease-AddsUp _ _ (network-AddsUp h)
network-AddsUp (Reachable.read_packet h takes packet) =
    read_tun-AddsUp takes packet _ (network-AddsUp h)
network-AddsUp (Reachable.read_socket h takes message) =
    read_helper-AddsUp takes message _ (network-AddsUp h)
network-AddsUp (Reachable.ticked h answer) = register_helper-AddsUp answer _ (network-AddsUp h)
network-AddsUp {is_helper} (Reachable.sent h first reconnected again packet) =
    send_to_kernel-AddsUp is_helper first reconnected again packet _ (network-AddsUp h)
