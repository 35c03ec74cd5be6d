-- ===== src/Network/Runs.antt =====
-- The network (rekaserdoba/src/network.rs) over time: sessions register and drop their leases, the
-- reader gets packets and packets go to the kernel, in any order.
use reka_serdoba.Common.{
  ℕ, ◌≡◌, refl, sym, subst, Bool, false, Option, List, [], ◌∷◌, ◌++◌, ok, err,
}
use reka_serdoba.Errors.{Error}
use reka_serdoba.Network.{RegisteredSession, SessionLease, fresh, register, drop_lease}
use reka_serdoba.Network.Device.{
  HelperReader, Registration, Sending, read_tun, read_helper, register_helper, send_to_kernel,
}
use reka_serdoba.Network.Leases.{
  IsLeased, register_ok, register-IsLeased, register_refused, register_refused-IsLeased,
}
use reka_serdoba.Network.Kept.{
  drop_lease-IsLeased, read_tun-IsLeased, read_helper-IsLeased, register_helper-IsLeased,
  send_to_kernel-IsLeased,
}

-- The reader on a device that is a helper or not, after any steps, with the leases that are held and
-- those that were issued, each with its channel. A lease that is held can be dropped once.
pub data Reachable (is_helper : Bool)
    : HelperReader → List (ℕ × RegisteredSession) → List (ℕ × ℕ) → Type 0 where
  started :
      (session_queue : ℕ) (ready : Bool)
      → Reachable is_helper
          (record {
            network = fresh session_queue ready;
            registration_failed = false;
            receive_failed = false;
          })
          []
          []
  leased :
      {r : HelperReader} {held : List (ℕ × RegisteredSession)} {issued : List (ℕ × ℕ)}
      → Reachable is_helper r held issued
      → (ip outbound : ℕ) (lease : SessionLease) → (register ip outbound r.network).1 ≡ ok lease
      → Reachable is_helper
          (record r { network = (register ip outbound r.network).0 })
          ((lease.ip, record { id = lease.id; outbound = outbound }) ∷ held)
          ((lease.ip, outbound) ∷ issued)
  refused :
      {r : HelperReader} {held : List (ℕ × RegisteredSession)} {issued : List (ℕ × ℕ)}
      → Reachable is_helper r held issued
      → (ip outbound : ℕ) (e : Error) → (register ip outbound r.network).1 ≡ err e
      → Reachable is_helper (record r { network = (register ip outbound r.network).0 }) held issued
  dropped :
      {r : HelperReader} {issued : List (ℕ × ℕ)} (ip : ℕ) (session : RegisteredSession)
      (xs ys : List (ℕ × RegisteredSession))
      → Reachable is_helper r (xs ++ ((ip, session) ∷ ys)) issued
      → Reachable is_helper
          (record r { network = drop_lease (record { ip = ip; id = session.id }) r.network })
          (xs ++ ys)
          issued
  read_packet :
      {r : HelperReader} {held : List (ℕ × RegisteredSession)} {issued : List (ℕ × ℕ)}
      → Reachable is_helper r held issued
      → (takes : Bool) (packet : Option (List ℕ))
      → Reachable is_helper (record r { network = read_tun takes packet r.network }) held issued
  read_socket :
      {r : HelperReader} {held : List (ℕ × RegisteredSession)} {issued : List (ℕ × ℕ)}
      → Reachable is_helper r held issued
      → (takes : Bool) (message : Option (List ℕ))
      → Reachable is_helper (read_helper takes message r) held issued
  ticked :
      {r : HelperReader} {held : List (ℕ × RegisteredSession)} {issued : List (ℕ × ℕ)}
      → Reachable is_helper r held issued
      → (answer : Registration) → Reachable is_helper (register_helper answer r) held issued
  sent :
      {r : HelperReader} {held : List (ℕ × RegisteredSession)} {issued : List (ℕ × ℕ)}
      → Reachable is_helper r held issued
      → (first : Sending) (reconnected : Bool) (again : Sending) (packet : List ℕ)
      → Reachable is_helper
          (record r {
            network = (send_to_kernel is_helper first reconnected again packet r.network).0;
          })
          held
          issued

-- Whatever the steps so far: the registry finds for an address what is found for it among the
-- leases that are held, of which each is for another address; and every packet that a channel took
-- is for an address that was leased with this channel.
pub network-IsLeased :
    {is_helper : Bool} {r : HelperReader} {held : List (ℕ × RegisteredSession)}
    {issued : List (ℕ × ℕ)}
    → Reachable is_helper r held issued
    → IsLeased r.network held issued
network-IsLeased (Reachable.started session_queue ready) = record {
  looked_up = λ ip. refl;
  keys = tt;
  distinct = tt;
  all_issued = tt;
  carried = tt;
}
network-IsLeased (Reachable.leased {r} {held} {issued} h ip outbound lease e) =
    let (free, made) = register_ok ip outbound r.network lease e in
    subst
      (λ (l : SessionLease).
        IsLeased (register ip outbound r.network).0
          ((l.ip, record { id = l.id; outbound = outbound }) ∷ held) ((l.ip, outbound) ∷ issued))
      (sym made) (register-IsLeased ip outbound r.network held issued free (network-IsLeased h))
network-IsLeased (Reachable.refused {r} {held} {issued} h ip outbound error e) =
    let (session, busy) = register_refused ip outbound r.network error e in
    register_refused-IsLeased ip outbound r.network held issued session busy (network-IsLeased h)
network-IsLeased (Reachable.dropped {r} {issued} ip session xs ys h) =
    drop_lease-IsLeased ip session r.network xs ys issued (network-IsLeased h)
network-IsLeased (Reachable.read_packet {r} {held} {issued} h takes packet) =
    read_tun-IsLeased held issued takes packet r.network (network-IsLeased h)
network-IsLeased (Reachable.read_socket {r} {held} {issued} h takes message) =
    read_helper-IsLeased held issued takes message r (network-IsLeased h)
network-IsLeased (Reachable.ticked {r} {held} {issued} h answer) =
    register_helper-IsLeased held issued answer r (network-IsLeased h)
network-IsLeased {is_helper} (Reachable.sent {r} {held} {issued} h first reconnected again packet) =
    send_to_kernel-IsLeased held issued is_helper first reconnected again packet r.network
      (network-IsLeased h)
