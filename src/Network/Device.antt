-- ===== src/Network/Device.antt =====
-- The reader of the device and the way to the kernel (rekaserdoba/src/network.rs), a turn at a time.
use reka_serdoba.Common.{
  ℕ, Bool, true, false, not, ◌&&◌, Option, none, some, List, length, ◌==◌, bytes_eq, if◌then◌else◌,
  Result, ok, err,
}
use reka_serdoba.Record.Keys.{codes}
use reka_serdoba.Errors.{
  Error, reconnect_network_helper_socket, network_helper_send_failed, partial_network_packet_write,
}
use reka_serdoba.Network.{Network, receive_packet}

-- A turn of the reader's loop on a TUN device: a packet, or the failure to get one.
unfoldable pub read_tun : Bool → Option (List ℕ) → Network → Network
read_tun takes (some packet) n = receive_packet takes packet (record n { ready = true })
read_tun takes none n = record n { ready = false }

-- The reader of a helper's socket, with the two flags that it warns by.
pub record HelperReader : Type 0 where
  pub network : Network
  pub registration_failed : Bool
  pub receive_failed : Bool

-- What the socket answers to a registration.
pub data Registration : Type 0 where
  connect_failed send_failed : Registration
  sent : (written : ℕ) → Registration

abbrev pub registered : Registration → Bool
registered connect_failed = false
registered send_failed = false
registered (sent written) = written == 4

-- The tick of the registration; a second one without an answer in between ends readiness.
unfoldable pub register_helper : Registration → HelperReader → HelperReader
register_helper answer reader =
    let n : Network = reader.network in
    let pending : Network = record n {
      ready = n.ready && not n.registration_pending;
      registration_pending = true;
    } in
    if registered answer
    then (record reader { network = pending; registration_failed = false })
    else record reader { network = record pending { ready = false }; registration_failed = true }

-- The turn on which the socket is read.
unfoldable pub read_helper : Bool → Option (List ℕ) → HelperReader → HelperReader
read_helper takes (some message) reader =
    if bytes_eq message (codes "RSA1")
    then (record reader {
      network = record reader.network { registration_pending = false; ready = true };
      receive_failed = false;
    })
    else record reader {
      network = receive_packet takes message reader.network;
      receive_failed = false;
    }
read_helper takes none reader = record reader {
  network = record reader.network { ready = false };
  receive_failed = true;
}

-- What a send on the socket gives; `lost` is `NotFound` or `ConnectionRefused`.
pub data Sending : Type 0 where
  wrote : (written : ℕ) → Sending
  lost failed : Sending

abbrev pub check_written : List ℕ → Sending → Result Error (Unit {0})
check_written packet (wrote written) =
    if written == length packet then ok tt else err partial_network_packet_write
check_written packet lost = err network_helper_send_failed
check_written packet failed = err network_helper_send_failed

-- `send_to_kernel` on a helper: whether the socket connects again and what the second send gives
-- count after a lost first one. A TUN device has the first send only.
unfoldable pub send_to_kernel :
    Bool → Sending → Bool → Sending → List ℕ → Network → Network × Result Error (Unit {0})
send_to_kernel is_helper (wrote written) reconnected again packet n =
    (n, check_written packet (wrote written))
send_to_kernel is_helper failed reconnected again packet n = (n, check_written packet failed)
send_to_kernel false lost reconnected again packet n = (n, check_written packet lost)
send_to_kernel true lost reconnected again packet n = (
  record n { ready = false },
  if reconnected then check_written packet again else err reconnect_network_helper_socket,
)
