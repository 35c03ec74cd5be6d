-- ===== src/Network/Guarded.antt =====
-- What the helper lets through to the device (rekaserdoba/src/bin/net_helper.rs).
use reka_serdoba.Common.{
  ℕ, ◌/◌, ◌≤◌, ◌≡◌, Bool, true, false, ◌&&◌, ◌||◌, bit_and, none, some, List, [], ◌∷◌, length,
  get_or, slice, bytes_eq, All, ◌↔◌, arith,
}
use reka_serdoba.Common.Words.{from_be}
use reka_serdoba.Record.Keys.{codes}
use reka_serdoba.Packets.{header_len}
use reka_serdoba.Network.{prefix_mask}
use reka_serdoba.Network.Helper.{
  HelperSettings, network_of, valid_ipv4, Helper, Event, from_device, from_edge,
}

-- An IPv4 packet from the subnet of the device that fits it.
pub record IsPassed (settings : HelperSettings) (packet : List ℕ) : Type 0 where
  pub long : 20 ≤ length packet
  pub short : length packet ≤ settings.mtu
  pub version : get_or packet 0 0 / 16 ≡ 4
  pub header_min : 20 ≤ header_len packet
  pub header_max : header_len packet ≤ length packet
  pub total_len : from_be (slice 2 4 packet) ≡ length packet
  pub in_subnet :
      bit_and (from_be (slice 12 16 packet)) (prefix_mask settings.prefix) ≡ network_of settings

pub valid_ipv4_iff :
    (settings : HelperSettings) (packet : List ℕ)
    → (valid_ipv4 settings packet ≡ true) ↔ IsPassed settings packet
unfolding valid_ipv4
valid_ipv4_iff settings packet = (
  λ e. record {
    long = ground (arith, e);
    short = ground (arith, e);
    version = ground (arith, e);
    header_min = ground (arith, e);
    header_max = ground (arith, e);
    total_len = ground (arith, e);
    in_subnet = ground (arith, e);
  },
  λ h.
      ground
        (arith, h.long, h.short, h.version, h.header_min, h.header_max, h.total_len, h.in_subnet),
)

-- A registration of the edge.
abbrev pub is_registration : Event → Bool
is_registration (from_device packet sending) = false
is_registration (from_edge is_client_path none acknowledging writing) = false
is_registration (from_edge is_client_path (some packet) acknowledging writing) =
    is_client_path && bytes_eq packet (codes "RSN1")

abbrev pub has_registered : List Event → Bool
has_registered [] = false
has_registered (event ∷ events) = is_registration event || has_registered events

module _ (settings : HelperSettings) where
  -- What holds of the device's side, and before a registration.
  abbrev Guarded : Helper → Type 0
  Guarded h = All (IsPassed settings) h.to_device

  abbrev Silent : Helper → Type 0
  Silent h = (h.edge_registered ≡ false) × (h.to_edge ≡ []) × (h.to_device ≡ [])
