-- ===== src/Network/Passing.antt =====
-- The helper and the server (rekaserdoba/src/bin/net_helper.rs, rekaserdoba/src/main.rs).
use reka_serdoba.Common.{
  ℕ, ◌≤◌, ◌≡◌, ◌∙◌, refl, sym, ap, Bool, true, false, not, ◌||◌, bit_and, some, List, [], ◌∷◌, ◌++◌,
  length, ==_refl, bytes_eq, bytes_eq→eq, Bool-cases, inl, inr, ok, arith,
}
use reka_serdoba.Common.Words.{AreBytes, from_be}
use reka_serdoba.Common.Maps.{find}
use reka_serdoba.Record.Keys.{codes}
use reka_serdoba.Packets.{validate_ipv4_packet}
use reka_serdoba.Packets.Ipv4.{validate_ipv4_packet_iff}
use reka_serdoba.Handshake.Auth.{Client}
use reka_serdoba.Network.{prefix_mask}
use reka_serdoba.Network.Helper.{
  HelperSettings, network_of, valid_ipv4, Helper, Sent, from_edge, edge_turn, turn,
}
use reka_serdoba.Network.Guarded.{IsPassed, valid_ipv4_iff}
use reka_serdoba.Config.{Subnet, subnet_of, is_outside}
use reka_serdoba.Config.Served.{Serves}

same_mask :
    (prefix server_ip : ℕ) → 1 ≤ prefix → prefix_mask prefix ≡ (subnet_of server_ip prefix).mask
unfolding prefix_mask subnet_of
same_mask prefix server_ip positive = ground (arith, positive)

not_asking : (packet : List ℕ) → 20 ≤ length packet → bytes_eq packet (codes "RSN1") ≡ false
not_asking packet long = elim (Bool-cases (bytes_eq packet (codes "RSN1"))) [
  | inr other ↦ other
  | inl same ↦ absurd (omega (arith, long, ap length (bytes_eq→eq packet (codes "RSN1") same)))
]

inside_network :
    (subnet : Subnet) (ip : ℕ)
    → is_outside subnet ip ≡ false
    → bit_and ip subnet.mask ≡ subnet.network
unfolding is_outside
inside_network subnet ip inside = ground (arith, inside)

network_is :
    (settings : HelperSettings)
    → 1 ≤ settings.prefix
    → (subnet_of settings.address settings.prefix).network ≡ network_of settings
unfolding subnet_of network_of
network_is settings positive =
    ap (bit_and settings.address) (sym (same_mask settings.prefix settings.address positive))

module _ (is_public_key : List ℕ → Bool) (clients : List (ℕ × Client))
    (settings : HelperSettings) where
  accepted-IsPassed :
      (i : ℕ) (client : Client) (packet : List ℕ)
      → 1 ≤ settings.prefix
      → Serves is_public_key (subnet_of settings.address settings.prefix) clients
      → find i clients ≡ some client
      → AreBytes packet
      → validate_ipv4_packet packet client.tunnel_ipv4 ≡ ok tt
      → length packet ≤ settings.mtu
      → IsPassed settings packet
  accepted-IsPassed i client packet positive serves found bytes accepted small =
      let (key, valid) = serves.entry i client found in
      let from = (validate_ipv4_packet_iff packet client.tunnel_ipv4 bytes).0 accepted in
      record {
        long = from.long;
        short = small;
        version = from.version;
        header_min = from.header_min;
        header_max = from.header_max;
        total_len = from.total_len;
        in_subnet =
            ap (λ (a : List ℕ). bit_and (from_be a) (prefix_mask settings.prefix)) from.address
            ∙ ap (bit_and (from_be client.tunnel_ipv4))
                (same_mask settings.prefix settings.address positive)
            ∙ inside_network (subnet_of settings.address settings.prefix)
                (from_be client.tunnel_ipv4) valid.inside
            ∙ network_is settings positive;
      }

  -- What the server sends on, the helper writes: with the clients of a server that has started and
  -- the address and prefix of its device, a packet that the server accepts from the address of one
  -- of its clients, and that fits the device, is written to the device by a helper at which the edge
  -- is registered, when it comes from the path of the edge.
  pub turn-accepted :
      (i : ℕ) (client : Client) (packet : List ℕ) (acknowledging : Sent) (h : Helper)
      → 1 ≤ settings.prefix
      → Serves is_public_key (subnet_of settings.address settings.prefix) clients
      → find i clients ≡ some client
      → AreBytes packet
      → validate_ipv4_packet packet client.tunnel_ipv4 ≡ ok tt
      → length packet ≤ settings.mtu
      → h.edge_registered ≡ true
      → turn settings (from_edge true (some packet) acknowledging (some (length packet))) h
        ≡ (record h { to_device = h.to_device ++ (packet ∷ []) }, ok tt)
  unfolding turn edge_turn
  turn-accepted i client packet acknowledging h positive serves found bytes accepted small on =
      let passed = accepted-IsPassed i client packet positive serves found bytes accepted small in
      let valid : valid_ipv4 settings packet ≡ true = (valid_ipv4_iff settings packet).1 passed in
      let free : (not h.edge_registered || not (valid_ipv4 settings packet)) ≡ false =
        ground (arith, on, valid) in
      rw (not_asking packet passed.long) (rw free (rw (==_refl (length packet)) refl))
