-- ===== src/Config/Served.antt =====
-- The loop over the clients, and `from_config` (rekaserdoba/src/main.rs).
use reka_serdoba.Common.{
  ℕ, ◌+◌, ◌-◌, ◌≡◌, subst, Bool, not, ◌||◌, ◌==◌, Option, some, List, [], ◌∷◌, length, drop, get_or,
  bytes_eq, ltb, if◌then◌else◌, ok, ok_or, bind_ok, bail_ok, ok_or_ok, ok_injective, then_ok, arith,
}
use reka_serdoba.Common.Words.{from_be}
use reka_serdoba.Common.Maps.{find}
use reka_serdoba.Crypto.{Crypto}
use reka_serdoba.Record.Keys.{codes}
use reka_serdoba.Network.{validate_settings}
use reka_serdoba.Handshake.Auth.{Client}
use reka_serdoba.Config.{
  ClientConfig, Config, IpAddr, Subnet, Configured, Runtime, decode_fixed, subnet_of, check_client,
  add_client, add_clients, from_config,
}
use reka_serdoba.Config.Clients.{IsValid, check_client_ok}
use reka_serdoba.Config.Adding.{IsConfigured, add_client-IsConfigured, add_client-length}

-- The clients of a server: one that is found has its own id as its key and is valid, and an address
-- has one client.
pub record Serves (is_public_key : List ℕ → Bool) (subnet : Subnet) (clients : List (ℕ × Client))
    : Type 0 where
  pub entry :
      (i : ℕ) (client : Client)
      → find i clients ≡ some client
      → (i ≡ from_be client.id) × IsValid is_public_key subnet client
  pub apart :
      (i j : ℕ) (a b : Client)
      → find i clients ≡ some a
      → find j clients ≡ some b
      → from_be a.tunnel_ipv4 ≡ from_be b.tunnel_ipv4
      → i ≡ j

-- How many clients of the configuration are not revoked.
abbrev pub count_active : List ClientConfig → ℕ
count_active [] = 0
count_active (item ∷ items) = count_active items + (if item.revoked then 0 else 1)

module _ (decode : List ℕ → Option (List ℕ)) (parse_ip : List ℕ → Option IpAddr)
    (is_public_key : List ℕ → Bool) where
  add_clients-IsConfigured :
      (subnet : Subnet) (clock : ℕ → ℕ) (items : List ClientConfig) (configured final : Configured)
      → IsConfigured is_public_key subnet configured
      → add_clients decode parse_ip is_public_key subnet clock items configured ≡ ok final
      → IsConfigured is_public_key subnet final
        × (length final.clients ≡ length configured.clients + count_active items)
  unfolding add_clients
  add_clients-IsConfigured subnet clock [] configured final h = λ e.
      subst
        (λ (s : Configured).
          IsConfigured is_public_key subnet s × (length s.clients ≡ length configured.clients + 0))
        (ok_injective e) (h, omega arith)
  add_clients-IsConfigured subnet clock (item ∷ items) configured final h =
      bind_ok _
        (check_client decode parse_ip is_public_key subnet (clock (length items)) item configured) _
        (λ client checked.
          let (valid, new) =
            check_client_ok decode parse_ip is_public_key subnet (clock (length items)) item
              configured client checked in
          bind_ok _ (add_client item.revoked client configured) _ (λ next added e.
            let (all, count) =
              add_clients-IsConfigured subnet clock items next final
                (add_client-IsConfigured is_public_key subnet item.revoked client configured next
                  valid new h added)
                e in
            let step =
              add_client-length is_public_key subnet item.revoked client configured next new h
                added in
            (all, omega (arith, count, step))))

  IsConfigured-none :
      (subnet : Subnet)
      → IsConfigured is_public_key subnet
          (record { configured_ids = []; tunnel_addresses = []; clients = [] })
  unfolding find
  IsConfigured-none subnet = record {
    entry = λ i client found. absurd (cc found);
    apart = λ i j a b found. absurd (cc found);
  }

  IsConfigured-Serves :
      (subnet : Subnet) (configured : Configured)
      → IsConfigured is_public_key subnet configured
      → Serves is_public_key subnet configured.clients
  IsConfigured-Serves subnet configured h = record {
    entry =
        λ i client found. let (key, valid, id, address) = h.entry i client found in (key, valid);
    apart = h.apart;
  }

  module _ (c : Crypto) (parse_address : List ℕ → Option ℕ) (has_whitespace : List ℕ → Bool)
      (verifying_key : List ℕ → List ℕ) where
    -- A server that starts has as its clients those of the configuration that are not revoked: as
    -- many, each under its own id, with an id, a gate key and a public key of the right form, with
    -- an address of its own in the subnet of the server that is neither the server's nor that of the
    -- network or its broadcasts, and with a lifetime and a bandwidth within the limits.
    pub from_config-Serves :
        (clock : ℕ → ℕ) (cfg : Config) (runtime : Runtime)
        → from_config decode parse_ip is_public_key c parse_address has_whitespace verifying_key
            clock cfg
          ≡ ok runtime
        → (server_ip : ℕ) × (parse_address cfg.tun.address ≡ some server_ip)
          × Serves is_public_key (subnet_of server_ip cfg.tun.prefix_len) runtime.clients
          × (length runtime.clients ≡ count_active cfg.clients)
    unfolding from_config
    from_config-Serves clock cfg runtime = then_ok _ (validate_settings parse_address cfg.tun) _ (
        bail_ok _
          (not (bytes_eq (drop (length cfg.authority - 4) cfg.authority) (codes ":443"))
            || (has_whitespace cfg.authority || ltb 255 (length cfg.authority)))
          _ _
          (λ _.
            bail_ok _ (not (get_or cfg.tunnel_path 0 0 == 47) || ltb 256 (length cfg.tunnel_path)) _
              _
              (λ _. bind_ok _ (decode_fixed decode 32 _ _ cfg.server_signing_seed_b64) _ (λ seed _.
                bind_ok _ (ok_or (parse_address cfg.tun.address) _) _ (λ server_ip there.
                  bind_ok _
                    (add_clients decode parse_ip is_public_key
                      (subnet_of server_ip cfg.tun.prefix_len) clock cfg.clients _)
                    _
                    (λ configured added e.
                      let (h, count) =
                        add_clients-IsConfigured (subnet_of server_ip cfg.tun.prefix_len) clock
                          cfg.clients _ configured
                          (IsConfigured-none (subnet_of server_ip cfg.tun.prefix_len)) added in
                      let (serves, all) =
                        subst
                          (λ (r : Runtime).
                            Serves is_public_key (subnet_of server_ip cfg.tun.prefix_len) r.clients
                            × (length r.clients ≡ count_active cfg.clients))
                          (ok_injective e)
                          (IsConfigured-Serves _ configured h, omega (arith, count)) in
                      (
                        server_ip,
                        ok_or_ok (parse_address cfg.tun.address) _ there,
                        serves,
                        all,
                      )))))))
