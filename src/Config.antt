-- ===== src/Config.antt =====
-- `Runtime::from_config` and `decode_fixed` (rekaserdoba/src/main.rs): the clients of a server from
-- its configuration. Texts are byte strings; the base64 decoder, the parsers of addresses, the test
-- for white space and the two functions of ed25519 are arguments, as is the time of the clock. A
-- client id of 16 bytes is the number that it spells.
pub mod Clients
pub mod Adding
pub mod Served
pub mod Validation
pub mod Started
use reka_serdoba.Common.{
  ℕ, ◌-◌, ◌*◌, ◌%◌, ◌^◌, bit_and, bit_or, Bool, true, false, not, ◌||◌, Option, none, some, List,
  [], ◌∷◌, length, get_or, drop, ltb, ◌==◌, bytes_eq, if◌then◌else◌, Result, ok, err, ◌>>=◌, ◌>>◌,
  bail_if, ok_or,
}
use reka_serdoba.Common.Words.{from_be}
use reka_serdoba.Common.Maps.{insert}
use reka_serdoba.Crypto.{Crypto}
use reka_serdoba.Errors.{
  Error, authority_must_contain_explicit_443_port, tunnel_path_must_start_with_slash,
  decode_server_signing_seed, server_signing_seed_must_be_32_bytes, decode_client_id,
  client_id_must_be_16_bytes, duplicate_client_id, decode_client_public_key,
  client_public_key_must_be_32_bytes, invalid_client_public_key, decode_gate_key,
  gate_key_must_be_32_bytes, invalid_tunnel_ipv4, tunnel_ipv4_must_be_ipv4,
  client_tunnel_ipv4_is_outside_the_usable_tun_subnet, duplicate_active_client_tunnel_ipv4,
  invalid_tun_ipv4_address,
}
use reka_serdoba.Record.Keys.{codes}
use reka_serdoba.Policy
use reka_serdoba.Admission.{AdmissionRate}
use reka_serdoba.Gate.{ReplayMap}
use reka_serdoba.Gate.Registry.{MigrationRegistry}
use reka_serdoba.Network.{TunSettings, validate_settings}
use reka_serdoba.Handshake.Messages.{key_id}
use reka_serdoba.Handshake.Auth.{Client}
use reka_serdoba.Handshake.Exchange.{ServerKeys}

pub record ClientConfig : Type 0 where
  pub client_id_b64 : List ℕ
  pub client_public_key_b64 : List ℕ
  pub gate_key_b64 : List ℕ
  pub tunnel_ipv4 : List ℕ
  pub revoked : Bool
  pub session_lifetime_seconds : ℕ
  pub bandwidth_bytes_per_second : ℕ
  pub session_quota_bytes : ℕ

pub record H3Config : Type 0 where
  pub listen : List ℕ
  pub authority : List ℕ
  pub path : List ℕ
  pub certificate_pem : List ℕ
  pub private_key_pem : List ℕ
  pub decoy_root : List ℕ

pub record Config : Type 0 where
  pub listen : List ℕ
  pub authority : List ℕ
  pub tunnel_path : List ℕ
  pub server_signing_seed_b64 : List ℕ
  pub tun : TunSettings
  pub clients : List ClientConfig
  pub h3 : Option H3Config

-- `IpAddr`, an IPv4 address by its four octets.
pub data IpAddr : Type 0 where
  v4 : (octets : List ℕ) → IpAddr
  v6 : (octets : List ℕ) → IpAddr

-- `decode_fixed`, with the errors of the two failures.
unfoldable pub decode_fixed :
    (List ℕ → Option (List ℕ)) → ℕ → Error → Error → List ℕ → Result Error (List ℕ)
decode_fixed decode size undecoded wrong_size encoded = do
  bytes ← ok_or (decode encoded) undecoded
  bail_if (not (length bytes == size)) wrong_size
  ok bytes

-- The mask, the address of the network and that of its broadcasts, and the server's own.
pub record Subnet : Type 0 where
  pub mask : ℕ
  pub network : ℕ
  pub broadcast : ℕ
  pub server_ip : ℕ

unfoldable pub subnet_of : ℕ → ℕ → Subnet
subnet_of server_ip prefix_len =
    let mask : ℕ = (2 ^ 32 - 1) * 2 ^ (32 - prefix_len) % 2 ^ 32 in
    let network : ℕ = bit_and server_ip mask in
    record {
      mask = mask;
      network = network;
      broadcast = bit_or network (2 ^ 32 - 1 - mask);
      server_ip = server_ip;
    }

unfoldable pub is_outside : Subnet → ℕ → Bool
is_outside subnet ip =
    not (bit_and ip subnet.mask == subnet.network)
    || (ip == subnet.network || (ip == subnet.broadcast || ip == subnet.server_ip))

-- What the loop over the clients keeps: a set is the list of what was put into it.
pub record Configured : Type 0 where
  pub configured_ids : List ℕ
  pub tunnel_addresses : List ℕ
  pub clients : List (ℕ × Client)

unfoldable pub contains : ℕ → List ℕ → Bool
contains n [] = false
contains n (m ∷ ms) = m == n || contains n ms

-- `Runtime`, with what `inner_handshake` reads of it as one field.
pub record Runtime : Type 0 where
  pub authority : List ℕ
  pub tunnel_path : List ℕ
  pub server : ServerKeys
  pub clients : List (ℕ × Client)
  pub gate_replay : ReplayMap
  pub admission_rate : AdmissionRate
  pub migrations : MigrationRegistry

-- An address that is not of version 4 is refused.
abbrev pub octets_of : IpAddr → Result Error (List ℕ)
octets_of (IpAddr.v4 octets) = ok octets
octets_of (IpAddr.v6 octets) = err tunnel_ipv4_must_be_ipv4

-- The end of the loop's body.
unfoldable pub add_client : Bool → Client → Configured → Result Error Configured
add_client revoked client configured =
    let ids : List ℕ = from_be client.id ∷ configured.configured_ids in
    let address : ℕ = from_be client.tunnel_ipv4 in
    if revoked
    then ok (record configured { configured_ids = ids })
    else if contains address configured.tunnel_addresses
    then err duplicate_active_client_tunnel_ipv4
    else ok (record {
      configured_ids = ids;
      tunnel_addresses = address ∷ configured.tunnel_addresses;
      clients = insert (from_be client.id) client configured.clients;
    })

module _ (decode : List ℕ → Option (List ℕ)) (parse_ip : List ℕ → Option IpAddr)
    (is_public_key : List ℕ → Bool) where
  -- The checks of one client before it is looked at whether it is revoked.
  unfoldable pub check_client : Subnet → ℕ → ClientConfig → Configured → Result Error Client
  check_client subnet now item configured = do
    id ← decode_fixed decode 16 decode_client_id client_id_must_be_16_bytes item.client_id_b64
    bail_if (contains (from_be id) configured.configured_ids) duplicate_client_id
    public_key ←
        decode_fixed decode 32 decode_client_public_key client_public_key_must_be_32_bytes
          item.client_public_key_b64
    bail_if (not (is_public_key public_key)) invalid_client_public_key
    gate_key ← decode_fixed decode 32 decode_gate_key gate_key_must_be_32_bytes item.gate_key_b64
    ip ← ok_or (parse_ip item.tunnel_ipv4) invalid_tunnel_ipv4
    octets ← octets_of ip
    bail_if (is_outside subnet (from_be octets)) client_tunnel_ipv4_is_outside_the_usable_tun_subnet
    policy ←
        Policy.new item.session_lifetime_seconds item.bandwidth_bytes_per_second
          item.session_quota_bytes now
    ok (record {
      id = id;
      gate_key = gate_key;
      public_key = public_key;
      tunnel_ipv4 = octets;
      session_lifetime_seconds = item.session_lifetime_seconds;
      bandwidth_bytes_per_second = item.bandwidth_bytes_per_second;
      session_quota_bytes = item.session_quota_bytes;
    })

  -- The loop; the clock is read for each client.
  unfoldable pub add_clients :
      Subnet → (ℕ → ℕ) → List ClientConfig → Configured → Result Error Configured
  add_clients subnet clock [] configured = ok configured
  add_clients subnet clock (item ∷ items) configured = do
    client ← check_client subnet (clock (length items)) item configured
    next ← add_client item.revoked client configured
    add_clients subnet clock items next

  module _ (c : Crypto) (parse_address : List ℕ → Option ℕ) (has_whitespace : List ℕ → Bool)
      (verifying_key : List ℕ → List ℕ) where
    -- `from_config`
    unfoldable pub from_config : (ℕ → ℕ) → Config → Result Error Runtime
    from_config clock cfg = do
      validate_settings parse_address cfg.tun
      bail_if
          (not (bytes_eq (drop (length cfg.authority - 4) cfg.authority) (codes ":443"))
            || (has_whitespace cfg.authority || ltb 255 (length cfg.authority)))
          authority_must_contain_explicit_443_port
      bail_if (not (get_or cfg.tunnel_path 0 0 == 47) || ltb 256 (length cfg.tunnel_path))
          tunnel_path_must_start_with_slash
      seed ←
          decode_fixed decode 32 decode_server_signing_seed server_signing_seed_must_be_32_bytes
            cfg.server_signing_seed_b64
      server_ip ← ok_or (parse_address cfg.tun.address) invalid_tun_ipv4_address
      configured ←
          add_clients (subnet_of server_ip cfg.tun.prefix_len) clock cfg.clients
            (record { configured_ids = []; tunnel_addresses = []; clients = [] })
      ok (record {
        authority = cfg.authority;
        tunnel_path = cfg.tunnel_path;
        server = record {
          server_signing = seed;
          server_public = verifying_key seed;
          server_key_id = key_id c (codes "RekaSerdoba server id") (verifying_key seed);
        };
        clients = configured.clients;
        gate_replay = [];
        admission_rate = [];
        migrations = [];
      })
