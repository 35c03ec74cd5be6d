-- ===== src/Examples/Configs.antt =====
-- A configuration with two clients, of which one is revoked.
use reka_serdoba.Common.{
  ℕ, ◌≡◌, refl, Bool, true, false, none, some, List, [], ◌∷◌, length, replicate, bytes_eq, ok, err,
  Result, subst,
}
use reka_serdoba.Common.Words.{from_be}
use reka_serdoba.Common.Maps.{insert}
use reka_serdoba.Policy
use reka_serdoba.Record.Keys.{codes}
use reka_serdoba.Examples.Toy.{steady}
use reka_serdoba.Network.{validate_settings}
use reka_serdoba.Handshake.Messages.{key_id}
use reka_serdoba.Config.{
  ClientConfig, Config, H3Config, IpAddr, Runtime, subnet_of, is_outside, contains, decode_fixed,
  check_client, add_client, add_clients, from_config,
}
use reka_serdoba.Config.Served.{Serves, count_active, from_config-Serves}
use reka_serdoba.Config.Validation.{Host, validate_config, check_h3, check_file}
use reka_serdoba.Errors.{Error, h3_private_key_permissions_are_too_broad}

abbrev item : List ℕ → List ℕ → Bool → ClientConfig
item id address revoked = record {
  client_id_b64 = id;
  client_public_key_b64 = replicate 32 5;
  gate_key_b64 = replicate 32 6;
  tunnel_ipv4 = address;
  revoked = revoked;
  session_lifetime_seconds = 3600;
  bandwidth_bytes_per_second = 1048576;
  session_quota_bytes = 0;
}

-- The server is 10.77.0.1 in a subnet of 24 bits; both clients have the address 10.77.0.2.
abbrev config : Config
config = record {
  listen = codes "0.0.0.0:443";
  h3 = none;
  authority = codes "river.example:443";
  tunnel_path = codes "/tunnel";
  server_signing_seed_b64 = replicate 32 7;
  tun = record {
    name = codes "rs0";
    address = codes "10.77.0.1";
    prefix_len = 24;
    mtu = 1280;
    session_queue = 64;
    helper_socket = none;
    helper_client_socket = none;
  };
  clients =
      item (replicate 16 1) (10 ∷ 77 ∷ 0 ∷ 2 ∷ []) true
      ∷ item (replicate 16 2) (10 ∷ 77 ∷ 0 ∷ 2 ∷ []) false
      ∷ [];
}

abbrev pub runtime : Runtime
runtime = record {
  authority = codes "river.example:443";
  tunnel_path = codes "/tunnel";
  server = record {
    server_signing = replicate 32 7;
    server_public = replicate 32 7;
    server_key_id = key_id steady (codes "RekaSerdoba server id") (replicate 32 7);
  };
  clients =
      (
        2668881309183831085987251822994260482,
        record {
          id = replicate 16 2;
          gate_key = replicate 32 6;
          public_key = replicate 32 5;
          tunnel_ipv4 = 10 ∷ 77 ∷ 0 ∷ 2 ∷ [];
          session_lifetime_seconds = 3600;
          bandwidth_bytes_per_second = 1048576;
          session_quota_bytes = 0;
        },
      )
      ∷ [];
  gate_replay = [];
  admission_rate = [];
  migrations = [];
}

started :
    from_config
      (λ x. some x)
      (λ octets. some (IpAddr.v4 octets))
      (λ _. true)
      steady
      (λ _. some 172818433)
      (λ _. false)
      (λ seed. seed)
      (λ n. n)
      config
    ≡ ok runtime
unfolding from_config validate_settings bytes_eq decode_fixed add_clients check_client contains
    is_outside from_be subnet_of Policy.new add_client insert
started = refl

-- An H3 endpoint whose key file, of mode 0640, is regular, as is everything else.
abbrev endpoint : H3Config
endpoint = record {
  listen = codes "0.0.0.0:443";
  authority = codes "river.example:443";
  path = codes "/library";
  certificate_pem = codes "c";
  private_key_pem = codes "k";
  decoy_root = codes "d";
}

abbrev host : ℕ → Host
host mode = record {
  parse_socket = λ text. some 443;
  metadata = λ path. some (record { is_file = true; is_dir = true; mode = mode });
  canonicalize = λ path. some path;
  pem_file_iter = λ path. some (some path ∷ []);
  from_pem_file = λ path. some path;
  with_single_cert = λ chain key. true;
}

abbrev config_h3 : Config
config_h3 = record config { h3 = some endpoint }

abbrev validated : ℕ → Result Error Runtime
validated mode =
    validate_config (host mode) (λ text. false) (λ x. some x) (λ octets. some (IpAddr.v4 octets))
      (λ key. true) steady (λ text. some 172818433) (λ seed. seed) (λ n. n) config_h3

-- With mode 0660 the group may write to the file.
writable : validated 432 ≡ err h3_private_key_permissions_are_too_broad
unfolding validate_config check_h3 check_file validate_settings bytes_eq
writable = refl

-- The clients of the server that has started.
runtime-Serves :
    (server_ip : ℕ) × (some 172818433 ≡ some server_ip)
    × Serves (λ _. true) (subnet_of server_ip 24) runtime.clients
    × (length runtime.clients ≡ count_active config.clients)
runtime-Serves =
    from_config-Serves (λ x. some x) (λ octets. some (IpAddr.v4 octets)) (λ _. true) steady
      (λ _. some 172818433) (λ _. false) (λ seed. seed) (λ n. n) config runtime started

pub client-Serves : Serves (λ _. true) (subnet_of 172818433 24) runtime.clients
client-Serves =
    let (server_ip, same, serves, count) = runtime-Serves in
    subst (λ (ip : ℕ). Serves (λ _. true) (subnet_of ip 24) runtime.clients) (inside same) serves
  where
    inside : {x y : ℕ} → some x ≡ some y → y ≡ x
    inside p = cc p
