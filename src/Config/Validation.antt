-- ===== src/Config/Validation.antt =====
-- `validate_config` (rekaserdoba/src/main.rs) with `Server::validate` and `load_tls_config`
-- (rekaserdoba/src/h3_edge.rs). The file system and the TLS library answer as a record of functions
-- says; a file that is looked at twice is the same both times.
use reka_serdoba.Common.{
  ℕ, ◌-◌, bit_and, Bool, not, ◌||◌, Option, none, some, List, [], ◌∷◌, length, drop, get_or,
  bytes_eq, ltb, ◌==◌, Result, ok, ◌>>=◌, ◌>>◌, bail_if, ok_or,
}
use reka_serdoba.Crypto.{Crypto}
use reka_serdoba.Errors.{
  Error, invalid_listen_address, too_many_configured_clients, invalid_h3_listen_address,
  h3_authority_must_contain_explicit_443_port, invalid_h3_path, read_h3_certificate_metadata,
  h3_certificate_is_not_a_regular_file, read_h3_private_key_metadata,
  h3_private_key_is_not_a_regular_file, h3_private_key_permissions_are_too_broad,
  open_h3_certificate, parse_h3_certificate, h3_certificate_chain_is_empty, parse_h3_private_key,
  configure_h3_certificate, read_h3_decoy_root_metadata, h3_decoy_root_is_not_a_directory,
  resolve_h3_decoy_root,
}
use reka_serdoba.Record.Keys.{codes}
use reka_serdoba.Network.{validate_settings}
use reka_serdoba.Config.{Config, H3Config, IpAddr, Runtime, from_config}

-- What `std::fs::metadata` tells.
pub record Metadata : Type 0 where
  pub is_file : Bool
  pub is_dir : Bool
  pub mode : ℕ

-- The parser of socket addresses, the files, and the readers of PEM files of the TLS library, with
-- its test that a key fits a chain of certificates.
pub record Host : Type 0 where
  pub parse_socket : List ℕ → Option ℕ
  pub metadata : List ℕ → Option Metadata
  pub canonicalize : List ℕ → Option (List ℕ)
  pub pem_file_iter : List ℕ → Option (List (Option (List ℕ)))
  pub from_pem_file : List ℕ → Option (List ℕ)
  pub with_single_cert : List (List ℕ) → List ℕ → Bool

abbrev pub max_clients : ℕ
max_clients = 4096

-- `collect` of results, which ends at the first failure.
abbrev pub collect : List (Option (List ℕ)) → Option (List (List ℕ))
collect [] = some []
collect (none ∷ items) = none
collect (some item ∷ items) = elim (collect items) [ none ↦ none | some rest ↦ some (item ∷ rest) ]

module _ (host : Host) where
  -- `load_tls_config`, which gives the chain and the key that it has configured.
  unfoldable pub load_tls_config : List ℕ → List ℕ → Result Error (List (List ℕ) × List ℕ)
  load_tls_config certificate private_key = do
    items ← ok_or (host.pem_file_iter certificate) open_h3_certificate
    certificates ← ok_or (collect items) parse_h3_certificate
    bail_if (length certificates == 0) h3_certificate_chain_is_empty
    key ← ok_or (host.from_pem_file private_key) parse_h3_private_key
    bail_if (not (host.with_single_cert certificates key)) configure_h3_certificate
    ok (certificates, key)

  -- `Server::validate`
  unfoldable pub validate_server : List ℕ → List ℕ → List ℕ → Result Error (Unit {0})
  validate_server certificate private_key decoy_root = do
    loaded ← load_tls_config certificate private_key
    metadata ← ok_or (host.metadata decoy_root) read_h3_decoy_root_metadata
    bail_if (not metadata.is_dir) h3_decoy_root_is_not_a_directory
    root ← ok_or (host.canonicalize decoy_root) resolve_h3_decoy_root
    ok tt

  -- One turn of the loop over the two files.
  unfoldable pub check_file : List ℕ → Error → Error → Result Error (Unit {0})
  check_file path unread not_regular = do
    metadata ← ok_or (host.metadata path) unread
    bail_if (not metadata.is_file) not_regular

  module _ (has_whitespace : List ℕ → Bool) where
    -- The part of `validate_config` about the H3 endpoint; 0o027 is 23.
    unfoldable pub check_h3 : H3Config → Result Error (Unit {0})
    check_h3 h3 = do
      address ← ok_or (host.parse_socket h3.listen) invalid_h3_listen_address
      bail_if
          (not (bytes_eq (drop (length h3.authority - 4) h3.authority) (codes ":443"))
            || has_whitespace h3.authority)
          h3_authority_must_contain_explicit_443_port
      bail_if (not (get_or h3.path 0 0 == 47) || ltb 256 (length h3.path)) invalid_h3_path
      check_file h3.certificate_pem read_h3_certificate_metadata
          h3_certificate_is_not_a_regular_file
      check_file h3.private_key_pem read_h3_private_key_metadata
          h3_private_key_is_not_a_regular_file
      metadata ← ok_or (host.metadata h3.private_key_pem) read_h3_private_key_metadata
      bail_if (not (bit_and metadata.mode 23 == 0)) h3_private_key_permissions_are_too_broad
      validate_server h3.certificate_pem h3.private_key_pem h3.decoy_root

    abbrev pub check_endpoint : Option H3Config → Result Error (Unit {0})
    check_endpoint none = ok tt
    check_endpoint (some h3) = check_h3 h3

    -- `validate_config`
    module _ (decode : List ℕ → Option (List ℕ)) (parse_ip : List ℕ → Option IpAddr)
        (is_public_key : List ℕ → Bool) (c : Crypto) (parse_address : List ℕ → Option ℕ)
        (verifying_key : List ℕ → List ℕ) where
      unfoldable pub validate_config : (ℕ → ℕ) → Config → Result Error Runtime
      validate_config clock cfg = do
        address ← ok_or (host.parse_socket cfg.listen) invalid_listen_address
        validate_settings parse_address cfg.tun
        bail_if (ltb max_clients (length cfg.clients)) too_many_configured_clients
        check_endpoint cfg.h3
        from_config decode parse_ip is_public_key c parse_address has_whitespace verifying_key clock
            cfg
