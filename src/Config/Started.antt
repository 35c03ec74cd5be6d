-- ===== src/Config/Started.antt =====
-- What holds of a configuration with which the server starts (rekaserdoba/src/main.rs).
use reka_serdoba.Common.{
  none, ℕ, ◌-◌, ◌≤◌, ◌≡◌, bit_and, true, Option, some, List, length, drop, get_or,
}
use reka_serdoba.Crypto.{Crypto}
use reka_serdoba.Record.Keys.{codes}
use reka_serdoba.Config.{Config, H3Config}
use reka_serdoba.Config.Validation.{Metadata, Host, collect}

module _ (host : Host) where
  -- An H3 endpoint that can be opened: a chain of certificates that its key fits, in regular files,
  -- of which that of the key is neither writable for its group nor open to others, and a directory.
  pub record IsReady (h3 : H3Config) : Type 0 where
    pub items : List (Option (List ℕ))
    pub items_read : host.pem_file_iter h3.certificate_pem ≡ some items
    pub chain : List (List ℕ)
    pub chain_parsed : collect items ≡ some chain
    pub some_chain : 1 ≤ length chain
    pub key : List ℕ
    pub key_read : host.from_pem_file h3.private_key_pem ≡ some key
    pub fits : host.with_single_cert chain key ≡ true
    pub key_file : Metadata
    pub key_found : host.metadata h3.private_key_pem ≡ some key_file
    pub key_regular : key_file.is_file ≡ true
    pub key_private : bit_and key_file.mode 23 ≡ 0
    pub root : Metadata
    pub root_found : host.metadata h3.decoy_root ≡ some root
    pub root_directory : root.is_dir ≡ true
    pub path_start : get_or h3.path 0 0 ≡ 47
    pub path_len : length h3.path ≤ 256
    pub port : drop (length h3.authority - 4) h3.authority ≡ codes ":443"

  -- What `load_tls_config` has found.
  record IsLoaded (certificate private_key : List ℕ) : Type 0 where
    items : List (Option (List ℕ))
    items_read : host.pem_file_iter certificate ≡ some items
    chain : List (List ℕ)
    chain_parsed : collect items ≡ some chain
    some_chain : 1 ≤ length chain
    key : List ℕ
    key_read : host.from_pem_file private_key ≡ some key
    fits : host.with_single_cert chain key ≡ true

  -- No endpoint, or one that is ready.
  abbrev pub IsEndpointReady : Option H3Config → Type 0
  IsEndpointReady none = Unit {0}
  IsEndpointReady (some h3) = IsReady h3
