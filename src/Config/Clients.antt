-- ===== src/Config/Clients.antt =====
-- What `from_config` (rekaserdoba/src/main.rs) guarantees of the clients of the server.
use reka_serdoba.Common.{
  ℕ, ◌*◌, ◌≤◌, ◌≡◌, subst, Bool, true, false, not, ◌==◌, Bool-cases, Option-cases, Option, List,
  length, inl, inr, ok, bind_ok, bail_ok, ok_or, ok_injective, arith,
}
use reka_serdoba.Common.Words.{from_be}
use reka_serdoba.Errors.{Error}
use reka_serdoba.Policy
use reka_serdoba.Handshake.Auth.{Client}
use reka_serdoba.Config.{
  ClientConfig, IpAddr, Subnet, Configured, decode_fixed, is_outside, contains, octets_of,
  check_client,
}

-- What holds of a client of the server: its id and gate key have their sizes, its key is one, its
-- address is in the subnet and free for a client, and its session is within the limits.
pub record IsValid (is_public_key : List ℕ → Bool) (subnet : Subnet) (client : Client)
    : Type 0 where
  pub id_len : length client.id ≡ 16
  pub gate_key_len : length client.gate_key ≡ 32
  pub key : is_public_key client.public_key ≡ true
  pub inside : is_outside subnet (from_be client.tunnel_ipv4) ≡ false
  pub lifetime_min : 60 ≤ client.session_lifetime_seconds
  pub lifetime_max : client.session_lifetime_seconds ≤ 86400
  pub bandwidth_min : 1024 ≤ client.bandwidth_bytes_per_second
  pub bandwidth_max : client.bandwidth_bytes_per_second ≤ 1024 * 1024 * 1024

decode_fixed_ok :
    (decode : List ℕ → Option (List ℕ)) (size : ℕ) (e f : Error) (encoded bytes : List ℕ)
    → decode_fixed decode size e f encoded ≡ ok bytes
    → length bytes ≡ size
unfolding decode_fixed
decode_fixed_ok decode size e f encoded bytes h = elim (Option-cases (decode encoded)) [
  | inl none_there ↦ absurd (cc (rw (none_there, decode_fixed) at h))
  | inr (decoded, there) ↦ elim (Bool-cases (length decoded == size)) [
    | inl len ↦
        let same : decoded ≡ bytes = ok_injective (rw (there, decode_fixed, len) at h) in
        subst (λ (b : List ℕ). length b ≡ size) same (ground (arith, len))
    | inr len ↦ absurd (cc (rw (there, decode_fixed, len) at h))
  ]
]

policy_limits :
    (lifetime bandwidth quota now : ℕ) (p : Policy.SessionPolicy)
    → Policy.new lifetime bandwidth quota now ≡ ok p
    → (60 ≤ lifetime) × (lifetime ≤ 86400) × (1024 ≤ bandwidth) × (bandwidth ≤ 1024 * 1024 * 1024)
unfolding Policy.new
policy_limits lifetime bandwidth quota now p h =
    (ground (arith, h), ground (arith, h), ground (arith, h), ground (arith, h))

unnegated : (b : Bool) → not b ≡ false → b ≡ true
unnegated b h = ground (arith, h)

module _ (decode : List ℕ → Option (List ℕ)) (parse_ip : List ℕ → Option IpAddr)
    (is_public_key : List ℕ → Bool) where
  pub check_client_ok :
      (subnet : Subnet) (now : ℕ) (item : ClientConfig) (configured : Configured) (client : Client)
      → check_client decode parse_ip is_public_key subnet now item configured ≡ ok client
      → IsValid is_public_key subnet client
        × (contains (from_be client.id) configured.configured_ids ≡ false)
  unfolding check_client
  check_client_ok subnet now item configured client =
      bind_ok _ (decode_fixed decode 16 _ _ item.client_id_b64) _ (λ id i.
        bail_ok _ (contains (from_be id) configured.configured_ids) _ _ (λ new.
          bind_ok _ (decode_fixed decode 32 _ _ item.client_public_key_b64) _ (λ public_key k.
            bail_ok _ (not (is_public_key public_key)) _ _ (λ is_key.
              bind_ok _ (decode_fixed decode 32 _ _ item.gate_key_b64) _ (λ gate_key g.
                bind_ok _ (ok_or (parse_ip item.tunnel_ipv4) _) _ (λ ip p.
                  bind_ok _ (octets_of ip) _ (λ octets o.
                    bail_ok _ (is_outside subnet (from_be octets)) _ _ (λ inside.
                      bind_ok _
                        (Policy.new item.session_lifetime_seconds item.bandwidth_bytes_per_second
                          item.session_quota_bytes now)
                        _
                        (λ policy made e.
                          let limits = policy_limits _ _ _ _ policy made in
                          subst
                            (λ (x : Client).
                              IsValid is_public_key subnet x
                              × (contains (from_be x.id) configured.configured_ids ≡ false))
                            (ok_injective e)
                            (
                              record {
                                id_len = decode_fixed_ok decode 16 _ _ _ id i;
                                gate_key_len = decode_fixed_ok decode 32 _ _ _ gate_key g;
                                key = unnegated (is_public_key public_key) is_key;
                                inside = inside;
                                lifetime_min = limits.0;
                                lifetime_max = limits.1;
                                bandwidth_min = limits.2;
                                bandwidth_max = limits.3;
                              },
                              new,
                            ))))))))))
