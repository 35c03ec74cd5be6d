-- ===== src/Config/Adding.antt =====
-- How the loop over the clients of a configuration (rekaserdoba/src/main.rs) adds one.
use reka_serdoba.Common.{
  ℕ, ◌+◌, ◌≡◌, refl, sym, ap, ◌≢◌, ◌∙◌, subst, Bool, true, false, ◌==◌, ==_refl, Bool-cases,
  Option-cases, some, List, ◌∷◌, length, inl, inr, if◌then◌else◌, ok, ok_injective, arith,
}
use reka_serdoba.Common.Words.{from_be}
use reka_serdoba.Common.Maps.{find, find-insert_cases, length-insert}
use reka_serdoba.Handshake.Auth.{Client}
use reka_serdoba.Config.{Subnet, Configured, contains, add_client}
use reka_serdoba.Config.Clients.{IsValid}

-- The clients so far: one that is found has its own id as its key, is valid, and its id and its
-- address are among those that were seen; and an address has one client.
pub record IsConfigured (is_public_key : List ℕ → Bool) (subnet : Subnet) (configured : Configured)
    : Type 0 where
  pub entry :
      (i : ℕ) (client : Client)
      → find i configured.clients ≡ some client
      → (i ≡ from_be client.id)
        × IsValid is_public_key subnet client
        × (contains i configured.configured_ids ≡ true)
        × (contains (from_be client.tunnel_ipv4) configured.tunnel_addresses ≡ true)
  pub apart :
      (i j : ℕ) (a b : Client)
      → find i configured.clients ≡ some a
      → find j configured.clients ≡ some b
      → from_be a.tunnel_ipv4 ≡ from_be b.tunnel_ipv4
      → i ≡ j

contains-later : (n m : ℕ) (ms : List ℕ) → contains n ms ≡ true → contains n (m ∷ ms) ≡ true
unfolding contains
contains-later n m ms h = elim (Bool-cases (m == n)) [ inl e ↦ rw e refl | inr e ↦ rw e h ]

contains-head : (n : ℕ) (ms : List ℕ) → contains n (n ∷ ms) ≡ true
unfolding contains
contains-head n ms = rw (==_refl n) refl

module _ (is_public_key : List ℕ → Bool) (subnet : Subnet) where
  -- A client that is there has not the address of one whose address was not seen.
  known_address :
      (configured : Configured) (address i : ℕ) (a : Client)
      → IsConfigured is_public_key subnet configured
      → contains address configured.tunnel_addresses ≡ false
      → find i configured.clients ≡ some a
      → address ≢ from_be a.tunnel_ipv4
  known_address configured address i a h free found same =
      let seen = (h.entry i a found).3 in
      absurd (cc (subst (λ n. contains n configured.tunnel_addresses ≡ false) same free, seen))

  pub add_client-IsConfigured :
      (revoked : Bool) (client : Client) (configured next : Configured)
      → IsValid is_public_key subnet client
      → contains (from_be client.id) configured.configured_ids ≡ false
      → IsConfigured is_public_key subnet configured
      → add_client revoked client configured ≡ ok next
      → IsConfigured is_public_key subnet next
  unfolding add_client
  add_client-IsConfigured true client configured next valid new h e =
      subst (λ (s : Configured). IsConfigured is_public_key subnet s) (ok_injective e)
        (record {
          entry = λ i a found.
              let (key, v, id, address) = h.entry i a found in
              (key, v, contains-later i (from_be client.id) configured.configured_ids id, address);
          apart = h.apart;
        })
  add_client-IsConfigured false client configured next valid new h e =
      elim (Bool-cases (contains (from_be client.tunnel_ipv4) configured.tunnel_addresses)) [
        | inl taken ↦ absurd (cc (rw (taken, add_client) at e))
        | inr free ↦
            subst (λ (s : Configured). IsConfigured is_public_key subnet s)
              (ok_injective (rw (free, add_client) at e))
              (record {
                entry = λ i a found.
                    elim (find-insert_cases i (from_be client.id) client a configured.clients
                      found) [
                        | inl (key, same) ↦ (
                          sym key ∙ ap (λ (x : Client). from_be x.id) (sym same),
                          subst (λ (x : Client). IsValid is_public_key subnet x) (sym same) valid,
                          subst
                              (λ k.
                                contains k (from_be client.id ∷ configured.configured_ids) ≡ true)
                              key (contains-head (from_be client.id) configured.configured_ids),
                          subst
                              (λ (x : Client).
                                contains (from_be x.tunnel_ipv4)
                                  (from_be client.tunnel_ipv4 ∷ configured.tunnel_addresses)
                                ≡ true)
                              (sym same)
                              (contains-head (from_be client.tunnel_ipv4)
                                configured.tunnel_addresses),
                        )
                        | inr old ↦
                            let (key, v, id, address) = h.entry i a old in
                            (
                              key,
                              v,
                              contains-later i (from_be client.id) configured.configured_ids id,
                              contains-later (from_be a.tunnel_ipv4) (from_be client.tunnel_ipv4)
                                  configured.tunnel_addresses address,
                            )
                      ];
                apart = λ i j a b fi fj same.
                    elim (find-insert_cases i (from_be client.id) client a configured.clients fi) [
                      | inl (ki, ea) ↦
                          elim (find-insert_cases j (from_be client.id) client b configured.clients
                            fj) [
                              | inl (kj, eb) ↦ sym ki ∙ kj
                              | inr old ↦ absurd (
                                  known_address configured (from_be client.tunnel_ipv4) j b h free
                                    old
                                    (ap (λ (x : Client). from_be x.tunnel_ipv4) (sym ea) ∙ same))
                            ]
                      | inr old_i ↦
                          elim (find-insert_cases j (from_be client.id) client b configured.clients
                            fj) [
                              | inl (kj, eb) ↦ absurd (
                                  known_address configured (from_be client.tunnel_ipv4) i a h free
                                    old_i
                                    (ap (λ (x : Client). from_be x.tunnel_ipv4) (sym eb)
                                      ∙ sym same))
                              | inr old_j ↦ h.apart i j a b old_i old_j same
                            ]
                    ];
              })
      ]

  -- A client that is not revoked is one more.
  pub add_client-length :
      (revoked : Bool) (client : Client) (configured next : Configured)
      → contains (from_be client.id) configured.configured_ids ≡ false
      → IsConfigured is_public_key subnet configured
      → add_client revoked client configured ≡ ok next
      → length next.clients ≡ length configured.clients + (if revoked then 0 else 1)
  unfolding add_client
  add_client-length true client configured next new h e =
      let same : record configured { configured_ids = _ } ≡ next = ok_injective e in
      subst (λ (s : Configured). length s.clients ≡ length configured.clients + 0) same
        (omega arith)
  add_client-length false client configured next new h e =
      elim (Bool-cases (contains (from_be client.tunnel_ipv4) configured.tunnel_addresses)) [
        | inl taken ↦ absurd (cc (rw (taken, add_client) at e))
        | inr free ↦ elim (Option-cases (find (from_be client.id) configured.clients)) [
          | inr (other, there) ↦ absurd (cc (new, (h.entry (from_be client.id) other there).2))
          | inl none_there ↦
              let count = length-insert (from_be client.id) client configured.clients in
              subst (λ (s : Configured). length s.clients ≡ length configured.clients + 1)
                (ok_injective (rw (free, add_client) at e)) (rw none_there at count)
        ]
      ]
