-- ===== src/Network/Kept.antt =====
-- The leases and the routes of the network (rekaserdoba/src/network.rs) under single operations.
use reka_serdoba.Common.{
  ℕ, ◌≡◌, refl, sym, ◌∙◌, ap, subst, Bool, true, false, ◌==◌, ==_iff, ==_refl, Bool-cases,
  Option-cases, Option, none, some, List, ◌∷◌, ◌++◌, inl, inr, All, All-parts, All-append, bytes_eq,
}
use reka_serdoba.Common.Maps.{
  find, erase, Distinct, Distinct-erase, find-erase, find-erase_other, erase-middle,
}
use reka_serdoba.Record.Keys.{codes}
use reka_serdoba.Network.{
  Network, RegisteredSession, drop_lease, route_to_session, ipv4_destination, receive_packet,
}
use reka_serdoba.Network.Device.{
  HelperReader, Registration, Sending, read_tun, read_helper, register_helper, registered,
  send_to_kernel,
}
use reka_serdoba.Network.Leases.{IsLeased, IsCarried, IsIssued, IsIssued-find}

pub drop_lease-IsLeased :
    (ip : ℕ) (session : RegisteredSession) (n : Network) (xs ys : List (ℕ × RegisteredSession))
    (issued : List (ℕ × ℕ))
    → IsLeased n (xs ++ ((ip, session) ∷ ys)) issued
    → IsLeased (drop_lease (record { ip = ip; id = session.id }) n) (xs ++ ys) issued
unfolding drop_lease
drop_lease-IsLeased ip session n xs ys issued h =
    let (found, erased) = erase-middle ip session xs ys h.distinct in
    let (front, back) = All-parts (IsIssued issued) xs ((ip, session) ∷ ys) h.all_issued in
    let distinct = subst Distinct erased (Distinct-erase ip _ h.distinct) in
    rw (h.looked_up ip ∙ found, drop_lease)
      (rw (==_refl session.id) (record {
        looked_up = λ i. elim (Bool-cases (ip == i)) [
          | inl same ↦
              let gone = find-erase ip n.sessions h.keys in
              let left =
                subst (λ m. find ip m ≡ none) erased
                  (find-erase ip (xs ++ ((ip, session) ∷ ys)) h.distinct) in
              subst (λ j. find j (erase ip n.sessions) ≡ find j (xs ++ ys)) ((==_iff ip i).0 same)
                (gone ∙ sym left)
          | inr differs ↦
              find-erase_other i ip n.sessions differs
              ∙ h.looked_up i
              ∙ sym (find-erase_other i ip (xs ++ ((ip, session) ∷ ys)) differs)
              ∙ ap (λ m. find i m) erased
        ];
        keys = Distinct-erase ip n.sessions h.keys;
        distinct = distinct;
        all_issued = All-append (IsIssued issued) xs ys front back.1;
        carried = h.carried;
      }))

module _ (held : List (ℕ × RegisteredSession)) (issued : List (ℕ × ℕ)) where
  -- A step that leaves the registry alone.
  pub rest-IsLeased :
      (m n : Network)
      → IsLeased n held issued
      → m.sessions ≡ n.sessions
      → All (IsCarried issued) m.taken
      → IsLeased m held issued
  rest-IsLeased m n h same carried = record {
    looked_up = λ ip. ap (λ sessions. find ip sessions) same ∙ h.looked_up ip;
    keys = subst Distinct (sym same) h.keys;
    distinct = h.distinct;
    all_issued = h.all_issued;
    carried = carried;
  }

  pub receive_packet-IsLeased :
      (takes : Bool) (packet : List ℕ) (n : Network)
      → IsLeased n held issued
      → IsLeased (receive_packet takes packet n) held issued
  unfolding receive_packet route_to_session
  receive_packet-IsLeased takes packet n h = elim (Option-cases (ipv4_destination packet)) [
    | inl nowhere ↦ rw (nowhere, receive_packet) (rest-IsLeased _ n h refl h.carried)
    | inr (destination, to) ↦
        rw (to, receive_packet)
          (elim (Option-cases (find destination n.sessions)) [
            | inl free ↦ rw (free, route_to_session) (rest-IsLeased _ n h refl h.carried)
            | inr (session, there) ↦
                rw (there, route_to_session)
                  (let leased =
                      IsIssued-find issued held destination session h.all_issued
                        (sym (h.looked_up destination) ∙ there) in
                    elim (Bool-cases takes) [
                      | inl e ↦
                          rw e (rest-IsLeased _ n h refl ((destination, to, leased), h.carried))
                      | inr e ↦ rw e (rest-IsLeased _ n h refl h.carried)
                    ])
          ])
  ]

  pub read_tun-IsLeased :
      (takes : Bool) (packet : Option (List ℕ)) (n : Network)
      → IsLeased n held issued
      → IsLeased (read_tun takes packet n) held issued
  unfolding read_tun
  read_tun-IsLeased takes none n h = rest-IsLeased _ n h refl h.carried
  read_tun-IsLeased takes (some packet) n h =
      receive_packet-IsLeased takes packet _ (rest-IsLeased _ n h refl h.carried)

  pub read_helper-IsLeased :
      (takes : Bool) (message : Option (List ℕ)) (r : HelperReader)
      → IsLeased r.network held issued
      → IsLeased (read_helper takes message r).network held issued
  unfolding read_helper
  read_helper-IsLeased takes none r h = rest-IsLeased _ r.network h refl h.carried
  read_helper-IsLeased takes (some message) r h =
      elim (Bool-cases (bytes_eq message (codes "RSA1"))) [
        | inl e ↦ rw (e, read_helper) (rest-IsLeased _ r.network h refl h.carried)
        | inr e ↦ rw (e, read_helper) (receive_packet-IsLeased takes message r.network h)
      ]

  pub register_helper-IsLeased :
      (answer : Registration) (r : HelperReader)
      → IsLeased r.network held issued
      → IsLeased (register_helper answer r).network held issued
  unfolding register_helper
  register_helper-IsLeased answer r h = elim (Bool-cases (registered answer)) [
    | inl e ↦ rw (e, register_helper) (rest-IsLeased _ r.network h refl h.carried)
    | inr e ↦ rw (e, register_helper) (rest-IsLeased _ r.network h refl h.carried)
  ]

  pub send_to_kernel-IsLeased :
      (is_helper : Bool) (first : Sending) (reconnected : Bool) (again : Sending) (packet : List ℕ)
      (n : Network)
      → IsLeased n held issued
      → IsLeased (send_to_kernel is_helper first reconnected again packet n).0 held issued
  unfolding send_to_kernel
  send_to_kernel-IsLeased is_helper (Sending.wrote written) reconnected again packet n h = h
  send_to_kernel-IsLeased is_helper Sending.failed reconnected again packet n h = h
  send_to_kernel-IsLeased false Sending.lost reconnected again packet n h = h
  send_to_kernel-IsLeased true Sending.lost reconnected again packet n h =
      rest-IsLeased _ n h refl h.carried
