-- ===== src/Network/Leases.antt =====
-- What each operation of `Network` (rekaserdoba/src/network.rs) does to the registry of sessions,
-- next to the leases that are held.
use reka_serdoba.Common.{
  ℕ, ◌≡◌, sym, ◌∙◌, subst, ◌==◌, ==_iff, Bool-cases, Option-cases, none, some, List, [], ◌∷◌, Mem,
  mem-cons_self, mem-cons_of_mem, inl, inr, ok, err, All,
}
use reka_serdoba.Common.Maps.{
  find, insert, Distinct, Distinct-insert, find-insert, find-insert_other,
}
use reka_serdoba.Errors.{Error}
use reka_serdoba.Network.{Network, RegisteredSession, SessionLease, register, ipv4_destination}

-- The packet that a channel took is for an address that was leased with this channel.
abbrev pub IsCarried : List (ℕ × ℕ) → ℕ × List ℕ → Type 0
IsCarried issued (outbound, packet) =
    (ip : ℕ) × (ipv4_destination packet ≡ some ip) × Mem (ip, outbound) issued

abbrev pub IsIssued : List (ℕ × ℕ) → ℕ × RegisteredSession → Type 0
IsIssued issued (ip, session) = Mem (ip, session.outbound) issued

-- The registry is that of the leases that are held, one for an address at most, and every packet
-- went to a channel that was leased for its destination. `held` and `issued` are the leases that
-- are not dropped and all leases so far, with their channels.
pub record IsLeased (n : Network) (held : List (ℕ × RegisteredSession)) (issued : List (ℕ × ℕ))
    : Type 0 where
  pub looked_up : (ip : ℕ) → find ip n.sessions ≡ find ip held
  pub keys : Distinct n.sessions
  pub distinct : Distinct held
  pub all_issued : All (IsIssued issued) held
  pub carried : All (IsCarried issued) n.taken

-- More leases are issued.
IsIssued-later :
    (x : ℕ × ℕ) (issued : List (ℕ × ℕ)) (held : List (ℕ × RegisteredSession))
    → All (IsIssued issued) held
    → All (IsIssued (x ∷ issued)) held
IsIssued-later x issued [] h = tt
IsIssued-later x issued (session ∷ held) (h, hs) =
    (mem-cons_of_mem x h, IsIssued-later x issued held hs)

IsCarried-later :
    (x : ℕ × ℕ) (issued : List (ℕ × ℕ)) (taken : List (ℕ × List ℕ))
    → All (IsCarried issued) taken
    → All (IsCarried (x ∷ issued)) taken
IsCarried-later x issued [] h = tt
IsCarried-later x issued (packet ∷ taken) ((ip, to, there), hs) =
    ((ip, to, mem-cons_of_mem x there), IsCarried-later x issued taken hs)

pub IsIssued-find :
    (issued : List (ℕ × ℕ)) (held : List (ℕ × RegisteredSession)) (ip : ℕ)
    (session : RegisteredSession)
    → All (IsIssued issued) held
    → find ip held ≡ some session
    → Mem (ip, session.outbound) issued
unfolding find
IsIssued-find issued [] ip session h e = absurd (cc e)
IsIssued-find issued ((j, other) ∷ held) ip session (h, hs) e = elim (Bool-cases (j == ip)) [
  | inl same ↦
      subst (λ i. Mem (i, session.outbound) issued) ((==_iff j ip).0 same)
        (subst (λ (s : RegisteredSession). Mem (j, s.outbound) issued)
          (some_injective (rw same at e)) h)
  | inr differs ↦ IsIssued-find issued held ip session hs (rw (differs, find) at e)
]
  where
    some_injective : {x y : RegisteredSession} → some x ≡ some y → x ≡ y
    some_injective p = cc p

pub register_ok :
    (ip outbound : ℕ) (n : Network) (lease : SessionLease)
    → (register ip outbound n).1 ≡ ok lease
    → (find ip n.sessions ≡ none) × (lease ≡ record { ip = ip; id = n.next_id })
unfolding register
register_ok ip outbound n lease e = elim (Option-cases (find ip n.sessions)) [
  | inl free ↦ (free, cc (rw (free, register) at e))
  | inr (session, busy) ↦ absurd (cc (rw (busy, register) at e))
]

pub register-IsLeased :
    (ip outbound : ℕ) (n : Network) (held : List (ℕ × RegisteredSession)) (issued : List (ℕ × ℕ))
    → find ip n.sessions ≡ none
    → IsLeased n held issued
    → IsLeased
        (register ip outbound n).0
        ((ip, record { id = n.next_id; outbound = outbound }) ∷ held)
        ((ip, outbound) ∷ issued)
unfolding register find
register-IsLeased ip outbound n held issued free h =
    rw (free, register)
      (record {
        looked_up = λ i. elim (Bool-cases (ip == i)) [
          | inl same ↦ rw same (
              subst (λ j. find j (insert ip session n.sessions) ≡ some session)
                ((==_iff ip i).0 same) (find-insert ip session n.sessions))
          | inr differs ↦
              rw differs (find-insert_other i ip session n.sessions differs ∙ h.looked_up i)
        ];
        keys = Distinct-insert ip session n.sessions h.keys;
        distinct = (sym (h.looked_up ip) ∙ free, h.distinct);
        all_issued = (mem-cons_self, IsIssued-later (ip, outbound) issued held h.all_issued);
        carried = IsCarried-later (ip, outbound) issued n.taken h.carried;
      })
  where
    session : RegisteredSession
    session = record { id = n.next_id; outbound = outbound }

pub register_refused :
    (ip outbound : ℕ) (n : Network) (error : Error)
    → (register ip outbound n).1 ≡ err error
    → (session : RegisteredSession) × (find ip n.sessions ≡ some session)
unfolding register
register_refused ip outbound n error e = elim (Option-cases (find ip n.sessions)) [
  | inl free ↦ absurd (cc (rw (free, register) at e))
  | inr busy ↦ busy
]

pub register_refused-IsLeased :
    (ip outbound : ℕ) (n : Network) (held : List (ℕ × RegisteredSession)) (issued : List (ℕ × ℕ))
    (session : RegisteredSession)
    → find ip n.sessions ≡ some session
    → IsLeased n held issued
    → IsLeased (register ip outbound n).0 held issued
unfolding register
register_refused-IsLeased ip outbound n held issued session busy h =
    rw (busy, register)
      (record {
        looked_up = h.looked_up;
        keys = h.keys;
        distinct = h.distinct;
        all_issued = h.all_issued;
        carried = h.carried;
      })
