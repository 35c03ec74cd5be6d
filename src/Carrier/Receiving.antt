-- ===== src/Carrier/Receiving.antt =====
-- Chains that receive and send on a carrier, and ended in a value.
use reka_serdoba.Common.{ℕ, ◌≡◌, ◌∙◌, sym, ap, refl, List, [], ◌∷◌, ◌++◌, Result, ok, err}
use reka_serdoba.Common.Steps.{continue}
use reka_serdoba.Errors.{Error}
use reka_serdoba.Carrier.Events.{
  CarrierEvent, binary, ping, close, ignore, binary_message, Link, LinkStep, recv, recv_binary,
  send_binary,
}

-- A binary message that a chain has received, and one that it has sent.
pub recv_then {ρ} :
    {B : Type 0} {G : Type ρ} (next : List ℕ → LinkStep B) (link t : Link) (x : B)
    → continue (recv_binary link) next ≡ (t, ok x)
    → ((m : List ℕ) (incoming : List (Result Error CarrierEvent))
        → link.incoming ≡ ok (binary m) ∷ incoming
        → next m (record link { incoming = incoming }) ≡ (t, ok x)
        → G)
    → G
unfolding recv_binary recv continue
recv_then {B = B} {G = G} next link t x e after = by_events link.incoming refl
  where
    taken :
        (m : List ℕ) (incoming : List (Result Error CarrierEvent))
        → link.incoming ≡ ok (binary m) ∷ incoming
        → recv_binary link ≡ (record link { incoming = incoming }, ok m)
    taken m incoming p = rw (recv, p) refl

    by_events : (events : List (Result Error CarrierEvent)) → link.incoming ≡ events → G
    by_events [] p = absurd (cc (rw (recv_binary, recv, continue, p) at e))
    by_events (err f ∷ incoming) p = absurd (cc (rw (recv_binary, recv, continue, p) at e))
    by_events (ok (ping value) ∷ incoming) p =
        absurd (cc (rw (recv_binary, recv, continue, p) at e))
    by_events (ok close ∷ incoming) p = absurd (cc (rw (recv_binary, recv, continue, p) at e))
    by_events (ok ignore ∷ incoming) p = absurd (cc (rw (recv_binary, recv, continue, p) at e))
    by_events (ok (binary m) ∷ incoming) p =
        after m incoming p (sym (ap (λ y. continue y next) (taken m incoming p)) ∙ e)

pub send_then {ρ} :
    {B : Type 0} {G : Type ρ} (m : List ℕ) (next : Unit {0} → LinkStep B) (link t : Link) (x : B)
    → continue (send_binary m link) next ≡ (t, ok x)
    → (next tt (record link { sent = link.sent ++ (binary_message m ∷ []) }) ≡ (t, ok x) → G)
    → G
unfolding send_binary continue
send_then m next link t x e after = after e
