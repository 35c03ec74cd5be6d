-- ===== src/Serving/Invariant.antt =====
-- What every record and every turn keeps.
pub mod Shaping
pub mod Frames
pub mod Control
pub mod Turns
pub mod Whole
pub mod Lifetime
use reka_serdoba.Common.{
  ℕ, ◌+◌, ◌≤◌, ◌≡◌, ◌∙◌, sym, ap, subst, refl, inl, inr, Bool, true, false, Option, none, some,
  List, [], ◌∷◌, ◌++◌, length, All, All-append, ltb, ◌==◌, if◌then◌else◌, Bool-cases, Result, ok,
  err, Result-cases, bail_if, arith,
}
use reka_serdoba.Common.Steps.{
  Step, Keeps, continue, through, through-lift, Keeps-chain, lift, pure,
}
use reka_serdoba.Errors.{Error}
use reka_serdoba.Crypto.{Crypto}
use reka_serdoba.Packets.{validate_ipv4_packet}
use reka_serdoba.Rekey.Session.{RekeySession, SessionStep}
use reka_serdoba.Rekey.Soundness
use reka_serdoba.Fragment
use reka_serdoba.Fragment.Invariant
use reka_serdoba.Fragment.Arrivals.{push-IsSound}
use reka_serdoba.Policy.{SessionPolicy}
use reka_serdoba.Policy
use reka_serdoba.Policy.Reserve.{
  Within, granted, reserve-quota, reserve-transferred, reserve-Within,
}
use reka_serdoba.Carrier.Events.{Link, LinkStep}
use reka_serdoba.Serving.{
  Serving, ServingStep, World, Metrics, on_crypto, on_link, push_fragment, reserve_bytes,
  count_failed, count_delay, read_clock, draw, shape_traffic, send_to_kernel,
}

abbrev pub total_len : List (List ℕ) → ℕ
total_len [] = 0
total_len (packet ∷ packets) = length packet + total_len packets

pub total_len-append :
    (packets : List (List ℕ)) (packet : List ℕ)
    → total_len (packets ++ (packet ∷ [])) ≡ total_len packets + length packet
total_len-append [] packet = omega arith
total_len-append (p ∷ packets) packet = omega (arith, total_len-append packets packet)

-- The session of a client with the address: its keys and its reassembler are sound, every packet
-- that went to the kernel is a valid one from the address, and their bytes were granted, within the
-- quota.
pub record IsServed (address : List ℕ) (quota : Option ℕ) (s : Serving) : Type 0 where
  pub crypto : Soundness.IsSound s.session.crypto
  pub fragments : Invariant.IsSound s.session.fragments
  pub packets : All (λ packet. validate_ipv4_packet packet address ≡ ok tt) s.kernel
  pub granted_bytes : total_len s.kernel ≤ s.session.policy.transferred
  pub same_quota : s.session.policy.quota ≡ quota
  pub within : Within quota s.session.policy.transferred

module _ (address : List ℕ) (quota : Option ℕ) where
  -- Nothing is said of the carrier, of the metrics and of what has been read.
  pub unrelated-IsServed :
      (s : Serving) (link : Link) (metrics : Metrics) (ticks draws : ℕ)
      → IsServed address quota s
      → IsServed address quota
          (record s { link = link; metrics = metrics; ticks = ticks; draws = draws })
  unrelated-IsServed s link metrics ticks draws h = record {
    crypto = h.crypto;
    fragments = h.fragments;
    packets = h.packets;
    granted_bytes = h.granted_bytes;
    same_quota = h.same_quota;
    within = h.within;
  }

  pub on_crypto-IsServed :
      {A : Type 0} (m : SessionStep A)
      → Keeps Soundness.IsSound m
      → Keeps (IsServed address quota) (on_crypto m)
  unfolding on_crypto
  on_crypto-IsServed m keeps s h = record {
    crypto = keeps s.session.crypto h.crypto;
    fragments = h.fragments;
    packets = h.packets;
    granted_bytes = h.granted_bytes;
    same_quota = h.same_quota;
    within = h.within;
  }

  pub on_link-IsServed : {A : Type 0} (m : LinkStep A) → Keeps (IsServed address quota) (on_link m)
  unfolding on_link
  on_link-IsServed m s h = unrelated-IsServed s (m s.link).0 s.metrics s.ticks s.draws h

  pub push_fragment-IsServed :
      (body : List ℕ) (now : ℕ) → Keeps (IsServed address quota) (push_fragment body now)
  unfolding push_fragment
  push_fragment-IsServed body now s h = record {
    crypto = h.crypto;
    fragments = push-IsSound body now s.session.fragments h.fragments;
    packets = h.packets;
    granted_bytes = h.granted_bytes;
    same_quota = h.same_quota;
    within = h.within;
  }

  pub count_failed-IsServed :
      {A : Type 0} (m : ServingStep A)
      → Keeps (IsServed address quota) m
      → Keeps (IsServed address quota) (count_failed m)
  unfolding count_failed
  count_failed-IsServed m keeps s h = elim (Result-cases (m s).1) [
    | inl (a, e) ↦ rw (e, count_failed) (keeps s h)
    | inr (f, e) ↦
        rw (e, count_failed)
          (unrelated-IsServed (m s).0 (m s).0.link _ (m s).0.ticks (m s).0.draws (keeps s h))
  ]

  pub lift-IsServed : {A : Type 0} (r : Result Error A) → Keeps (IsServed address quota) (lift r)
  lift-IsServed r s h = h

  module _ (w : World) where
    pub read_clock-IsServed : Keeps (IsServed address quota) (read_clock w)
    unfolding read_clock
    read_clock-IsServed s h = unrelated-IsServed s s.link s.metrics (s.ticks + 1) s.draws h

    pub draw-IsServed : Keeps (IsServed address quota) (draw w)
    unfolding draw
    draw-IsServed s h = unrelated-IsServed s s.link s.metrics s.ticks (s.draws + 1) h
