-- ===== src/Serving/Invariant/Lifetime.antt =====
-- A whole session keeps the invariant, from the session that the handshake made.
use reka_serdoba.Common.{
  ℕ, ◌≡◌, refl, sym, subst, ◌==◌, inl, inr, Bool, true, false, Option, none, some, List, [],
  if◌then◌else◌, Result, Result-cases, ok, arith,
}
use reka_serdoba.Errors.{Error}
use reka_serdoba.Crypto.{Crypto}
use reka_serdoba.Rekey.Session.{seal_data}
use reka_serdoba.Carrier.Events.{Link}
use reka_serdoba.Handshake.Auth.{Client}
use reka_serdoba.Handshake.Exchange.{ServerKeys}
use reka_serdoba.Serving.{World, Metrics}
use reka_serdoba.Serving.Loop.{Running, Turn, run_turns}
use reka_serdoba.Serving.Invariant.{IsServed}
use reka_serdoba.Rekey.Soundness
use reka_serdoba.Rekey.Session
use reka_serdoba.Rekey.Session.{RekeySession}
use reka_serdoba.Rekey.Reachable.{new-IsSound}
use reka_serdoba.Fragment
use reka_serdoba.Fragment.Invariant as FragmentInvariant
use reka_serdoba.Fragment.Arrivals.{push_all, push_all-empty-IsSound}
use reka_serdoba.Policy
use reka_serdoba.Policy.{SessionPolicy}
use reka_serdoba.Policy.Reserve.{Within, new_lem}
use reka_serdoba.Record.Keys.{derive_application_secrets}
use reka_serdoba.Handshake.Exchange.{Draws, EstablishedSession, HandshakeKeys, establish}
use reka_serdoba.Serving.Invariant.Whole.{run_turns-Goes}

-- The quota of a client: none is written as zero.
abbrev pub quota_of : Client → Option ℕ
quota_of client = if client.session_quota_bytes == 0 then none else some client.session_quota_bytes

-- The loop's state when it begins.
abbrev pub begin : EstablishedSession → Link → Metrics → ℕ → ℕ → Running
begin session link metrics ticks draws = record {
  serving = record {
    session = session;
    link = link;
    kernel = [];
    metrics = metrics;
    ticks = ticks;
    draws = draws;
  };
  draining = none;
}

module _ (c : Crypto) (server : ServerKeys) (draws : Draws) (client : Client) where
  -- What the last stage of a handshake makes.
  record IsFresh (session : EstablishedSession) : Type 0 where
    pub crypto : Soundness.IsSound session.crypto
    pub fragments : session.fragments ≡ Fragment.empty
    pub policy :
        Policy.new client.session_lifetime_seconds client.bandwidth_bytes_per_second
          client.session_quota_bytes draws.policy_started
        ≡ ok session.policy

  establish-IsFresh :
      (keys : HandshakeKeys) (transcript : List ℕ) (session : EstablishedSession)
      → establish c server draws client keys transcript ≡ ok session
      → IsFresh session
  unfolding establish
  establish-IsFresh keys transcript session e =
      elim (Result-cases (derive_application_secrets c keys.hk transcript draws.session_id)) [
        | inr (f, p) ↦ absurd (cc (rw (p, establish) at e))
        | inl (secrets, p) ↦
            elim (Result-cases (
              Session.new c draws.session_id secrets.epoch_secret secrets.epoch transcript
                draws.crypto_started)) [
                  | inr (f, q) ↦ absurd (cc (rw (p, establish, q) at e))
                  | inl (crypto, q) ↦
                      elim (Result-cases (
                        Policy.new client.session_lifetime_seconds client.bandwidth_bytes_per_second
                          client.session_quota_bytes draws.policy_started)) [
                            | inr (f, o) ↦ absurd (cc (rw (p, establish, q, o) at e))
                            | inl (policy, o) ↦
                                subst IsFresh (session_of (rw (p, establish, q, o) at e)) (record {
                                  crypto =
                                      new-IsSound c draws.session_id secrets.epoch_secret
                                        secrets.epoch transcript draws.crypto_started crypto q;
                                  fragments = refl;
                                  policy = o;
                                })
                          ]
                ]
      ]
    where
      session_of :
          {x y : EstablishedSession} → Path (Result Error EstablishedSession) (ok x) (ok y) → x ≡ y
      session_of f = cc f

  -- From the session that a handshake made, whatever the turns are, whatever comes over the
  -- carriers and whatever fails: the keys and the reassembler stay sound, every packet that went to
  -- the kernel is a valid IPv4 packet from the address of the client, and their bytes were granted,
  -- within the client's quota.
  pub run_turns-IsServed :
      (w : World) (keys : HandshakeKeys) (transcript : List ℕ) (session : EstablishedSession)
      (link : Link) (metrics : Metrics) (ticks drawn : ℕ) (turns : List Turn)
      → establish c server draws client keys transcript ≡ ok session
      → IsServed client.tunnel_ipv4
          (quota_of client)
          (run_turns c w server client turns (begin session link metrics ticks drawn)).serving
  run_turns-IsServed w keys transcript session link metrics ticks drawn turns made =
      let fresh = establish-IsFresh keys transcript session made in
      let new =
        new_lem client.session_lifetime_seconds client.bandwidth_bytes_per_second
          client.session_quota_bytes draws.policy_started session.policy fresh.policy in
      run_turns-Goes c w server client (quota_of client) turns
        (begin session link metrics ticks drawn)
        (record {
          crypto = fresh.crypto;
          fragments =
              subst FragmentInvariant.IsSound (sym fresh.fragments)
                (unfold push_all in push_all-empty-IsSound []);
          packets = tt;
          granted_bytes = omega arith;
          same_quota = new.0;
          within =
              subst (Within (quota_of client)) (sym new.1)
                (nothing (client.session_quota_bytes == 0));
        })
    where
      nothing : (b : Bool) → Within (if b then none else some client.session_quota_bytes) 0
      nothing true = omega arith
      nothing false = (omega arith, omega arith)
