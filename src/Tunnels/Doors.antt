-- ===== src/Tunnels/Doors.antt =====
-- Each door lets a request through only by the check of the rate and by one of the gates
-- (rekaserdoba/src/main.rs).
use reka_serdoba.Common.{
  ℕ, Bool, not, ◌||◌, refl, Option, none, some, Option-cases, List, [], bytes_eq, Bool-cases, inl,
  inr, replicate,
}
use reka_serdoba.Common.Steps.{continue}
use reka_serdoba.Crypto.{Crypto}
use reka_serdoba.Record.Keys.{codes}
use reka_serdoba.Gate.{validate_gate, validate_h3_gate}
use reka_serdoba.Config.{H3Config}
use reka_serdoba.Tunnels.{
  AppState, not_found, dropped, closed, failed, with_rate, Times, HttpRequest, H3Session,
  forwarded_source, strip_prefix, client_of, key_of, pass_gates, admit_http, maybe_tunnel,
  h2_tunnel, handle_h3_session, h3_exporter_context, is_operational, h2_path, Arrival, wss, h2, h3,
  arrive,
}
use reka_serdoba.Tunnels.Passage.{
  bearer, token_of, source_of, Passage, at_once, rates, ended, ended_counted, gated, checked,
  pass_gates-Gated,
}

module _ (c : Crypto) (decode : List ℕ → Option (List ℕ)) where
  module _ (is_loopback : ℕ → Bool) (parse_ip : List ℕ → Option ℕ) where
    admit_http-Passage :
        (method path : List ℕ) (q : HttpRequest) (times : Times) (s : AppState)
        → Passage c decode
            (forwarded_source is_loopback parse_ip q.forwarded_for q.peer)
            (bearer q.authorization)
            times
            s
            (admit_http c decode is_loopback parse_ip method path q times s)
    unfolding admit_http continue validate_gate
    admit_http-Passage method path q times s = elim (Option-cases q.authorization) [
      | inl none_given ↦ rw none_given (
          at_once c decode (forwarded_source is_loopback parse_ip q.forwarded_for q.peer) none times
            s not_found)
      | inr (auth, given) ↦ elim (Option-cases (strip_prefix (codes "Bearer ") auth)) [
        | inl other ↦ rw given (
            rw other (
              at_once c decode (forwarded_source is_loopback parse_ip q.forwarded_for q.peer) none
                times s not_found))
        | inr (encoded, bears) ↦
            let source : ℕ = forwarded_source is_loopback parse_ip q.forwarded_for q.peer in
            let gate =
              validate_gate c decode (client_of s.runtime) key_of s.runtime.authority encoded method
                path times.wall times.now in
            rw given (
              rw bears (
                checked c decode source times s (some encoded) not_found
                  (λ done. pass_gates c decode not_found gate encoded (replicate 32 0) times)
                  (λ ok_rate.
                    gated c decode source times s (some encoded)
                      (record {
                        encoded = encoded;
                        label = codes "RekaSerdoba/1 gate-lab";
                        exporter = [];
                        method = method;
                        authority = s.runtime.authority;
                        path = path;
                      })
                      (pass_gates c decode not_found gate encoded (replicate 32 0) times
                        (with_rate (rates c decode source times s) s))
                      refl ok_rate
                      (pass_gates-Gated c decode not_found gate encoded (replicate 32 0) times
                        (with_rate (rates c decode source times s) s)))))
      ]
    ]

    maybe_tunnel-Passage :
        (q : HttpRequest) (times : Times) (s : AppState)
        → Passage c decode
            (forwarded_source is_loopback parse_ip q.forwarded_for q.peer)
            (bearer q.authorization)
            times
            s
            (maybe_tunnel c decode is_loopback parse_ip q times s)
    unfolding maybe_tunnel continue admit_http
    maybe_tunnel-Passage q times s =
        let refused =
          at_once c decode (forwarded_source is_loopback parse_ip q.forwarded_for q.peer)
            (bearer q.authorization) times s not_found in
        elim (Bool-cases (not (bytes_eq q.path s.runtime.tunnel_path) || not (is_operational s))) [
          | inl e ↦ rw e refused
          | inr e ↦ rw e (elim (Bool-cases q.upgradable) [
            | inl u ↦ simp u (admit_http-Passage (codes "GET") s.runtime.tunnel_path q times s)
            | inr u ↦ rw u refused
          ])
        ]

    h2_tunnel-Passage :
        (q : HttpRequest) (times : Times) (s : AppState)
        → Passage c decode
            (forwarded_source is_loopback parse_ip q.forwarded_for q.peer)
            (bearer q.authorization)
            times
            s
            (h2_tunnel c decode is_loopback parse_ip q times s)
    unfolding h2_tunnel continue
    h2_tunnel-Passage q times s = elim (Bool-cases (is_operational s)) [
      | inl e ↦ rw e (admit_http-Passage (codes "POST") h2_path q times s)
      | inr e ↦ rw e (
          at_once c decode (forwarded_source is_loopback parse_ip q.forwarded_for q.peer)
            (bearer q.authorization) times s not_found)
    ]

  handle_h3_session-Passage :
      (is_text : List ℕ → Bool) (cfg : H3Config) (session : H3Session) (times : Times)
      (s : AppState)
      → Passage c decode session.peer session.first_message times s
          (handle_h3_session c decode is_text cfg session times s)
  unfolding handle_h3_session continue validate_h3_gate
  handle_h3_session-Passage is_text cfg session times s = elim (Bool-cases (is_operational s)) [
    | inr e ↦ rw e (at_once c decode session.peer session.first_message times s dropped)
    | inl e ↦ rw e (
        checked c decode session.peer times s session.first_message dropped _ (λ ok_rate.
          elim (Option-cases
            (session.exporter (h3_exporter_context c decode cfg.authority cfg.path))) [
              | inl none_given ↦
                  simp none_given (ended c decode session.peer times s session.first_message failed)
              | inr (exporter, given) ↦ simp given (elim (Option-cases session.first_message) [
                | inl late ↦ simp late (ended_counted c decode session.peer times s none closed)
                | inr (encoded, came) ↦ simp came (elim (Bool-cases (is_text encoded)) [
                  | inr other ↦ rw other (ended c decode session.peer times s (some encoded) failed)
                  | inl text ↦ rw text (
                      gated c decode session.peer times s (some encoded)
                        (record {
                          encoded = encoded;
                          label = codes "RekaSerdoba/1 gate";
                          exporter = exporter;
                          method = codes "CONNECT";
                          authority = cfg.authority;
                          path = cfg.path;
                        })
                        (pass_gates c decode closed
                          (validate_h3_gate c decode (client_of s.runtime) key_of encoded exporter
                            cfg.authority cfg.path times.wall times.now)
                          encoded exporter times
                          (with_rate (rates c decode session.peer times s) s))
                        refl ok_rate
                        (pass_gates-Gated c decode closed
                          (validate_h3_gate c decode (client_of s.runtime) key_of encoded exporter
                            cfg.authority cfg.path times.wall times.now)
                          encoded exporter times
                          (with_rate (rates c decode session.peer times s) s)))
                ])
              ])
            ]))
  ]

module _ (c : Crypto) (decode : List ℕ → Option (List ℕ)) (is_loopback : ℕ → Bool)
    (parse_ip : List ℕ → Option ℕ) (is_text : List ℕ → Bool) where
  pub arrive-Passage :
      (a : Arrival) (times : Times) (s : AppState)
      → Passage c decode
          (source_of is_loopback parse_ip a)
          (token_of a)
          times
          s
          (arrive c decode is_loopback parse_ip is_text a times s)
  arrive-Passage (wss q) times s = maybe_tunnel-Passage c decode is_loopback parse_ip q times s
  arrive-Passage (h2 q) times s = h2_tunnel-Passage c decode is_loopback parse_ip q times s
  arrive-Passage (h3 cfg session) times s =
      handle_h3_session-Passage c decode is_text cfg session times s
