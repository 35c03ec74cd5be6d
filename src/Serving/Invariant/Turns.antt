-- ===== src/Serving/Invariant/Turns.antt =====
-- The parts of a turn keep the invariant.
use reka_serdoba.Common.{
  ℕ, inl, inr, false, Option, none, some, Option-cases, List, [], ◌∷◌, Result-cases,
}
use reka_serdoba.Common.Steps.{Keeps, Keeps-chain, Keeps-lift, get}
use reka_serdoba.Errors.{Error}
use reka_serdoba.Crypto.{Crypto}
use reka_serdoba.Rekey.Session.{seal_data}
use reka_serdoba.Rekey.Reachable.{
  perform, perform-IsSound, sealing_data, opening, update_request, challenge, response,
}
use reka_serdoba.Carrier.Events.{Link}
use reka_serdoba.Serving.{Serving, ServingStep, World, on_crypto, shape_traffic}
use reka_serdoba.Serving.Loop.{
  Running, on_serving, with_link, on_draining, validate_migration_path, send_outbound_records,
  send_outbound_packets, send_update, check_update, send_outbound, migrate, sum_len, count_migrated,
  count_not_migrated,
}
use reka_serdoba.Serving.Invariant.{
  IsServed, on_crypto-IsServed, on_link-IsServed, unrelated-IsServed, read_clock-IsServed,
  draw-IsServed,
}
use reka_serdoba.Serving.Invariant.Shaping.{shape_traffic-Shaped}

module _ (address : List ℕ) (quota : Option ℕ) where
  abbrev pub Runs : Running → Type 0
  Runs r = IsServed address quota r.serving

  pub on_serving-Runs :
      {A : Type 0} (m : ServingStep A)
      → Keeps (IsServed address quota) m
      → Keeps Runs (on_serving m)
  unfolding on_serving
  on_serving-Runs m keeps r h = keeps r.serving h

  with_link-IsServed :
      {A : Type 0} (m : ServingStep A) (link : Link)
      → Keeps (IsServed address quota) m
      → (s : Serving) → IsServed address quota s
      → IsServed address quota (with_link m link s).0
  unfolding with_link
  with_link-IsServed m link keeps s h =
      let t : Serving = (m (record s { link = link })).0 in
      unrelated-IsServed address quota t s.link t.metrics t.ticks t.draws (
        keeps (record s { link = link })
          (unrelated-IsServed address quota s link s.metrics s.ticks s.draws h))

  pub on_draining-Runs :
      {A : Type 0} (m : ServingStep A)
      → Keeps (IsServed address quota) m
      → Keeps Runs (on_draining m)
  unfolding on_draining
  on_draining-Runs m keeps r h = elim (Option-cases r.draining) [
    | inl e ↦ rw (e, on_draining) h
    | inr (old, e) ↦ rw (e, on_draining) (with_link-IsServed m old keeps r.serving h)
  ]

  module _ (c : Crypto) (w : World) where
    abbrev Served : Serving → Type 0
    Served = IsServed address quota

    validate_migration_path-IsServed : Keeps Served (validate_migration_path c w)
    unfolding validate_migration_path perform
    validate_migration_path-IsServed = Keeps-chain Served _ _ (draw-IsServed _ _ w) (λ carrier_id.
        Keeps-chain Served _ _ (draw-IsServed _ _ w) (λ value.
          Keeps-chain Served (get {S = Serving} {E = Error}) _ (λ s h. h)
            (λ s.
              Keeps-chain Served _ _
                (on_crypto-IsServed _ _ _
                  (perform-IsSound c (challenge s.session.migration_secret carrier_id value)))
                (λ sealed. Keeps-chain Served _ _ (on_link-IsServed _ _ _) (λ u.
                  Keeps-chain Served (get {S = Serving} {E = Error}) _ (λ s h. h)
                    (λ t. Keeps-chain Served _ _ (on_link-IsServed _ _ _) (λ encoded.
                      Keeps-chain Served _ _ (read_clock-IsServed _ _ w) (λ now.
                        Keeps-chain Served _ _
                          (on_crypto-IsServed _ _ _ (perform-IsSound c (opening encoded now)))
                          (λ opened. Keeps-lift Served _ _ (λ u'. Keeps-lift Served _ _ (λ frames.
                            Keeps-lift Served _ _ (λ body. on_crypto-IsServed _ _ _ (
                              perform-IsSound c
                                (response encoded body carrier_id sealed.1))))))))))))))

    send_outbound_records-IsServed :
        (records : List (List ℕ)) → Keeps Served (send_outbound_records c w records)
    unfolding send_outbound_records perform
    send_outbound_records-IsServed [] s h = h
    send_outbound_records-IsServed (plaintext ∷ records) s h =
        Keeps-chain Served (on_crypto (seal_data c plaintext false)) _
          (on_crypto-IsServed _ _ _ (perform-IsSound c (sealing_data plaintext false)))
          (λ encoded.
            Keeps-chain Served _ _ (on_link-IsServed _ _ _)
              (λ u. send_outbound_records-IsServed records))
          s h

    pub send_outbound-IsServed :
        (packets : List (List ℕ × List ℕ)) → Keeps Served (send_outbound c w packets)
    unfolding send_outbound send_outbound_packets
    send_outbound-IsServed packets =
        Keeps-chain Served (shape_traffic w (sum_len packets)) _
          (λ s h. (shape_traffic-Shaped address quota w (sum_len packets) s h).0)
          (λ u. Keeps-lift Served _ _ send_outbound_records-IsServed)

    pub check_update-Runs : Keeps Runs (check_update c w)
    unfolding check_update perform
    check_update-Runs =
        Keeps-chain Runs _ _
          (on_serving-Runs _ (
            Keeps-chain Served _ _ (read_clock-IsServed _ _ w) (λ now.
              Keeps-chain Served _ _
                (on_crypto-IsServed _ _ _ (perform-IsSound c (update_request now))) sent)))
          (λ u r h. h)
      where
        sent : (update : Option (List ℕ)) → Keeps Served (send_update c w update)
        sent none s h = unfold send_update in h
        sent (some encoded) s h = unfold send_update in on_link-IsServed address quota _ s h

    pub migrate-Runs : (candidate : Link) (r : Running) → Runs r → Runs (migrate c w candidate r)
    unfolding migrate
    migrate-Runs candidate r h =
        let x = with_link (validate_migration_path c w) candidate r.serving in
        let kept =
          with_link-IsServed (validate_migration_path c w) candidate
            validate_migration_path-IsServed r.serving h in
        elim (Result-cases x.1.1) [
          | inl (u, e) ↦
              rw (e, migrate)
                (unrelated-IsServed address quota x.0 x.1.0 (count_migrated x.0).metrics x.0.ticks
                  x.0.draws kept)
          | inr (f, e) ↦
              rw (e, migrate)
                (unrelated-IsServed address quota x.0 x.0.link (count_not_migrated x.0).metrics
                  x.0.ticks x.0.draws kept)
        ]
