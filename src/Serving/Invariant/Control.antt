-- ===== src/Serving/Invariant/Control.antt =====
-- Control frames, and `process_record`, keep the invariant, whatever comes from the client.
use reka_serdoba.Common.{ℕ, ◌==◌, inl, inr, Option, List, [], ◌∷◌, Bool-cases}
use reka_serdoba.Common.Steps.{Keeps, Keeps-chain, Keeps-lift, modify}
use reka_serdoba.Crypto.{Crypto}
use reka_serdoba.Record.Frames.{Frame, parse_frames}
use reka_serdoba.Record.Header.{data_record, control_record}
use reka_serdoba.Rekey.Session.{OpenedRecord}
use reka_serdoba.Rekey.Opening.{is_control}
use reka_serdoba.Rekey.Reachable.{
  perform, perform-IsSound, opening, update_init, update_commit, full_confirm, full_init,
}
use reka_serdoba.Handshake.Auth.{Client}
use reka_serdoba.Handshake.Exchange.{ServerKeys}
use reka_serdoba.Serving.{Serving, World, Metrics}
use reka_serdoba.Serving.Records
use reka_serdoba.Serving.Records.{
  forward, deliver, send_response, process_data_frame, process_data_frames, answer_ping,
  process_control_frame, process_control_frames, process_opened, process_record, count_routine,
  count_full,
}
use reka_serdoba.Serving.Invariant.{
  IsServed, on_crypto-IsServed, on_link-IsServed, count_failed-IsServed, unrelated-IsServed,
  read_clock-IsServed, draw-IsServed,
}
use reka_serdoba.Serving.Invariant.Frames.{process_data_frames-IsServed, answer_ping-IsServed}

module _ (c : Crypto) (w : World) (server : ServerKeys) (client : Client) (quota : Option ℕ) where
  abbrev Served : Serving → Type 0
  Served = IsServed client.tunnel_ipv4 quota

  metrics_kept :
      (metrics : Serving → Metrics) (s : Serving)
      → Served s
      → Served (record s { metrics = metrics s })
  metrics_kept metrics s h =
      unrelated-IsServed client.tunnel_ipv4 quota s s.link (metrics s) s.ticks s.draws h

  update_init-IsServed :
      (opened : OpenedRecord) (encoded : List ℕ) (f : Frame)
      → Keeps Served (Records.update_init c w server client opened encoded f)
  unfolding Records.update_init perform
  update_init-IsServed opened encoded f = Keeps-lift Served _ _ (λ u.
      Keeps-chain Served _ _ (read_clock-IsServed _ _ w) (λ now.
        Keeps-chain Served _ _
          (count_failed-IsServed _ _ _
            (on_crypto-IsServed _ _ _ (perform-IsSound c (update_init encoded f.body now))))
          (λ answer. on_link-IsServed _ _ _)))

  update_commit-IsServed :
      (opened : OpenedRecord) (encoded : List ℕ) (f : Frame)
      → Keeps Served (Records.update_commit c w server client opened encoded f)
  unfolding Records.update_commit perform
  update_commit-IsServed opened encoded f = Keeps-lift Served _ _ (λ u.
      Keeps-chain Served _ _ (read_clock-IsServed _ _ w) (λ now.
        Keeps-chain Served _ _
          (count_failed-IsServed _ _ _
            (on_crypto-IsServed _ _ _ (perform-IsSound c (update_commit encoded f.body now))))
          (λ answer.
            Keeps-chain Served (modify count_routine) _ (metrics_kept _)
              (λ u'. on_link-IsServed _ _ _))))

  full_init-IsServed :
      (opened : OpenedRecord) (encoded : List ℕ) (f : Frame)
      → Keeps Served (Records.full_init c w server client opened encoded f)
  unfolding Records.full_init perform
  full_init-IsServed opened encoded f = Keeps-lift Served _ _ (λ u.
      Keeps-chain Served _ _ (read_clock-IsServed _ _ w) (λ now.
        Keeps-chain Served _ _ (draw-IsServed _ _ w) (λ server_secret.
          Keeps-chain Served _ _
            (count_failed-IsServed _ _ _ (
              on_crypto-IsServed _ _ _ (
                perform-IsSound c (
                  full_init encoded f.body client.public_key server.server_signing server_secret
                    now))))
            (λ answer. on_link-IsServed _ _ _))))

  full_confirm-IsServed :
      (opened : OpenedRecord) (encoded : List ℕ) (f : Frame)
      → Keeps Served (Records.full_confirm c w server client opened encoded f)
  unfolding Records.full_confirm perform
  full_confirm-IsServed opened encoded f = Keeps-lift Served _ _ (λ u.
      Keeps-chain Served _ _ (read_clock-IsServed _ _ w) (λ now.
        Keeps-chain Served _ _
          (count_failed-IsServed _ _ _
            (on_crypto-IsServed _ _ _ (perform-IsSound c (full_confirm encoded f.body now))))
          (λ answer.
            Keeps-chain Served (modify count_full) _ (metrics_kept _)
              (λ u'. on_link-IsServed _ _ _))))

  process_control_frame-IsServed :
      (opened : OpenedRecord) (encoded : List ℕ) (f : Frame)
      → Keeps Served (process_control_frame c w server client opened encoded f)
  unfolding process_control_frame
  process_control_frame-IsServed opened encoded f s h = elim (Bool-cases (f.frame_type == 0x02)) [
    | inl e ↦ rw (e, process_control_frame) (answer_ping-IsServed c w server client quota f s h)
    | inr e ↦ elim (Bool-cases (f.frame_type == 0x05)) [
      | inl e5 ↦ rw (e, process_control_frame, e5) (update_init-IsServed opened encoded f s h)
      | inr e5 ↦ elim (Bool-cases (f.frame_type == 0x07)) [
        | inl e7 ↦
            rw (e, process_control_frame, e5, e7) (update_commit-IsServed opened encoded f s h)
        | inr e7 ↦ elim (Bool-cases (f.frame_type == 0x09)) [
          | inl e9 ↦
              rw (e, process_control_frame, e5, e7, e9) (full_init-IsServed opened encoded f s h)
          | inr e9 ↦ elim (Bool-cases (f.frame_type == 0x0B)) [
            | inl e11 ↦
                rw (e, process_control_frame, e5, e7, e9, e11)
                  (full_confirm-IsServed opened encoded f s h)
            | inr e11 ↦ rw (e, process_control_frame, e5, e7, e9, e11) h
          ]
        ]
      ]
    ]
  ]

  process_control_frames-IsServed :
      (opened : OpenedRecord) (encoded : List ℕ) (frames : List Frame)
      → Keeps Served (process_control_frames c w server client opened encoded frames)
  unfolding process_control_frames
  process_control_frames-IsServed opened encoded [] s h = h
  process_control_frames-IsServed opened encoded (f ∷ frames) s h =
      elim (Bool-cases (f.frame_type == 0x12)) [
        | inl e ↦ rw (e, process_control_frames) h
        | inr e ↦
            rw (e, process_control_frames)
              (Keeps-chain Served (process_control_frame c w server client opened encoded f) _
                (process_control_frame-IsServed opened encoded f)
                (λ u. process_control_frames-IsServed opened encoded frames) s h)
      ]

  process_opened-IsServed :
      (opened : OpenedRecord) (encoded : List ℕ)
      → Keeps Served (process_opened c w server client opened encoded)
  unfolding process_opened
  process_opened-IsServed opened encoded s h = elim (Bool-cases (is_control opened.header.kind)) [
    | inl e ↦
        rw (e, process_opened)
          (Keeps-lift Served (parse_frames opened.plaintext control_record) _
            (λ frames.
              Keeps-lift Served _ _ (λ u. process_control_frames-IsServed opened encoded frames))
            s h)
    | inr e ↦
        rw (e, process_opened)
          (Keeps-lift Served (parse_frames opened.plaintext data_record) _
            (process_data_frames-IsServed c w server client quota) s h)
  ]

  -- Whatever record comes from the client, and whatever the outcome, `process_record` keeps the
  -- keys and the reassembler sound, and it lets only valid packets from the client's address through
  -- to the kernel, all of whose bytes were granted, within the quota.
  pub process_record-IsServed :
      (encoded : List ℕ) → Keeps Served (process_record c w server client encoded)
  unfolding process_record perform
  process_record-IsServed encoded = Keeps-chain Served _ _ (read_clock-IsServed _ _ w) (λ now.
      Keeps-chain Served _ _ (on_crypto-IsServed _ _ _ (perform-IsSound c (opening encoded now)))
        (λ opened. process_opened-IsServed opened encoded))
