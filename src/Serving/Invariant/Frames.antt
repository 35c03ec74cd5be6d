-- ===== src/Serving/Invariant/Frames.antt =====
-- Data frames keep the invariant, whatever comes from the client.
use reka_serdoba.Common.{
  ℕ, ◌≡◌, ◌==◌, inl, inr, true, false, Option, none, some, List, [], ◌∷◌, length, Bool-cases,
  Result-cases, ok,
}
use reka_serdoba.Common.Steps.{Keeps, through-lift, through_result, Keeps-chain, Keeps-lift}
use reka_serdoba.Crypto.{Crypto}
use reka_serdoba.Record.Frames.{Frame}
use reka_serdoba.Packets.{validate_ipv4_packet, validate_data_frame}
use reka_serdoba.Rekey.Reachable.{perform, perform-IsSound, sealing_data, sealing_control}
use reka_serdoba.Handshake.Auth.{Client}
use reka_serdoba.Handshake.Exchange.{ServerKeys}
use reka_serdoba.Serving.{Serving, World, read_clock, shape_traffic}
use reka_serdoba.Serving.Records.{
  forward, deliver, send_response, process_data_frame, process_data_frames, answer_ping,
}
use reka_serdoba.Serving.Invariant.{
  IsServed, on_crypto-IsServed, on_link-IsServed, push_fragment-IsServed, read_clock-IsServed,
}
use reka_serdoba.Serving.Invariant.Shaping.{shape_traffic-Shaped, send_to_kernel-IsServed}

module _ (c : Crypto) (w : World) (server : ServerKeys) (client : Client) (quota : Option ℕ) where
  abbrev Served : Serving → Type 0
  Served = IsServed client.tunnel_ipv4 quota

  forward-IsServed :
      (packet : List ℕ)
      → validate_ipv4_packet packet client.tunnel_ipv4 ≡ ok tt
      → Keeps Served (forward c w server client packet)
  unfolding forward
  forward-IsServed packet valid s h =
      let shaped = shape_traffic-Shaped client.tunnel_ipv4 quota w (length packet) s h in
      through_result Served (shape_traffic w (length packet) s) _ shaped.0
        (λ u e. send_to_kernel-IsServed client.tunnel_ipv4 quota w packet _ valid (shaped.1 u e))

  deliver-IsServed : (packet : Option (List ℕ)) → Keeps Served (deliver c w server client packet)
  unfolding deliver
  deliver-IsServed none s h = h
  deliver-IsServed (some packet) s h =
      through-lift Served s (validate_ipv4_packet packet client.tunnel_ipv4) _ h
        (λ u e. forward-IsServed packet e s h)

  send_response-IsServed : (f : Option Frame) → Keeps Served (send_response c w server client f)
  unfolding send_response perform
  send_response-IsServed none s h = h
  send_response-IsServed (some f) s h =
      Keeps-lift Served _ _
        (λ plaintext.
          Keeps-chain Served _ _
            (on_crypto-IsServed _ _ _ (perform-IsSound c (sealing_data plaintext false)))
            (λ encoded. on_link-IsServed _ _ _))
        s h

  valid_body :
      (f : Frame) (response : Option Frame)
      → validate_data_frame f client.tunnel_ipv4 ≡ ok response
      → (f.frame_type == 0x01) ≡ true
      → validate_ipv4_packet f.body client.tunnel_ipv4 ≡ ok tt
  unfolding validate_data_frame
  valid_body f response e kind = elim (Bool-cases (f.flags == 0)) [
    | inr g ↦ absurd (cc (rw (validate_data_frame, g) at e))
    | inl g ↦ elim (Result-cases (validate_ipv4_packet f.body client.tunnel_ipv4)) [
      | inl (u, v) ↦ v
      | inr (x, v) ↦ absurd (cc (rw (validate_data_frame, g, kind, v) at e))
    ]
  ]

  process_data_frame-IsServed : (f : Frame) → Keeps Served (process_data_frame c w server client f)
  unfolding process_data_frame
  process_data_frame-IsServed f s h = elim (Bool-cases (f.frame_type == 0x03)) [
    | inl e ↦
        rw (e, process_data_frame)
          (Keeps-chain Served (read_clock w) _ (read_clock-IsServed _ _ w)
            (λ now. Keeps-chain Served _ _ (push_fragment-IsServed _ _ f.body now) deliver-IsServed)
            s h)
    | inr e ↦
        rw (e, process_data_frame)
          (through-lift Served s (validate_data_frame f client.tunnel_ipv4) _ h (λ response valid.
            Keeps-chain Served (send_response c w server client response) _
              (send_response-IsServed response)
              (λ u t k. elim (Bool-cases (f.frame_type == 0x01)) [
                | inl kind ↦
                    rw kind (forward-IsServed f.body (valid_body f response valid kind) t k)
                | inr kind ↦ rw kind k
              ])
              s h))
  ]

  pub process_data_frames-IsServed :
      (frames : List Frame) → Keeps Served (process_data_frames c w server client frames)
  unfolding process_data_frames
  process_data_frames-IsServed [] s h = h
  process_data_frames-IsServed (f ∷ frames) s h =
      Keeps-chain Served (process_data_frame c w server client f) _ (process_data_frame-IsServed f)
        (λ u. process_data_frames-IsServed frames) s h

  pub answer_ping-IsServed : (f : Frame) → Keeps Served (answer_ping c w server client f)
  unfolding answer_ping perform
  answer_ping-IsServed f = Keeps-lift Served _ _ (λ response.
      Keeps-chain Served _ _
        (on_crypto-IsServed _ _ _ (perform-IsSound c (sealing_control response false)))
        (λ encoded. on_link-IsServed _ _ _))
