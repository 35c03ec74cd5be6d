-- ===== src/Serving/Records.antt =====
-- `process_record` (rekaserdoba/src/main.rs): what a record from the client does.
use reka_serdoba.Common.{
  ℕ, Bool, true, false, not, ◌&&◌, ◌||◌, Option, none, some, List, [], ◌∷◌, length, leb, ◌==◌,
  if◌then◌else◌, bail_if,
}
use reka_serdoba.Common.Steps.{◌>>=◌, ◌>>◌, lift, pure, modify}
use reka_serdoba.Errors.{
  critical_control_record_must_contain_one_frame, invalid_key_update_init_epoch_or_flags,
  invalid_key_update_commit_epoch_or_flags, invalid_full_rekey_init_epoch_or_flags,
  invalid_full_rekey_confirmation_epoch_or_flags,
}
use reka_serdoba.Crypto.{Crypto}
use reka_serdoba.Record.Header.{data_record, control_record}
use reka_serdoba.Record.Frames
use reka_serdoba.Record.Frames.{Frame, parse_frames}
use reka_serdoba.Packets.{validate_ipv4_packet, validate_data_frame}
use reka_serdoba.Rekey.Session.{
  EpochPosition, at_current, at_pending, at_previous, OpenedRecord, seal_data, seal_control,
}
use reka_serdoba.Rekey.Opening.{open_session, is_control}
use reka_serdoba.Rekey.Update.{accept_update_init, accept_update_commit, accept_full_rekey_confirm}
use reka_serdoba.Rekey.FullRekey.{accept_full_rekey_init}
use reka_serdoba.Carrier.Events.{send_binary}
use reka_serdoba.Handshake.Auth.{Client}
use reka_serdoba.Handshake.Exchange.{ServerKeys}
use reka_serdoba.Serving.{
  Serving, ServingStep, World, raised, on_crypto, on_link, push_fragment, count_failed, read_clock,
  draw, shape_traffic, send_to_kernel,
}

abbrev pub is_current : EpochPosition → Bool
is_current at_current = true
is_current at_pending = false
is_current at_previous = false

abbrev pub is_pending : EpochPosition → Bool
is_pending at_current = false
is_pending at_pending = true
is_pending at_previous = false

-- `frames.iter().any(...)`: a frame of the types 0x04 to 0x11.
unfoldable pub any_critical : List Frame → Bool
any_critical [] = false
any_critical (f ∷ frames) = (leb 0x04 f.frame_type && leb f.frame_type 0x11) || any_critical frames

abbrev pub count_routine : Serving → Serving
count_routine s = record s {
  metrics = record s.metrics { routine_rekeys_total = raised s.metrics.routine_rekeys_total 1 };
}

abbrev pub count_full : Serving → Serving
count_full s = record s {
  metrics = record s.metrics { full_rekeys_total = raised s.metrics.full_rekeys_total 1 };
}

module _ (c : Crypto) (w : World) (server : ServerKeys) (client : Client) where
  -- A packet that is valid goes to the kernel, once its bytes are granted.
  unfoldable pub forward : List ℕ → ServingStep (Unit {0})
  forward packet = do shape_traffic w (length packet); send_to_kernel w packet

  unfoldable pub deliver : Option (List ℕ) → ServingStep (Unit {0})
  deliver none = pure tt
  deliver (some packet) = do lift (validate_ipv4_packet packet client.tunnel_ipv4); forward packet

  unfoldable pub send_response : Option Frame → ServingStep (Unit {0})
  send_response none = pure tt
  send_response (some response) = do
    plaintext ← lift (Frames.encode response)
    encoded ← on_crypto (seal_data c plaintext false)
    on_link (send_binary encoded)

  -- One turn of the loop over data frames.
  unfoldable pub process_data_frame : Frame → ServingStep (Unit {0})
  process_data_frame frame =
      if frame.frame_type == 0x03
      then (do now ← read_clock w; packet ← push_fragment frame.body now; deliver packet)
      else (do
        response ← lift (validate_data_frame frame client.tunnel_ipv4)
        send_response response
        if frame.frame_type == 0x01 then forward frame.body else pure tt)

  unfoldable pub process_data_frames : List Frame → ServingStep Bool
  process_data_frames [] = pure true
  process_data_frames (frame ∷ frames) = do process_data_frame frame; process_data_frames frames

  -- The arms of the match on a control frame that the close frame leaves.
  unfoldable pub answer_ping : Frame → ServingStep (Unit {0})
  answer_ping frame = do
    response ← lift (Frames.encode (record { frame_type = 0x03; flags = 0; body = frame.body }))
    encoded ← on_crypto (seal_control c response false)
    on_link (send_binary encoded)

  unfoldable pub update_init : OpenedRecord → List ℕ → Frame → ServingStep (Unit {0})
  update_init opened encoded frame = do
    lift (
        bail_if (not (is_current opened.position) || not (frame.flags == 0))
          invalid_key_update_init_epoch_or_flags)
    now ← read_clock w
    answer ← count_failed (on_crypto (accept_update_init c encoded frame.body now))
    on_link (send_binary answer)

  unfoldable pub update_commit : OpenedRecord → List ℕ → Frame → ServingStep (Unit {0})
  update_commit opened encoded frame = do
    lift (
        bail_if (not (is_pending opened.position) || not (frame.flags == 0))
          invalid_key_update_commit_epoch_or_flags)
    now ← read_clock w
    answer ← count_failed (on_crypto (accept_update_commit c encoded frame.body now))
    modify count_routine
    on_link (send_binary answer)

  unfoldable pub full_init : OpenedRecord → List ℕ → Frame → ServingStep (Unit {0})
  full_init opened encoded frame = do
    lift (
        bail_if (not (is_current opened.position) || not (frame.flags == 0))
          invalid_full_rekey_init_epoch_or_flags)
    now ← read_clock w
    server_secret ← draw w
    answer ← count_failed (
        on_crypto (
          accept_full_rekey_init c encoded frame.body client.public_key server.server_signing
            server_secret now))
    on_link (send_binary answer)

  unfoldable pub full_confirm : OpenedRecord → List ℕ → Frame → ServingStep (Unit {0})
  full_confirm opened encoded frame = do
    lift (
        bail_if (not (is_pending opened.position) || not (frame.flags == 0))
          invalid_full_rekey_confirmation_epoch_or_flags)
    now ← read_clock w
    answer ← count_failed (on_crypto (accept_full_rekey_confirm c encoded frame.body now))
    modify count_full
    on_link (send_binary answer)

  unfoldable pub process_control_frame : OpenedRecord → List ℕ → Frame → ServingStep (Unit {0})
  process_control_frame opened encoded frame =
      if frame.frame_type == 0x02
      then answer_ping frame
      else if frame.frame_type == 0x05
      then update_init opened encoded frame
      else if frame.frame_type == 0x07
      then update_commit opened encoded frame
      else if frame.frame_type == 0x09
      then full_init opened encoded frame
      else if frame.frame_type == 0x0B
      then full_confirm opened encoded frame
      else pure tt

  -- The loop over control frames, which a close frame ends.
  unfoldable pub process_control_frames : OpenedRecord → List ℕ → List Frame → ServingStep Bool
  process_control_frames opened encoded [] = pure true
  process_control_frames opened encoded (frame ∷ frames) =
      if frame.frame_type == 0x12 then pure false else (do
        process_control_frame opened encoded frame
        process_control_frames opened encoded frames)

  unfoldable pub process_opened : OpenedRecord → List ℕ → ServingStep Bool
  process_opened opened encoded =
      if is_control opened.header.kind
      then (do
        frames ← lift (parse_frames opened.plaintext control_record)
        lift (
            bail_if (not (length frames == 1) && any_critical frames)
              critical_control_record_must_contain_one_frame)
        process_control_frames opened encoded frames)
      else (do
        frames ← lift (parse_frames opened.plaintext data_record)
        process_data_frames frames)

  -- `process_record`: whether the session goes on.
  unfoldable pub process_record : List ℕ → ServingStep Bool
  process_record encoded = do
    now ← read_clock w
    opened ← on_crypto (open_session c encoded now)
    process_opened opened encoded
