-- ===== src/Record/Frames.antt =====
-- `Frame::encode` and `parse_frames` (rekaserdoba/src/record.rs).
pub mod Taking
pub mod RoundTrip
use reka_serdoba.Common.{
  ℕ, zero, suc, Bool, true, false, not, ◌&&◌, List, [], ◌∷◌, ◌++◌, length, get_or, take, drop,
  slice, ltb, leb, if◌then◌else◌, Result, ok, err, ◌>>=◌, ◌>>◌, bail_if,
}
use reka_serdoba.Common.Words.{to_be, from_be}
use reka_serdoba.Errors.{
  Error, frame_body_too_large, truncated_frame_header, truncated_frame_body,
  unsupported_critical_frame, out_of_fuel,
}
use reka_serdoba.Record.Header.{RecordKind, data_record, control_record}

pub record Frame : Type 0 where
  pub frame_type : ℕ
  pub flags : ℕ
  pub body : List ℕ

-- The bytes of a frame; the length is cast to 16 bits.
unfoldable pub wire : Frame → List ℕ
wire f = f.frame_type ∷ f.flags ∷ (to_be 2 (length f.body) ++ f.body)

-- `Frame::encode`
unfoldable pub encode : Frame → Result Error (List ℕ)
encode f = do bail_if (ltb 65535 (length f.body)) frame_body_too_large; ok (wire f)

unfoldable pub known : RecordKind → ℕ → Bool
known data_record frame_type = leb frame_type 0x06
known control_record frame_type = leb 0x01 frame_type && leb frame_type 0x13

-- One round of the loop of `parse_frames` on `plaintext[offset..]`: the frame, and what follows it.
-- The sum of `offset` and a 16-bit length does not overflow.
unfoldable pub take_frame : RecordKind → List ℕ → Result Error (Frame × List ℕ)
unfolding known
take_frame kind rest = do
  bail_if (ltb (length rest) 4) truncated_frame_header
  let frame_type = get_or rest 0 0
  let frame_len = from_be (slice 2 4 rest)
  bail_if (ltb (length (drop 4 rest)) frame_len) truncated_frame_body
  bail_if (not (known kind frame_type) && leb 0x80 frame_type) unsupported_critical_frame
  ok (
    record {
      frame_type = frame_type;
      flags = get_or rest 1 0;
      body = take frame_len (drop 4 rest);
    },
    drop frame_len (drop 4 rest),
  )

-- The loop over `plaintext[offset..]`; a known frame is pushed on `frames`.
unfoldable pub parse_loop : ℕ → RecordKind → List ℕ → List Frame → Result Error (List Frame)
parse_loop fuel kind [] frames = ok frames
parse_loop zero kind (b ∷ bs) frames = err out_of_fuel
parse_loop (suc fuel) kind (b ∷ bs) frames = do
  (f, rest) ← take_frame kind (b ∷ bs)
  parse_loop fuel kind rest (if known kind f.frame_type then frames ++ (f ∷ []) else frames)

-- `parse_frames`. A round takes four bytes at least, so the length is fuel enough.
unfoldable pub parse_frames : List ℕ → RecordKind → Result Error (List Frame)
parse_frames plaintext kind = parse_loop (length plaintext) kind plaintext []
