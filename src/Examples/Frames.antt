-- ===== src/Examples/Frames.antt =====
-- Frames and keys at concrete inputs.
use reka_serdoba.Common.{
  ℕ, ◌≡◌, ◌≢◌, ◌↔◌, refl, true, List, [], ◌∷◌, ◌++◌, replicate, All, ok, err, arith,
}
use reka_serdoba.Common.Words.{to_be, from_be}
use reka_serdoba.Errors.{unsupported_critical_frame, out_of_fuel}
use reka_serdoba.Examples.Toy.{cut, toy}
use reka_serdoba.Record.Header.{data_record}
use reka_serdoba.Record.Keys.{
  TrafficKey, EpochKeys, full_label, hkdf_info, codes, expand, fixed, derive_traffic_key,
  derive_epoch_keys,
}
use reka_serdoba.Record.Keys.Separation.{hkdf_info_injective}
use reka_serdoba.Common.{slice}
use reka_serdoba.Record.Frames
use reka_serdoba.Record.Frames.{Frame, parse_frames, take_frame, parse_loop}
use reka_serdoba.Record.Frames.Taking.{Acceptable, wires, known_frames}
use reka_serdoba.Record.Frames.RoundTrip.{
  parse_frames_iff, parse_frames-encode, parse_frames-ne-out_of_fuel,
}

abbrev session : List ℕ
session = replicate 16 7

-- The two frames of the source's test: type 0x01 is known, type 0x40 may be ignored.
abbrev known_frame : Frame
known_frame = record { frame_type = 0x01; flags = 0; body = 1 ∷ 2 ∷ 3 ∷ [] }

abbrev optional_frame : Frame
optional_frame = record { frame_type = 0x40; flags = 0; body = 4 ∷ [] }

abbrev two_frames : List ℕ
two_frames = 0x01 ∷ 0 ∷ 0 ∷ 3 ∷ 1 ∷ 2 ∷ 3 ∷ 0x40 ∷ 0 ∷ 0 ∷ 1 ∷ 4 ∷ []

parse_two : parse_frames two_frames data_record ≡ ok (known_frame ∷ [])
unfolding parse_frames parse_loop take_frame slice from_be
parse_two = refl

parse_critical : parse_frames (0x80 ∷ 0 ∷ 0 ∷ 0 ∷ []) data_record ≡ err unsupported_critical_frame
unfolding parse_frames parse_loop take_frame slice from_be
parse_critical = refl

parse_frames_iff_example : (parse_frames two_frames data_record ≡ ok (known_frame ∷ [])) ↔ (
    (all : List Frame) × All (Acceptable data_record) all
    × (two_frames ≡ wires all)
    × (known_frame ∷ [] ≡ known_frames data_record all))
parse_frames_iff_example = parse_frames_iff two_frames data_record (known_frame ∷ []) (omega arith)

encode_known : Frames.encode known_frame ≡ ok (0x01 ∷ 0 ∷ 0 ∷ 3 ∷ 1 ∷ 2 ∷ 3 ∷ [])
unfolding Frames.encode Frames.wire to_be
encode_known = refl

is_known : Frames.known data_record 0x01 ≡ true
unfolding Frames.known
is_known = refl

parse_frames-encode_example :
    parse_frames (0x01 ∷ 0 ∷ 0 ∷ 3 ∷ 1 ∷ 2 ∷ 3 ∷ []) data_record ≡ ok (known_frame ∷ [])
parse_frames-encode_example =
    parse_frames-encode known_frame data_record (0x01 ∷ 0 ∷ 0 ∷ 3 ∷ 1 ∷ 2 ∷ 3 ∷ []) is_known
      encode_known

parse_frames-ne-out_of_fuel_example : parse_frames two_frames data_record ≢ err out_of_fuel
parse_frames-ne-out_of_fuel_example = parse_frames-ne-out_of_fuel two_frames data_record

hkdf_info_injective_example : (codes "a" ≡ codes "a") × (codes "" ≡ []) × (◌≡◌ {A = ℕ} 32 32)
hkdf_info_injective_example =
    hkdf_info_injective (codes "a") (codes "a") [] [] 32 32 (omega arith) (omega arith)
      (omega arith) (omega arith) (omega arith) (omega arith) refl

abbrev key_of : List ℕ → TrafficKey
key_of purpose =
    let context : List ℕ = session ++ (0 ∷ 0 ∷ 0 ∷ 0 ∷ []) in
    record {
      key = cut 32 (hkdf_info (full_label (purpose ++ codes " key")) context 32);
      iv = cut 12 (hkdf_info (full_label (purpose ++ codes " iv")) context 12);
    }

abbrev zero_keys : EpochKeys
zero_keys = record {
  c2s_data = key_of (codes "data c2s");
  s2c_data = key_of (codes "data s2c");
  c2s_control = key_of (codes "control c2s");
  s2c_control = key_of (codes "control s2c");
}

derive_zero : derive_epoch_keys toy (replicate 32 0) session 0 ≡ ok zero_keys
unfolding derive_epoch_keys derive_traffic_key expand fixed full_label hkdf_info to_be
derive_zero = refl
