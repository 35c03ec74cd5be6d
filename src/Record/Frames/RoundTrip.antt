-- ===== src/Record/Frames/RoundTrip.antt =====
-- `parse_frames` accepts exactly the concatenations of frames, and gives the known ones.
use reka_serdoba.Common.{
  ℕ, zero, suc, ◌+◌, ◌≤◌, ◌≡◌, ◌≢◌, ◌↔◌, ◌∙◌, refl, sym, ap, true, List, [], ◌∷◌, ◌++◌,
  append_assoc, append-nil, length, length-append, length-drop, drop, slice, All, if◌then◌else◌,
  Bool-cases, Result-cases, inl, inr, ok, err, arith,
}
use reka_serdoba.Common.Words.{AreBytes, to_be, from_be, length-to_be}
use reka_serdoba.Errors.{out_of_fuel}
use reka_serdoba.Record.Header.{RecordKind}
use reka_serdoba.Record.Frames.{Frame, wire, encode, known, take_frame, parse_loop, parse_frames}
use reka_serdoba.Record.Frames.Taking.{
  Acceptable, wires, known_frames, take_frame-wire, Taken, take_frame-Taken, Taken-Acceptable,
}

known_step :
    (kind : RecordKind) (f : Frame) (fs frames : List Frame)
    → (if known kind f.frame_type then frames ++ (f ∷ []) else frames) ++ known_frames kind fs
      ≡ frames ++ known_frames kind (f ∷ fs)
known_step kind f fs frames = elim (Bool-cases (known kind f.frame_type)) [
  | inl k ↦ rw k (append_assoc frames (f ∷ []) (known_frames kind fs))
  | inr k ↦ rw k refl
]

pub wire_len : (f : Frame) → length (wire f) ≡ length f.body + 4
unfolding wire
wire_len f =
    omega
      (arith, length-append {0} (to_be 2 (length f.body)) f.body, length-to_be 2 (length f.body))

parse_step :
    (kind : RecordKind) (e : List ℕ) (f : Frame) (rest : List ℕ) (fuel : ℕ) (frames : List Frame)
    → take_frame kind e ≡ ok (f, rest)
    → parse_loop (suc fuel) kind e frames
      ≡ parse_loop fuel kind rest (if known kind f.frame_type then frames ++ (f ∷ []) else frames)
parse_step kind [] f rest fuel frames p = unfold take_frame in cc p
parse_step kind (b ∷ bs) f rest fuel frames p = unfold parse_loop in rw p

parse_loop-wires :
    (kind : RecordKind) (fs : List Frame) (fuel : ℕ) (frames : List Frame)
    → All (Acceptable kind) fs
    → length (wires fs) ≤ fuel
    → parse_loop fuel kind (wires fs) frames ≡ ok (frames ++ known_frames kind fs)
parse_loop-wires kind [] fuel frames a enough = unfold parse_loop in ap ok (sym (append-nil frames))
parse_loop-wires kind (f ∷ fs) zero frames a enough =
    absurd (omega (arith, length-append {0} (wire f) (wires fs), wire_len f))
parse_loop-wires kind (f ∷ fs) (suc fuel) frames (af, afs) enough =
    parse_step kind (wire f ++ wires fs) f (wires fs) fuel frames
      (take_frame-wire kind f (wires fs) af)
    ∙ parse_loop-wires kind fs fuel (if known kind f.frame_type then frames ++ (f ∷ []) else frames)
        afs (omega (arith, length-append {0} (wire f) (wires fs), wire_len f))
    ∙ ap ok (known_step kind f fs frames)

-- The frames that make up `e`, and what the loop gives for them.
record Frames (kind : RecordKind) (e : List ℕ) (before frames : List Frame) : Type 0 where
  all : List Frame
  acceptable : All (Acceptable kind) all
  bytes : e ≡ wires all
  result : frames ≡ before ++ known_frames kind all

parse_loop-Frames :
    (kind : RecordKind) (fuel : ℕ) (e : List ℕ) (before frames : List Frame)
    → AreBytes e
    → parse_loop fuel kind e before ≡ ok frames
    → Frames kind e before frames
parse_loop-Frames kind fuel [] before frames bytes p = record {
  all = [];
  acceptable = tt;
  bytes = refl;
  result = same ∙ sym (append-nil before);
}
  where
    same : frames ≡ before
    same = unfold parse_loop in cc p
parse_loop-Frames kind zero (b ∷ bs) before frames bytes p = unfold parse_loop in cc p
parse_loop-Frames kind (suc fuel) (b ∷ bs) before frames bytes p =
    elim (Result-cases (take_frame kind (b ∷ bs))) [
      | inr (x, e) ↦ unfold parse_loop in cc (p, e)
      | inl ((f, rest), e) ↦
          let t =
            Taken-Acceptable kind (b ∷ bs) f rest bytes (take_frame-Taken kind (b ∷ bs) f rest e) in
          let more : Frames kind rest
              (if known kind f.frame_type then before ++ (f ∷ []) else before) frames =
            parse_loop-Frames kind fuel rest
              (if known kind f.frame_type then before ++ (f ∷ []) else before) frames t.2
              (sym (parse_step kind (b ∷ bs) f rest fuel before e) ∙ p) in
          record {
            all = f ∷ more.all;
            acceptable = (t.0, more.acceptable);
            bytes = t.1 ∙ ap (λ (x : List ℕ). wire f ++ x) more.bytes;
            result = more.result ∙ known_step kind f more.all before;
          }
    ]

pub parse_frames-wires :
    (kind : RecordKind) (fs : List Frame)
    → All (Acceptable kind) fs
    → parse_frames (wires fs) kind ≡ ok (known_frames kind fs)
unfolding parse_frames
parse_frames-wires kind fs acceptable =
    parse_loop-wires kind fs (length (wires fs)) [] acceptable (omega arith)

-- A byte string parses to `frames` exactly when it is the concatenation of frames that fit the
-- length field, none of them critical and unknown, and `frames` are the known ones in order.
pub parse_frames_iff :
    (e : List ℕ) (kind : RecordKind) (frames : List Frame)
    → AreBytes e
    → (parse_frames e kind ≡ ok frames) ↔ (
        (all : List Frame) × All (Acceptable kind) all
        × (e ≡ wires all)
        × (frames ≡ known_frames kind all))
unfolding parse_frames
parse_frames_iff e kind frames bytes = (
  λ p.
      let fs : Frames kind e [] frames = parse_loop-Frames kind (length e) e [] frames bytes p in
      (fs.all, fs.acceptable, fs.bytes, fs.result),
  λ (all, acceptable, made, result).
      ap (λ (x : List ℕ). parse_loop (length x) kind x []) made
      ∙ parse_frames-wires kind all acceptable
      ∙ ap ok (sym result),
)

-- What `encode` writes, a receiver parses back, if it knows the type.
pub parse_frames-encode :
    (f : Frame) (kind : RecordKind) (e : List ℕ)
    → known kind f.frame_type ≡ true
    → encode f ≡ ok e
    → parse_frames e kind ≡ ok (f ∷ [])
parse_frames-encode f kind e k p =
    unfold parse_frames in
    ap (λ (x : List ℕ). parse_loop (length x) kind x []) (written ∙ sym (append-nil (wire f)))
    ∙ parse_loop-wires kind (f ∷ []) (length (wires (f ∷ []))) [] (acceptable, tt) (omega arith)
    ∙ rw k refl
  where
    written : e ≡ wire f
    written = unfold encode in ground arith

    acceptable : Acceptable kind f
    acceptable = unfold encode in record { body_len = ground arith; ignorable = rw k refl }

take_frame-ne-out_of_fuel : (kind : RecordKind) (e : List ℕ) → take_frame kind e ≢ err out_of_fuel
unfolding take_frame
take_frame-ne-out_of_fuel kind e p = ground arith

take_frame-shorter :
    (kind : RecordKind) (e : List ℕ) (f : Frame) (rest : List ℕ)
    → take_frame kind e ≡ ok (f, rest)
    → length rest + 4 ≤ length e
take_frame-shorter kind e f rest p =
    let t : Taken kind e f rest = take_frame-Taken kind e f rest p in
    omega (
      arith,
      t.long,
      ap length t.after,
      length-drop {0} 4 e,
      length-drop {0} (from_be (slice 2 4 e)) (drop 4 e),
    )

parse_loop-ne-out_of_fuel :
    (kind : RecordKind) (fuel : ℕ) (e : List ℕ) (frames : List Frame)
    → length e ≤ fuel
    → parse_loop fuel kind e frames ≢ err out_of_fuel
parse_loop-ne-out_of_fuel kind fuel [] frames enough p = unfold parse_loop in cc p
parse_loop-ne-out_of_fuel kind zero (b ∷ bs) frames enough p = absurd (omega arith)
parse_loop-ne-out_of_fuel kind (suc fuel) (b ∷ bs) frames enough p =
    elim (Result-cases (take_frame kind (b ∷ bs))) [
      | inr (x, e) ↦ take_frame-ne-out_of_fuel kind (b ∷ bs) (unfold parse_loop in cc (p, e))
      | inl ((f, rest), e) ↦
          parse_loop-ne-out_of_fuel kind fuel rest
            (if known kind f.frame_type then frames ++ (f ∷ []) else frames)
            (omega (arith, take_frame-shorter kind (b ∷ bs) f rest e))
            (sym (parse_step kind (b ∷ bs) f rest fuel frames e) ∙ p)
    ]

-- The loop of `parse_frames` ends on every input.
pub parse_frames-ne-out_of_fuel :
    (e : List ℕ) (kind : RecordKind) → parse_frames e kind ≢ err out_of_fuel
unfolding parse_frames
parse_frames-ne-out_of_fuel e kind = parse_loop-ne-out_of_fuel kind (length e) e [] (omega arith)
