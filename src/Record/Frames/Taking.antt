-- ===== src/Record/Frames/Taking.antt =====
-- One frame taken off the start of a plaintext, and put back.
use reka_serdoba.Common.{
  ℕ, ◌+◌, ◌≤◌, ◌<◌, ◌≡◌, ◌∙◌, refl, sym, ap, subst, true, ◌||◌, List, [], ◌∷◌, ◌++◌, append_assoc,
  length, length-append, length-take, length-drop, get_or, take, drop, take-append, drop-append,
  take-append-drop, slice, slice-append_left, slice-append_right, All-drop, ltb, if◌then◌else◌, ok,
  arith,
}
use reka_serdoba.Common.Words.{
  IsByte, AreBytes, to_be, from_be, length-to_be, from_be-to_be, from_be_bound, to_be-from_be,
}
use reka_serdoba.Record.Header.{RecordKind}
use reka_serdoba.Record.Frames.{Frame, wire, known, take_frame}

-- A frame that `encode` takes, and that a receiver knows or may ignore.
pub record Acceptable (kind : RecordKind) (f : Frame) : Type 0 where
  pub body_len : length f.body ≤ 65535
  pub ignorable : (known kind f.frame_type || ltb f.frame_type 0x80) ≡ true

abbrev pub wires : List Frame → List ℕ
wires [] = []
wires (f ∷ fs) = wire f ++ wires fs

abbrev pub known_frames : RecordKind → List Frame → List Frame
known_frames kind [] = []
known_frames kind (f ∷ fs) =
    if known kind f.frame_type then f ∷ known_frames kind fs else known_frames kind fs

-- A frame at the start of the rest is taken off.
module _ (kind : RecordKind) (a b : ℕ) (l body rest : List ℕ) (ll : length l ≡ 2)
    (lb : from_be l ≡ length body) where
  range_len : slice 2 4 (a ∷ b ∷ (l ++ (body ++ rest))) ≡ l
  range_len =
      slice-append_right 2 2 4 (a ∷ b ∷ []) _ refl (omega arith) ∙ slice-append_left 2 l _ ll

  after_header : drop 4 (a ∷ b ∷ (l ++ (body ++ rest))) ≡ body ++ rest
  after_header = drop-append 2 l (body ++ rest) ll

  take_frame_fields :
      (known kind a || ltb a 0x80) ≡ true
      → take_frame kind (a ∷ b ∷ (l ++ (body ++ rest)))
        ≡ ok (record { frame_type = a; flags = b; body = body }, rest)
  unfolding take_frame
  take_frame_fields ignorable = ground (
    arith,
    range_len,
    after_header,
    lb,
    length-append {0} l (body ++ rest),
    length-append {0} body rest,
    take-append (length body) body rest refl,
    drop-append (length body) body rest refl,
  )

pub take_frame-wire :
    (kind : RecordKind) (f : Frame) (rest : List ℕ)
    → Acceptable kind f
    → take_frame kind (wire f ++ rest) ≡ ok (f, rest)
take_frame-wire kind f rest ok_f =
    ap (take_frame kind) reassociated
    ∙ take_frame_fields kind f.frame_type f.flags (to_be 2 (length f.body)) f.body rest
        (length-to_be 2 _) (from_be-to_be 2 (length f.body) (omega (arith, ok_f.body_len)))
        ok_f.ignorable
  where
    reassociated :
        wire f ++ rest ≡ f.frame_type ∷ f.flags ∷ (to_be 2 (length f.body) ++ (f.body ++ rest))
    reassociated = unfold wire in simp append_assoc

-- What one round has taken off.
pub record Taken (kind : RecordKind) (e : List ℕ) (f : Frame) (rest : List ℕ) : Type 0 where
  pub long : 4 ≤ length e
  pub frame_type : f.frame_type ≡ get_or e 0 0
  pub flags : f.flags ≡ get_or e 1 0
  pub fits : from_be (slice 2 4 e) ≤ length (drop 4 e)
  pub body : f.body ≡ take (from_be (slice 2 4 e)) (drop 4 e)
  pub after : rest ≡ drop (from_be (slice 2 4 e)) (drop 4 e)
  pub ignorable : (known kind f.frame_type || ltb f.frame_type 0x80) ≡ true

pub take_frame-Taken :
    (kind : RecordKind) (e : List ℕ) (f : Frame) (rest : List ℕ)
    → take_frame kind e ≡ ok (f, rest)
    → Taken kind e f rest
unfolding take_frame
take_frame-Taken kind e f rest p = ground arith

pub Taken-Acceptable :
    (kind : RecordKind) (e : List ℕ) (f : Frame) (rest : List ℕ)
    → AreBytes e
    → Taken kind e f rest
    → Acceptable kind f × (e ≡ wire f ++ rest) × AreBytes rest × (length rest + 4 ≤ length e)
unfolding slice
Taken-Acceptable kind [] f rest bytes t = absurd (omega (arith, t.long))
Taken-Acceptable kind (a ∷ []) f rest bytes t = absurd (omega (arith, t.long))
Taken-Acceptable kind (a ∷ b ∷ []) f rest bytes t = absurd (omega (arith, t.long))
Taken-Acceptable kind (a ∷ b ∷ c ∷ []) f rest bytes t = absurd (omega (arith, t.long))
Taken-Acceptable kind (a ∷ b ∷ c ∷ d ∷ tail) f rest (ba, (bb, (bc, (bd, bt)))) t = (
  record { body_len = omega (arith, len_body, len_bound); ignorable = t.ignorable },
  sym rebuilt,
  subst AreBytes (sym t.after) (All-drop IsByte len tail bt),
  omega (arith, ap length t.after, length-drop {0} len tail),
)
  where
    len : ℕ
    len = from_be (c ∷ d ∷ [])

    len_bound : len < 65536
    len_bound = from_be_bound 2 (c ∷ d ∷ []) (bc, (bd, tt)) refl

    len_body : length f.body ≡ len
    len_body = omega (arith, ap length t.body, length-take {0} len tail, t.fits)

    rebuilt : wire f ++ rest ≡ a ∷ b ∷ c ∷ d ∷ tail
    rebuilt =
        unfold wire in
        rw (t.frame_type, t.flags, len_body, to_be-from_be 2 (c ∷ d ∷ []) (bc, (bd, tt)) refl)
          (ap (λ (x : List ℕ). a ∷ b ∷ c ∷ d ∷ x)
            (ap (λ (x : List ℕ). x ++ rest) t.body
              ∙ ap (λ (x : List ℕ). take len tail ++ x) t.after
              ∙ take-append-drop len tail))
