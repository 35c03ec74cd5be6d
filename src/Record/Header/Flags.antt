-- ===== src/Record/Header/Flags.antt =====
-- The first byte of a header: reading the flags back, and writing them back.
use reka_serdoba.Common.{
  ℕ, zero, suc, ◌<◌, ◌≡◌, refl, Bool, true, false, ◌||◌, ◌&&◌, ◌==◌, ==_iff, arith,
}
use reka_serdoba.Record.Header.{
  RecordKind, data_record, control_record, version_flags, bad_flags, flag, kind_of,
}

pub bad_flags-version_flags :
    (k : RecordKind) (p q : Bool) → bad_flags (version_flags k p q) ≡ false
unfolding bad_flags version_flags
bad_flags-version_flags data_record true true = refl
bad_flags-version_flags data_record true false = refl
bad_flags-version_flags data_record false true = refl
bad_flags-version_flags data_record false false = refl
bad_flags-version_flags control_record true true = refl
bad_flags-version_flags control_record true false = refl
bad_flags-version_flags control_record false true = refl
bad_flags-version_flags control_record false false = refl

-- The three fields can be read from the byte.
pub flags_read :
    (k : RecordKind) (p q : Bool)
    → (kind_of (version_flags k p q) ≡ k)
      × (flag (version_flags k p q) 0x04 ≡ p)
      × (flag (version_flags k p q) 0x02 ≡ q)
unfolding kind_of flag version_flags
flags_read data_record true true = (refl, refl, refl)
flags_read data_record true false = (refl, refl, refl)
flags_read data_record false true = (refl, refl, refl)
flags_read data_record false false = (refl, refl, refl)
flags_read control_record true true = (refl, refl, refl)
flags_read control_record true false = (refl, refl, refl)
flags_read control_record false true = (refl, refl, refl)
flags_read control_record false false = (refl, refl, refl)

abbrev pub rewritten : ℕ → ℕ
rewritten v = version_flags (kind_of v) (flag v 0x04) (flag v 0x02)

-- Each byte is refused or written back as it was.
written_back : ℕ → Bool
written_back zero = true
written_back (suc v) = (bad_flags v || rewritten v == v) && written_back v

written_back_sound :
    (n v : ℕ) → written_back n ≡ true → v < n → bad_flags v ≡ false → rewritten v ≡ v
unfolding written_back
written_back_sound zero v h lt e = absurd (omega arith)
written_back_sound (suc n) v h lt e = ground (arith, written_back_sound n v, ==_iff (rewritten n) n)

pub version_flags_back : (v : ℕ) → v < 256 → bad_flags v ≡ false → rewritten v ≡ v
unfolding written_back bad_flags kind_of flag version_flags
version_flags_back v lt e = written_back_sound 256 v refl lt e

pub version_flags-IsByte : (k : RecordKind) (p q : Bool) → version_flags k p q < 256
unfolding version_flags
version_flags-IsByte data_record true true = omega arith
version_flags-IsByte data_record true false = omega arith
version_flags-IsByte data_record false true = omega arith
version_flags-IsByte data_record false false = omega arith
version_flags-IsByte control_record true true = omega arith
version_flags-IsByte control_record true false = omega arith
version_flags-IsByte control_record false true = omega arith
version_flags-IsByte control_record false false = omega arith
