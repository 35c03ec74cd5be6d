-- ===== src/Record/Replay.antt =====
-- `ReplayWindow` (rekaserdoba/src/record.rs): a bitmap over the last `width` record numbers.
pub mod Slots
pub mod Clearing
pub mod Window
pub mod History
pub mod Runs
use reka_serdoba.Common.{
  ℕ, zero, suc, ◌+◌, ◌-◌, ◌/◌, ◌%◌, ◌^◌, min, bit_and, bit_or, Bool, true, false, not, ◌&&◌, ◌||◌,
  List, length, get_or, set, replicate, ltb, leb, ◌==◌, if◌then◌else◌, Result, ok, err, ◌>>=◌, ◌>>◌,
  bail_if,
}
use reka_serdoba.Errors.{Error, invalid_replay_window_width}

-- `u64::MAX`
abbrev pub u64_max : ℕ
u64_max = 2 ^ 64 - 1

pub record ReplayWindow : Type 0 where
  pub width : ℕ
  pub initialized : Bool
  pub highest : ℕ
  pub bits : List ℕ

-- `ReplayWindow::new`
unfoldable pub new : ℕ → Result Error ReplayWindow
new width = do
  bail_if (not (leb 256 width && leb width 16384) || not (width % 64 == 0))
      invalid_replay_window_width
  ok (record { width = width; initialized = false; highest = 0; bits = replicate (width / 64) 0 })

-- `ReplayWindow::slot`: the index of the word and the mask of the bit.
unfoldable pub slot : ReplayWindow → ℕ → ℕ × ℕ
slot w number = let offset : ℕ = number % w.width in (offset / 64, 2 ^ (offset % 64))

-- `u64::saturating_add`
abbrev pub saturating_add : ℕ → ℕ → ℕ
saturating_add a b = min (a + b) u64_max

-- `ReplayWindow::plausible`
unfoldable pub plausible : ReplayWindow → ℕ → Bool
unfolding slot
plausible w number =
    if not w.initialized
    then true
    else if leb (saturating_add number w.width) w.highest
    then false
    else if ltb w.highest number
    then true
    else (let (word, mask) = slot w number in bit_and (get_or w.bits word 0) mask == 0)

-- `self.bits[word] &= !mask` at the slot of `cleared`.
unfoldable pub clear_slot : ReplayWindow → List ℕ → ℕ → List ℕ
unfolding slot
clear_slot w bits cleared =
    let (word, mask) = slot w cleared in
    set bits word (bit_and (get_or bits word 0) (u64_max - mask))

-- The loop over `first..=number` with `count` numbers to go.
unfoldable pub clear_slots : ReplayWindow → ℕ → ℕ → List ℕ → List ℕ
clear_slots w zero first bits = bits
clear_slots w (suc count) first bits = clear_slots w count (first + 1) (clear_slot w bits first)

-- The window after `highest` has moved up to `number`.
unfoldable pub advance : ReplayWindow → ℕ → ReplayWindow
advance w number =
    let distance : ℕ = number - w.highest in
    record w {
      highest = number;
      bits =
          if leb w.width distance
          then replicate (length w.bits) 0
          else clear_slots w distance (w.highest + 1) w.bits;
    }

-- `ReplayWindow::commit_authenticated`, the part that sets the bit.
unfoldable pub mark : ReplayWindow → ℕ → ReplayWindow × Bool
unfolding slot
mark w number =
    let (word, mask) = slot w number in
    let old : ℕ = get_or w.bits word 0 in
    if not (bit_and old mask == 0)
    then (w, false)
    else (record w { bits = set w.bits word (bit_or old mask) }, true)

-- `ReplayWindow::commit_authenticated`
unfoldable pub commit_authenticated : ReplayWindow → ℕ → ReplayWindow × Bool
commit_authenticated w number =
    if not (plausible w number)
    then (w, false)
    else mark
        (if not w.initialized
          then record w { initialized = true; highest = number }
          else if ltb w.highest number
          then advance w number
          else w)
        number
