-- ===== src/Record/Replay/Window.antt =====
-- The bitmap implements the history: each operation answers as the history does.
use reka_serdoba.Common.{
  ℕ, ◌+◌, ◌-◌, ◌*◌, ◌/◌, ◌%◌, ◌≤◌, ◌<◌, max, ◌≡◌, ◌≢◌, ◌∙◌, refl, sym, subst, Bool, true, false,
  not, List, [], ◌∷◌, length, length-replicate, get_or, if◌then◌else◌, Bool-cases, inl, inr, ok,
  arith,
}
use reka_serdoba.Common.Bits.{mask_test}
use reka_serdoba.Record.Replay.{ReplayWindow, new, plausible, advance, mark, commit_authenticated}
use reka_serdoba.Record.Replay.Slots.{bit_of, set_bit, bit_of-set_bit, bit_of-zeros, length-set_bit}
use reka_serdoba.Record.Replay.History.{contains, maximum, is_empty, fresh, contains-le-maximum}
use native.Mathlib.Decide.{dec_lt}
use reka_serdoba.Record.Replay.Clearing.{
  in_range, slots_differ, clear_slots_len, clear_slots_self, clear_slots_other,
}

-- `w` stands for `history`.
pub record Represents (w : ReplayWindow) (history : List ℕ) : Type 0 where
  pub width_len : 64 * length w.bits ≡ w.width
  pub width_pos : 0 < w.width
  pub started : w.initialized ≡ not (is_empty history)
  pub top : w.highest ≡ maximum history
  pub blank : w.initialized ≡ false → (o : ℕ) → bit_of w.bits o ≡ 0
  pub seen :
      w.initialized ≡ true
      → (n : ℕ) → n ≤ w.highest
      → w.highest < n + w.width
      → bit_of w.bits (n % w.width) ≡ (if contains n history then 1 else 0)

abbrev bit : Bool → ℕ
bit true = 1
bit false = 0

pub new-Represents : (width : ℕ) (w : ReplayWindow) → new width ≡ ok w → Represents w []
unfolding new
new-Represents width w e = record {
  width_len = ground (arith, length-replicate {A = ℕ} (width / 64) 0);
  width_pos = ground arith;
  started = ground arith;
  top = ground arith;
  blank = λ _ o. blank_at o;
  seen = λ i. absurd (ground arith);
}
  where
    blank_at : (o : ℕ) → bit_of w.bits o ≡ 0
    blank_at o = ground (arith, bit_of-zeros (width / 64) o)

pub plausible-fresh :
    (w : ReplayWindow) (history : List ℕ) (n : ℕ)
    → Represents w history
    → plausible w n ≡ fresh w.width history n
unfolding plausible
plausible-fresh w history n r = elim (Bool-cases w.initialized) [
  | inl i ↦ ground (
    arith,
    r.started,
    r.top,
    r.seen i n,
    mask_test (n % w.width % 64) (get_or w.bits (n % w.width / 64) 0),
    contains-le-maximum n history,
  )
  | inr i ↦ ground (arith, r.started)
]

-- `w` is ready for the bit of `n`, once `history` has been accepted.
record Ready (w : ReplayWindow) (n : ℕ) (history : List ℕ) : Type 0 where
  width_len : 64 * length w.bits ≡ w.width
  width_pos : 0 < w.width
  started : w.initialized ≡ true
  top : w.highest ≡ max n (maximum history)
  within : w.highest < n + w.width
  clear : bit_of w.bits (n % w.width) ≡ 0
  seen :
      (m : ℕ)
      → m ≤ w.highest
      → w.highest < m + w.width
      → m ≢ n
      → bit_of w.bits (m % w.width) ≡ (if contains m history then 1 else 0)

mark-Ready :
    (w : ReplayWindow) (n : ℕ) (history : List ℕ)
    → Ready w n history
    → mark w n ≡ (record w { bits = set_bit w.bits (n % w.width) }, true)
unfolding mark set_bit
mark-Ready w n history r =
    ground (arith, r.clear, mask_test (n % w.width % 64) (get_or w.bits (n % w.width / 64) 0))

marked-Represents :
    (w : ReplayWindow) (n : ℕ) (history : List ℕ)
    → Ready w n history
    → Represents (record w { bits = set_bit w.bits (n % w.width) }) (n ∷ history)
marked-Represents w n history r = record {
  width_len = omega (arith, length-set_bit w.bits (n % w.width), r.width_len);
  width_pos = r.width_pos;
  started = r.started;
  top = r.top;
  blank = λ i. absurd (cc (r.started));
  seen = λ _ m le near. seen_at m le near;
}
  where
    seen_at :
        (m : ℕ)
        → m ≤ w.highest
        → w.highest < m + w.width
        → bit_of (set_bit w.bits (n % w.width)) (m % w.width)
          ≡ (if contains m (n ∷ history) then 1 else 0)
    seen_at m le near = ground (
      arith,
      bit_of-set_bit w.bits (n % w.width) (m % w.width)
          (in_range w r.width_pos w.bits n r.width_len),
      slots_differ m n w.width,
      slots_differ n m w.width,
      r.seen m le near,
      r.within,
      r.top,
    )

module _ (w : ReplayWindow) (history : List ℕ) (n : ℕ) (r : Represents w history)
    (is_fresh : fresh w.width history n ≡ true) where
  -- The first number of all.
  first-Ready :
      w.initialized ≡ false → Ready (record w { initialized = true; highest = n }) n history
  first-Ready i = record {
    width_len = r.width_len;
    width_pos = r.width_pos;
    started = refl;
    top = ground (arith, r.started);
    within = omega (arith, r.width_pos);
    clear = r.blank i (n % w.width);
    seen = λ m le near ne. r.blank i (m % w.width) ∙ ground (arith, r.started);
  }

  -- A number inside the window.
  inside-Ready : w.initialized ≡ true → n ≤ w.highest → Ready w n history
  inside-Ready i le = record {
    width_len = r.width_len;
    width_pos = r.width_pos;
    started = i;
    top = ground (arith, r.top);
    within = near;
    clear = ground (arith, r.started, r.top, r.seen i n le near);
    seen = λ m le' near' ne. r.seen i m le' near';
  }
    where
      near : w.highest < n + w.width
      near = ground (arith, r.started, r.top)

  -- A number above all that were accepted.
  above-Ready : w.initialized ≡ true → w.highest < n → Ready (advance w n) n history
  unfolding advance
  above-Ready i lt = record {
    width_len = ground (
      arith,
      r.width_len,
      length-replicate {A = ℕ} (length w.bits) 0,
      clear_slots_len w r.width_pos (n - w.highest) (w.highest + 1) w.bits,
    );
    width_pos = r.width_pos;
    started = i;
    top = ground (arith, r.top);
    within = omega (arith, r.width_pos);
    clear = ground (
      arith,
      bit_of-zeros (length w.bits) (n % w.width),
      clear_slots_self w r.width_pos (n - w.highest) (w.highest + 1) w.bits n r.width_len,
    );
    seen = λ m le near ne. seen_at m le near ne;
  }
    where
      seen_at :
          (m : ℕ)
          → m ≤ n
          → n < m + w.width
          → m ≢ n
          → bit_of (advance w n).bits (m % w.width) ≡ (if contains m history then 1 else 0)
      seen_at m le near ne = ground (
        arith,
        bit_of-zeros (length w.bits) (m % w.width),
        clear_slots_self w r.width_pos (n - w.highest) (w.highest + 1) w.bits m r.width_len,
        clear_slots_other w r.width_pos (n - w.highest) (w.highest + 1) w.bits m r.width_len,
        r.seen i m,
        r.top,
        contains-le-maximum m history,
      )

-- The outcome of a commit, in terms of the history.
pub record Committed (w : ReplayWindow) (history : List ℕ) (n : ℕ) (o : ReplayWindow × Bool)
    : Type 0 where
  pub answer : o.1 ≡ fresh w.width history n
  pub width : o.0.width ≡ w.width
  pub state : Represents o.0 (if o.1 then n ∷ history else history)
  pub refused : o.1 ≡ false → o.0 ≡ w

advance_width : (w : ReplayWindow) (n : ℕ) → (advance w n).width ≡ w.width
unfolding advance
advance_width w n = refl

accept :
    (w u : ReplayWindow) (history : List ℕ) (n : ℕ)
    → fresh w.width history n ≡ true
    → u.width ≡ w.width
    → commit_authenticated w n ≡ mark u n
    → Ready u n history
    → Committed w history n (commit_authenticated w n)
accept w u history n is_fresh same e r =
    subst (Committed w history n) (sym (e ∙ mark-Ready u n history r)) (record {
      answer = sym is_fresh;
      width = same;
      state = marked-Represents u n history r;
      refused = λ f. absurd (cc f);
    })

-- On every number `commit_authenticated` answers whether the number is fresh. It then stands for
-- the history with that number, and if the number is not fresh the window is not changed.
pub commit_authenticated-Committed :
    (w : ReplayWindow) (history : List ℕ) (n : ℕ)
    → Represents w history
    → Committed w history n (commit_authenticated w n)
commit_authenticated-Committed w history n r = elim (Bool-cases (fresh w.width history n)) [
  | inr stale ↦
      subst (Committed w history n) (sym (unchanged stale))
        (record { answer = sym stale; width = refl; state = r; refused = λ _. refl })
  | inl is_fresh ↦ elim (Bool-cases w.initialized) [
    | inr i ↦
        accept w (record w { initialized = true; highest = n }) history n is_fresh refl
          (unfold commit_authenticated in ground (arith, plausible-fresh w history n r))
          (first-Ready w history n r is_fresh i)
    | inl i ↦ elim (dec_lt w.highest n) [
      | yes above ↦
          accept w (advance w n) history n is_fresh (advance_width w n)
            (unfold commit_authenticated in ground (arith, plausible-fresh w history n r))
            (above-Ready w history n r is_fresh i above)
      | no inside ↦
          accept w w history n is_fresh refl
            (unfold commit_authenticated in ground (arith, plausible-fresh w history n r))
            (inside-Ready w history n r is_fresh i (omega arith))
    ]
  ]
]
  where
    unchanged : fresh w.width history n ≡ false → commit_authenticated w n ≡ (w, false)
    unchanged stale = unfold commit_authenticated in ground (arith, plausible-fresh w history n r)
