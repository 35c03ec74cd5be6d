-- ===== src/Rekey/Soundness.antt =====
-- The invariant of `RekeySession`.
use reka_serdoba.Common.{
  ℕ, ◌+◌, ◌≤◌, ◌≡◌, ◌∙◌, refl, sym, ap, true, not, ◌||◌, Option, none, some, List, Result, ok, err,
  Result-cases, inl, inr,
}
use reka_serdoba.Errors.{Error}
use reka_serdoba.Record.Receiver
use reka_serdoba.Record.Sender
use reka_serdoba.Record.Replay
use reka_serdoba.Record.Layer
use reka_serdoba.Record.Layer.{SessionRecordLayer}
use reka_serdoba.Record.Keys.{EpochKeys}
use reka_serdoba.Rekey.Session.{
  RekeySession, EpochState, PendingEpoch, PreviousEpoch, is_some, old_epoch_records,
}
use reka_serdoba.Rekey.Keeping.{directions, Kept}

abbrev pub all_four : ℕ → ℕ × ℕ × ℕ × ℕ
all_four epoch = (epoch, epoch, epoch, epoch)

-- A state whose record layer is of its epoch.
abbrev pub IsOfEpoch : EpochState → Type 0
IsOfEpoch state = directions state.records ≡ all_four state.epoch

abbrev pub PendingIsSound : ℕ → Option PendingEpoch → Type 0
PendingIsSound epoch none = Unit
PendingIsSound epoch (some p) = (p.state.epoch ≡ epoch + 1) × IsOfEpoch p.state

abbrev pub PreviousIsSound : ℕ → Option PreviousEpoch → Type 0
PreviousIsSound epoch none = Unit
PreviousIsSound epoch (some p) =
    (p.state.epoch + 1 ≡ epoch) × IsOfEpoch p.state × (p.remaining_records ≤ old_epoch_records)

-- The pending epoch is the next one and the previous epoch the last one, each with a record layer
-- of its own epoch; an update is on its way exactly when it has a deadline, and it is when an epoch
-- is pending.
pub record IsSound (s : RekeySession) : Type 0 where
  pub current : IsOfEpoch s.current
  pub pending : PendingIsSound s.current.epoch s.pending
  pub previous : PreviousIsSound s.current.epoch s.previous
  pub deadline : s.update_requested ≡ is_some s.update_deadline
  pub requested : (not (is_some s.pending) || s.update_requested) ≡ true

pub Kept-IsSound : (s : RekeySession) → IsSound s → (t : RekeySession) → Kept s t → IsSound t
Kept-IsSound s h t k = record {
  current = k.layer ∙ h.current ∙ ap all_four (sym k.epoch);
  pending = rw (k.epoch, k.pending) h.pending;
  previous = rw (k.epoch, k.previous) h.previous;
  deadline = rw (k.update_requested, k.update_deadline) h.deadline;
  requested = rw (k.pending, k.update_requested) h.requested;
}

-- The directions of a layer that is there.
abbrev directions_of : ℕ → Result Error SessionRecordLayer → ℕ × ℕ × ℕ × ℕ
directions_of epoch (ok l) = directions l
directions_of epoch (err e) = all_four epoch

pub new-directions :
    (session_id : List ℕ) (epoch : ℕ) (keys : EpochKeys) (window : ℕ) (l : SessionRecordLayer)
    → Layer.new session_id epoch keys window ≡ ok l
    → directions l ≡ all_four epoch
new-directions session_id epoch keys window l made = ap (directions_of epoch) (sym made) ∙ layer
  where
    layer : directions_of epoch (Layer.new session_id epoch keys window) ≡ all_four epoch
    layer =
        unfold Layer.new Receiver.new Sender.new in
        elim (Result-cases (Replay.new window)) [ inl (r, p) ↦ rw p refl | inr (e, p) ↦ rw p refl ]
