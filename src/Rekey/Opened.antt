-- ===== src/Rekey/Opened.antt =====
-- `RekeySession::open` keeps the invariant.
use reka_serdoba.Common.{
  ℕ, ◌+◌, ◌≡◌, ◌∙◌, refl, sym, ap, subst, Bool, true, false, not, ◌||◌, leb, ◌==◌, Option, none,
  some, List, Result, ok, err, Result-cases, inl, inr, if◌then◌else◌, Bool-cases, arith,
}
use reka_serdoba.Common.Steps.{Keeps, through, through-lift, through_ok, pure}
use reka_serdoba.Errors.{Error}
use reka_serdoba.Crypto.{Crypto}
use reka_serdoba.Record.Header.{RecordKind, data_record, control_record, RecordHeader, parse}
use reka_serdoba.Common.{take, drop}
use reka_serdoba.Record.Header.{record_header_len}
use reka_serdoba.Record.Keys.{open_with}
use reka_serdoba.Record.Receiver.{RecordReceiver, open_record, open_parsed, finish}
use reka_serdoba.Rekey.Session.{
  RekeySession, EpochState, PendingEpoch, PreviousEpoch, is_some, is_some_and, count_data,
}
use reka_serdoba.Rekey.Opening.{
  expire_previous, open_from, open_in_current, open_current, open_in_pending, open_pending,
  open_in_previous, open_previous, open_at, open_session, is_control, use_grace,
}
use reka_serdoba.Rekey.Keeping.{directions, Kept}
use reka_serdoba.Rekey.Soundness.{
  IsSound, IsOfEpoch, PendingIsSound, PreviousIsSound, all_four, Kept-IsSound,
}
use reka_serdoba.Rekey.Invariant.{expire_previous-IsSound}

pub count_data-Kept : (s : RekeySession) (n : ℕ) → Keeps (Kept s) (count_data n)
unfolding count_data
count_data-Kept s n t k = through_ok (Kept s) t t _ (
    through-lift (Kept s) t _ _ k (λ data_records _. through_ok (Kept s) _ tt _ (
      through-lift (Kept s) _ _ _
        (record {
          epoch = k.epoch;
          layer = k.layer;
          pending = k.pending;
          previous = k.previous;
          update_requested = k.update_requested;
          update_deadline = k.update_deadline;
        })
        (λ bytes _. record {
          epoch = k.epoch;
          layer = k.layer;
          pending = k.pending;
          previous = k.previous;
          update_requested = k.update_requested;
          update_deadline = k.update_deadline;
        }))))

finish-epoch :
    (r : RecordReceiver) (number : ℕ) (result : Result Error (List ℕ))
    → (finish r number result).0.epoch ≡ r.epoch
unfolding finish
finish-epoch r number (ok plaintext) = refl
finish-epoch r number (err e) = refl

open_record-epoch :
    (c : Crypto) (r : RecordReceiver) (encoded : List ℕ)
    → (open_record c r encoded).0.epoch ≡ r.epoch
unfolding open_record open_parsed
open_record-epoch c r encoded = elim (Result-cases (parse encoded)) [
  | inr (e, p) ↦ rw (p, open_record) refl
  | inl (h, p) ↦
      rw (p, open_record)
        (ground (
          arith,
          finish-epoch r h.number (
              open_with c r.key h.number (take record_header_len encoded)
                (drop record_header_len encoded)),
        ))
]

-- A receiver's epoch is not changed by what arrives.
open_from-directions :
    (c : Crypto) (state : EpochState) (kind : RecordKind) (encoded : List ℕ)
    → ((open_from c state kind encoded).0.epoch ≡ state.epoch)
      × (directions (open_from c state kind encoded).0.records ≡ directions state.records)
unfolding open_from
open_from-directions c state data_record encoded = (
  refl,
  ap
      (λ (e : ℕ). (
        e, state.records.s2c_data.epoch, state.records.c2s_control.epoch,
        state.records.s2c_control.epoch,
      ))
      (open_record-epoch c state.records.c2s_data encoded),
)
open_from-directions c state control_record encoded = (
  refl,
  ap
      (λ (e : ℕ). (
        state.records.c2s_data.epoch, state.records.s2c_data.epoch, e,
        state.records.s2c_control.epoch,
      ))
      (open_record-epoch c state.records.c2s_control encoded),
)

pub count_if-Kept :
    (s : RekeySession) (b : Bool) (n : ℕ) → Keeps (Kept s) (if b then pure tt else count_data n)
count_if-Kept s true n t k = k
count_if-Kept s false n t k = count_data-Kept s n t k

module _ (c : Crypto) (encoded : List ℕ) (now : ℕ) (h : RecordHeader) (s : RekeySession) where
  opened-IsOfEpoch :
      (state : EpochState) → IsOfEpoch state → IsOfEpoch (open_from c state h.kind encoded).0
  opened-IsOfEpoch state layer =
      let k = open_from-directions c state h.kind encoded in k.1 ∙ layer ∙ ap all_four (sym k.0)

  open_current-IsSound : IsSound s → IsSound (open_current c encoded now h s).0
  unfolding open_current open_in_current
  open_current-IsSound sound =
      let k = open_from-directions c s.current h.kind encoded in
      let kept = Kept-IsSound s sound in
      through (Kept s) IsSound _ _
        (record {
          epoch = k.0;
          layer = k.1;
          pending = refl;
          previous = refl;
          update_requested = refl;
          update_deadline = refl;
        })
        kept
        (λ plaintext t k'.
          through (Kept s) IsSound _ _ (count_if-Kept s (is_control h.kind) _ t k') kept
            (λ _ u k''. kept u k''))

  open_in_pending-IsSound :
      (o : Option PendingEpoch)
      → s.pending ≡ o
      → IsSound s
      → IsSound (open_in_pending c encoded now h o s).0
  unfolding open_in_pending
  open_in_pending-IsSound none e sound = sound
  open_in_pending-IsSound (some pending) e sound =
      let there : PendingIsSound s.current.epoch (some pending) =
        subst (PendingIsSound s.current.epoch) e sound.pending in
      let k = open_from-directions c pending.state h.kind encoded in
      record {
        current = sound.current;
        pending = (k.0 ∙ there.0, opened-IsOfEpoch pending.state there.1);
        previous = sound.previous;
        deadline = sound.deadline;
        requested = ap (λ o'. not (is_some o') || s.update_requested) (sym e) ∙ sound.requested;
      }

  grace-IsSound :
      (previous : PreviousEpoch) (result : Result Error (List ℕ))
      → PreviousIsSound s.current.epoch (some previous)
      → PreviousIsSound s.current.epoch (some (use_grace c encoded now h previous result))
  grace-IsSound previous (ok plaintext) (p, q, r) = (p, q, omega arith)
  grace-IsSound previous (err e) sound = sound

  open_in_previous-IsSound :
      (o : Option PreviousEpoch)
      → s.previous ≡ o
      → IsSound s
      → IsSound (open_in_previous c encoded now h o s).0
  unfolding open_in_previous
  open_in_previous-IsSound none e sound = sound
  open_in_previous-IsSound (some previous) e sound =
      elim (Bool-cases (previous.remaining_records == 0 || leb previous.expires_at now)) [
        | inl over ↦ rw over sound
        | inr alive ↦ rw alive (record {
          current = sound.current;
          pending = sound.pending;
          previous =
              grace-IsSound
                (record previous { state = (open_from c previous.state h.kind encoded).0 })
                (open_from c previous.state h.kind encoded).1
                (
                  ap (λ (e : ℕ). e + 1) k.0 ∙ there.0,
                  opened-IsOfEpoch previous.state there.1,
                  there.2,
                );
          deadline = sound.deadline;
          requested = sound.requested;
        })
      ]
    where
      there : PreviousIsSound s.current.epoch (some previous)
      there = subst (PreviousIsSound s.current.epoch) e sound.previous

      k :
          ((open_from c previous.state h.kind encoded).0.epoch ≡ previous.state.epoch)
          × (directions (open_from c previous.state h.kind encoded).0.records
              ≡ directions previous.state.records)
      k = open_from-directions c previous.state h.kind encoded

  open_pending-IsSound : IsSound s → IsSound (open_pending c encoded now h s).0
  unfolding open_pending
  open_pending-IsSound sound = elim (Bool-cases (is_control h.kind)) [
    | inl g ↦ rw g (
        through IsSound IsSound _ _ (open_in_pending-IsSound s.pending refl sound) (λ t k. k)
          (λ _ t k. k))
    | inr g ↦ rw g sound
  ]

  open_previous-IsSound : IsSound s → IsSound (open_previous c encoded now h s).0
  unfolding open_previous
  open_previous-IsSound sound =
      through IsSound IsSound _ _ (open_in_previous-IsSound s.previous refl sound) (λ t k. k)
        (λ _ t k. k)

  open_at-IsSound : IsSound s → IsSound (open_at c encoded now h s).0
  unfolding open_at
  open_at-IsSound sound = elim (Bool-cases (h.epoch == s.current.epoch)) [
    | inl e ↦ rw e (open_current-IsSound sound)
    | inr e ↦ rw e (elim (Bool-cases (is_some_and s.pending (λ p. h.epoch == p.state.epoch))) [
      | inl f ↦ rw f (open_pending-IsSound sound)
      | inr f ↦ rw f (elim (Bool-cases (is_some_and s.previous (λ p. h.epoch == p.state.epoch))) [
        | inl g ↦ rw g (open_previous-IsSound sound)
        | inr g ↦ rw g sound
      ])
    ])
  ]

pub open_session-IsSound :
    (c : Crypto) (encoded : List ℕ) (now : ℕ) → Keeps IsSound (open_session c encoded now)
unfolding open_session
open_session-IsSound c encoded now s sound =
    let expired = expire_previous-IsSound now s sound in
    elim (Result-cases (parse encoded)) [
      | inr (e, p) ↦ rw (p, open_session) expired
      | inl (h, p) ↦
          rw (p, open_session) (open_at-IsSound c encoded now h (expire_previous now s) expired)
    ]
