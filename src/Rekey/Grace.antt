-- ===== src/Rekey/Grace.antt =====
-- How many records of the previous epoch a session still opens.
use reka_serdoba.Common.{
  ℕ, ◌+◌, ◌≤◌, ◌≡◌, refl, ap, false, ◌||◌, leb, ◌==◌, Option, none, some, List, length, Result, ok,
  err, Result-cases, Bool-cases, inl, inr, if◌then◌else◌, arith,
}
use reka_serdoba.Common.Steps.{continue, pure}
use reka_serdoba.Errors.{Error}
use reka_serdoba.Crypto.{Crypto}
use reka_serdoba.Record.Header.{RecordHeader, parse}
use reka_serdoba.Rekey.Session.{
  RekeySession, PendingEpoch, PreviousEpoch, OpenedRecord, EpochPosition, at_current, at_pending,
  at_previous, is_some_and, count_data,
}
use reka_serdoba.Rekey.Opening.{
  expire_previous, open_from, open_in_current, open_current, open_in_pending, open_pending,
  open_in_previous, open_previous, open_at, open_session, is_control, use_grace, opened,
}
use reka_serdoba.Rekey.Keeping.{Kept-refl}
use reka_serdoba.Rekey.Opened.{count_if-Kept}

-- The records that may still be opened under the previous epoch.
abbrev pub grace_of : Option PreviousEpoch → ℕ
grace_of none = 0
grace_of (some previous) = previous.remaining_records

abbrev pub grace : RekeySession → ℕ
grace s = grace_of s.previous

abbrev weight : EpochPosition → ℕ
weight at_current = 0
weight at_pending = 0
weight at_previous = 1

-- 1 for a record that was opened under the previous epoch.
abbrev pub used : Result Error OpenedRecord → ℕ
used (ok o) = weight o.position
used (err e) = 0

pub expire_previous-grace : (now : ℕ) (s : RekeySession) → grace (expire_previous now s) ≤ grace s
unfolding expire_previous
expire_previous-grace now s =
    elim (Bool-cases
      (is_some_and s.previous (λ p. p.remaining_records == 0 || leb p.expires_at now))) [
        | inl e ↦ rw e (omega arith)
        | inr e ↦ rw e (omega arith)
      ]

-- What a call that keeps the previous epoch and opens elsewhere uses.
opened_elsewhere :
    {A : Type 0} (f : A → List ℕ) (h : RecordHeader) (position : EpochPosition)
    (x : RekeySession × Result Error A) (g : ℕ)
    → weight position ≡ 0
    → grace x.0 ≤ g
    → grace (continue x (λ a. pure (opened h position (f a)))).0
        + used (continue x (λ a. pure (opened h position (f a)))).1
      ≤ g
unfolding continue
opened_elsewhere f h position (s, ok a) g e k = omega (arith, e, k)
opened_elsewhere f h position (s, err x) g e k = omega (arith, k)

abbrev ok_weight {ℓ} : {A : Type ℓ} → Result Error A → ℕ
ok_weight (ok a) = 1
ok_weight (err e) = 0

opened_before :
    (h : RecordHeader) (x : RekeySession × Result Error (List ℕ)) (g : ℕ)
    → grace x.0 + ok_weight x.1 ≤ g
    → grace (continue x (λ a. pure (opened h at_previous a))).0
        + used (continue x (λ a. pure (opened h at_previous a))).1
      ≤ g
unfolding continue
opened_before h (s, ok a) g k = omega (arith, k)
opened_before h (s, err x) g k = omega (arith, k)

module _ (c : Crypto) (encoded : List ℕ) (now : ℕ) (h : RecordHeader) (s : RekeySession) where
  counted :
      (x : RekeySession × Result Error (List ℕ))
      → grace x.0 ≤ grace s
      → grace
            (continue x (λ plaintext t.
              continue
                ((if is_control h.kind then pure tt else count_data (length plaintext)) t)
                (λ _. pure (opened h at_current plaintext)))).0
          + used
              (continue x (λ plaintext t.
                continue
                  ((if is_control h.kind then pure tt else count_data (length plaintext)) t)
                  (λ _. pure (opened h at_current plaintext)))).1
        ≤ grace s
  unfolding continue
  counted (t, err x) k = omega (arith, k)
  counted (t, ok plaintext) k =
      opened_elsewhere (λ _. plaintext) h at_current
        ((if is_control h.kind then pure tt else count_data (length plaintext)) t) (grace s) refl
        (omega (
          arith,
          k,
          ap grace_of
              (count_if-Kept t (is_control h.kind) (length plaintext) t (Kept-refl t)).previous,
        ))

  open_current-grace :
      grace (open_current c encoded now h s).0 + used (open_current c encoded now h s).1 ≤ grace s
  unfolding open_current open_in_current
  open_current-grace = counted (open_in_current c encoded now h s) (omega arith)

  open_in_pending-grace :
      (o : Option PendingEpoch) → grace (open_in_pending c encoded now h o s).0 ≤ grace s
  unfolding open_in_pending
  open_in_pending-grace none = omega arith
  open_in_pending-grace (some pending) = omega arith

  open_pending-grace :
      grace (open_pending c encoded now h s).0 + used (open_pending c encoded now h s).1 ≤ grace s
  unfolding open_pending
  open_pending-grace = elim (Bool-cases (is_control h.kind)) [
    | inl e ↦ rw e (
        opened_elsewhere (λ a. a) h at_pending (open_in_pending c encoded now h s.pending s)
          (grace s) refl (open_in_pending-grace s.pending))
    | inr e ↦ rw e (omega arith)
  ]

  use_grace-grace :
      (previous : PreviousEpoch) (result : Result Error (List ℕ))
      → (previous.remaining_records == 0) ≡ false
      → (use_grace c encoded now h previous result).remaining_records + ok_weight result
        ≤ previous.remaining_records
  use_grace-grace previous (ok plaintext) left = ground (arith, left)
  use_grace-grace previous (err e) left = omega arith

  open_in_previous-grace :
      (o : Option PreviousEpoch)
      → s.previous ≡ o
      → grace (open_in_previous c encoded now h o s).0
          + ok_weight (open_in_previous c encoded now h o s).1
        ≤ grace s
  unfolding open_in_previous
  open_in_previous-grace none e = omega arith
  open_in_previous-grace (some previous) e =
      elim (Bool-cases (previous.remaining_records == 0 || leb previous.expires_at now)) [
        | inl over ↦ rw over (omega arith)
        | inr alive ↦ rw alive (
            omega (
              arith,
              ap grace_of e,
              use_grace-grace
                  (record previous { state = (open_from c previous.state h.kind encoded).0 })
                  (open_from c previous.state h.kind encoded).1 (ground (arith, alive)),
            ))
      ]

  open_previous-grace :
      grace (open_previous c encoded now h s).0 + used (open_previous c encoded now h s).1 ≤ grace s
  unfolding open_previous
  open_previous-grace =
      opened_before h (open_in_previous c encoded now h s.previous s) (grace s)
        (open_in_previous-grace s.previous refl)

  open_at-grace : grace (open_at c encoded now h s).0 + used (open_at c encoded now h s).1 ≤ grace s
  unfolding open_at
  open_at-grace = elim (Bool-cases (h.epoch == s.current.epoch)) [
    | inl e ↦ rw e open_current-grace
    | inr e ↦ rw e (elim (Bool-cases (is_some_and s.pending (λ p. h.epoch == p.state.epoch))) [
      | inl f ↦ rw f open_pending-grace
      | inr f ↦ rw f (elim (Bool-cases (is_some_and s.previous (λ p. h.epoch == p.state.epoch))) [
        | inl g ↦ rw g open_previous-grace
        | inr g ↦ rw g (omega arith)
      ])
    ])
  ]

pub open_session-grace :
    (c : Crypto) (encoded : List ℕ) (now : ℕ) (s : RekeySession)
    → grace (open_session c encoded now s).0 + used (open_session c encoded now s).1 ≤ grace s
unfolding open_session
open_session-grace c encoded now s = elim (Result-cases (parse encoded)) [
  | inr (e, p) ↦ rw (p, open_session) (omega (arith, expire_previous-grace now s))
  | inl (h, p) ↦
      rw (p, open_session)
        (omega (
          arith,
          expire_previous-grace now s,
          open_at-grace c encoded now h (expire_previous now s),
        ))
]
