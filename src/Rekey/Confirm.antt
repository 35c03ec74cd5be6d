-- ===== src/Rekey/Confirm.antt =====
-- What a full rekey that was confirmed has done to the session.
use reka_serdoba.Common.{
  ℕ, ◌≡◌, ◌∙◌, refl, sym, ap, bytes_eq, bytes_eq→eq, ==_iff, some, List, length, slice, ok,
}
use reka_serdoba.Common.Steps.{continue-ok, continue_value}
use reka_serdoba.Common.Words.{from_be}
use reka_serdoba.Crypto.{Crypto}
use reka_serdoba.Record.Keys.{codes}
use reka_serdoba.Rekey.Auth.{hmac_label}
use reka_serdoba.Rekey.Session.{RekeySession, PendingEpoch, PendingProof, routine, full}
use reka_serdoba.Rekey.Update.{confirm_full, accept_full_rekey_confirm}
use reka_serdoba.Rekey.Invariant.{ok_or-ok}
use reka_serdoba.Rekey.Commit.{Switched, guard-ok, not-false, finish_update-Switched}

module _ (c : Crypto) where
  -- What a confirmation has checked before the session moved.
  pub record Confirmed (s : RekeySession) (body : List ℕ) (now : ℕ) (s' : RekeySession)
      : Type 0 where
    pub next : PendingEpoch
    pub context : List ℕ
    pub confirm_key : List ℕ
    pub there : s.pending ≡ some next
    pub kind : next.proof ≡ full context confirm_key
    pub body_len : length body ≡ 36
    pub body_epoch : from_be (slice 0 4 body) ≡ next.state.epoch
    pub body_tag : hmac_label c confirm_key (codes "client confirm") context ≡ ok (slice 4 36 body)
    pub moved : Switched s now next s'

  -- The proof that was pending, its tag and the move.
  confirm_full-Switched :
      (encoded received : List ℕ) (now epoch : ℕ) (pending : PendingEpoch) (proof : PendingProof)
      (s s' : RekeySession) (answer : List ℕ)
      → confirm_full c encoded received now epoch pending proof s ≡ (s', ok answer)
      → (context : List ℕ) × (confirm_key : List ℕ) × (proof ≡ full context confirm_key)
        × (hmac_label c confirm_key (codes "client confirm") context ≡ ok received)
        × Switched s now pending s'
  unfolding confirm_full
  confirm_full-Switched encoded received now epoch pending (routine context confirm_key) s s' answer
        e =
      absurd (cc e)
  confirm_full-Switched encoded received now epoch pending (full context confirm_key) s s' answer
        e =
      let expected = continue-ok _ _ s' answer e in
      let checked = continue-ok _ _ s' answer expected.2 in
      let same =
        bytes_eq→eq received expected.0
          (not-false (bytes_eq received expected.0) (guard-ok _ _ s checked.1)) in
      (
        context,
        confirm_key,
        refl,
        expected.1 ∙ ap ok (sym same),
        finish_update-Switched c encoded now epoch pending context confirm_key s s' answer
            checked.2,
      )

  -- A full rekey is confirmed only if one was pending, by a body of 36 bytes that names the pending
  -- epoch and bears the client's tag. The session has then moved to that epoch in the same way as by
  -- a routine update: nothing is pending, the old epoch is kept for three seconds and 128 records,
  -- and the counters, the clock and the deadline start afresh.
  pub accept_full_rekey_confirm-Confirmed :
      (encoded body : List ℕ) (now : ℕ) (s s' : RekeySession) (answer : List ℕ)
      → accept_full_rekey_confirm c encoded body now s ≡ (s', ok answer)
      → Confirmed s body now s'
  unfolding accept_full_rekey_confirm
  accept_full_rekey_confirm-Confirmed encoded body now s s' answer e =
      let got = continue_value s s _ e in
      let long = continue-ok _ _ s' answer got in
      let found = continue-ok _ _ s' answer long.2 in
      let named = continue-ok _ _ s' answer found.2 in
      let move =
        confirm_full-Switched encoded (slice 4 36 body) now (from_be (slice 0 4 body)) found.0
          (found.0.proof) s s' answer named.2 in
      record {
        next = found.0;
        context = move.0;
        confirm_key = move.1;
        there = ok_or-ok s.pending _ found.0 found.1;
        kind = move.2;
        body_len = (==_iff (length body) 36).0 (not-false _ (guard-ok _ _ s long.1));
        body_epoch =
            (==_iff (from_be (slice 0 4 body)) found.0.state.epoch).0
              (not-false _ (guard-ok _ _ s named.1));
        body_tag = move.3;
        moved = move.4;
      }
