-- ===== src/Rekey/Commit.antt =====
-- What a key update that was committed has done to the session.
use reka_serdoba.Common.{
  ℕ, ◌+◌, ◌≡◌, ◌∙◌, refl, sym, ap, Bool, true, false, not, bytes_eq, bytes_eq→eq, ==_iff, none,
  some, List, ◌++◌, length, slice, ok,
}
use reka_serdoba.Common.Steps.{continue-ok, continue_value}
use reka_serdoba.Common.Words.{to_be, from_be}
use reka_serdoba.Errors.{Error}
use reka_serdoba.Crypto.{Crypto}
use reka_serdoba.Record.Keys.{codes}
use reka_serdoba.Rekey.Auth.{hmac_label}
use reka_serdoba.Rekey.Session.{
  RekeySession, PendingEpoch, PendingProof, routine, full, PreviousEpoch, old_epoch_grace,
  old_epoch_records, extend,
}
use reka_serdoba.Rekey.Update.{
  guard, switch_epoch, restart, finish_update, commit_routine, accept_update_commit,
}
use reka_serdoba.Rekey.Keeping.{Kept-refl, extend-Kept, seal_frame-Kept}
use reka_serdoba.Rekey.Invariant.{ok_or-ok}

-- The session has moved to the pending epoch.
pub record Switched (s : RekeySession) (now : ℕ) (next : PendingEpoch) (s' : RekeySession)
    : Type 0 where
  pub epoch : s'.current.epoch ≡ next.state.epoch
  pub pending : s'.pending ≡ none
  pub previous :
      (old : PreviousEpoch) × (s'.previous ≡ some old)
      × (old.state.epoch ≡ s.current.epoch)
      × (old.expires_at ≡ now + old_epoch_grace)
      × (old.remaining_records ≡ old_epoch_records)
  pub epoch_started : s'.epoch_started ≡ now
  pub data_records : s'.data_records ≡ 0
  pub plaintext_bytes : s'.plaintext_bytes ≡ 0
  pub update_requested : s'.update_requested ≡ false
  pub update_deadline : s'.update_deadline ≡ none

pub guard-ok : (b : Bool) (e : Error) (s : RekeySession) → (guard b e s).1 ≡ ok tt → b ≡ false
guard-ok true e s p = absurd (cc p)
guard-ok false e s p = refl

pub not-false : (b : Bool) → not b ≡ false → b ≡ true
not-false true p = refl
not-false false p = absurd (cc p)

module _ (c : Crypto) where
  pub finish_update-Switched :
      (encoded : List ℕ) (now epoch : ℕ) (pending : PendingEpoch) (context confirm_key : List ℕ)
      (s s' : RekeySession) (answer : List ℕ)
      → finish_update c encoded now epoch pending context confirm_key s ≡ (s', ok answer)
      → Switched s now pending s'
  unfolding finish_update
  finish_update-Switched encoded now epoch pending context confirm_key s s' answer e =
      let extended = continue-ok _ _ s' answer e in
      let taken = continue-ok _ _ s' answer extended.2 in
      let done = continue-ok _ _ s' answer taken.2 in
      let switched = continue-ok _ _ s' answer done.2 in
      let sealed = continue-ok _ _ s' answer switched.2 in
      let noted = continue-ok _ _ s' answer sealed.2 in
      let restarted = continue-ok _ _ s' answer noted.2 in
      let s1 = switch_epoch now pending (record (extend c encoded s).0 { pending = none }) in
      let k =
        extend-Kept c s1 sealed.0 _
          (seal_frame-Kept c s1 0x08 (to_be 4 epoch ++ done.0) s1 (Kept-refl s1)) in
      let end = ap (λ x. x.0) (sym restarted.2) in
      unfold restart switch_epoch extend in
      record {
        epoch = ap (λ (x : RekeySession). x.current.epoch) end ∙ k.epoch;
        pending = ap (λ (x : RekeySession). x.pending) end ∙ k.pending;
        previous = (_, ap (λ (x : RekeySession). x.previous) end ∙ k.previous, refl, refl, refl);
        epoch_started = ap (λ (x : RekeySession). x.epoch_started) end;
        data_records = ap (λ (x : RekeySession). x.data_records) end;
        plaintext_bytes = ap (λ (x : RekeySession). x.plaintext_bytes) end;
        update_requested = ap (λ (x : RekeySession). x.update_requested) end;
        update_deadline = ap (λ (x : RekeySession). x.update_deadline) end;
      }

  -- What a commit has checked before the session moved.
  pub record Committed (s : RekeySession) (body : List ℕ) (now : ℕ) (s' : RekeySession)
      : Type 0 where
    pub next : PendingEpoch
    pub context : List ℕ
    pub confirm_key : List ℕ
    pub there : s.pending ≡ some next
    pub kind : next.proof ≡ routine context confirm_key
    pub body_len : length body ≡ 36
    pub body_epoch : from_be (slice 0 4 body) ≡ next.state.epoch
    pub body_tag : hmac_label c confirm_key (codes "client commit") context ≡ ok (slice 4 36 body)
    pub moved : Switched s now next s'

  -- The proof that was pending, its tag and the move.
  commit_routine-Switched :
      (encoded received : List ℕ) (now epoch : ℕ) (pending : PendingEpoch) (proof : PendingProof)
      (s s' : RekeySession) (answer : List ℕ)
      → commit_routine c encoded received now epoch pending proof s ≡ (s', ok answer)
      → (context : List ℕ) × (confirm_key : List ℕ) × (proof ≡ routine context confirm_key)
        × (hmac_label c confirm_key (codes "client commit") context ≡ ok received)
        × Switched s now pending s'
  unfolding commit_routine
  commit_routine-Switched encoded received now epoch pending (full context confirm_key) s s' answer
        e =
      absurd (cc e)
  commit_routine-Switched encoded received now epoch pending (routine context confirm_key) s s'
        answer e =
      let expected = continue-ok _ _ s' answer e in
      let checked = continue-ok _ _ s' answer expected.2 in
      let same =
        bytes_eq→eq received expected.0
          (not-false (bytes_eq received expected.0) (guard-ok _ _ s checked.1)) in
      (
        context,
        confirm_key,
        refl,
        expected.1 ∙ ap ok (sym same),
        finish_update-Switched encoded now epoch pending context confirm_key s s' answer checked.2,
      )

  -- A routine update is committed only if one was pending, by a body of 36 bytes that names the
  -- pending epoch and bears the client's tag. The session has then moved to that epoch: nothing is
  -- pending, the old epoch is kept for three seconds and 128 records, and the counters, the clock
  -- and the deadline start afresh.
  pub accept_update_commit-Committed :
      (encoded body : List ℕ) (now : ℕ) (s s' : RekeySession) (answer : List ℕ)
      → accept_update_commit c encoded body now s ≡ (s', ok answer)
      → Committed s body now s'
  unfolding accept_update_commit
  accept_update_commit-Committed encoded body now s s' answer e =
      let got = continue_value s s _ e in
      let long = continue-ok _ _ s' answer got in
      let found = continue-ok _ _ s' answer long.2 in
      let named = continue-ok _ _ s' answer found.2 in
      let move =
        commit_routine-Switched encoded (slice 4 36 body) now (from_be (slice 0 4 body)) found.0
          (found.0.proof) s s' answer named.2 in
      record {
        next = found.0;
        context = move.0;
        confirm_key = move.1;
        there = ok_or-ok s.pending _ found.0 found.1;
        kind = move.2;
        body_len = (==_iff (length body) 36).0 (not-false _ (guard-ok _ _ s long.1));
        body_epoch =
            (==_iff (from_be (slice 0 4 body)) found.0.state.epoch).0
              (not-false _ (guard-ok _ _ s named.1));
        body_tag = move.3;
        moved = move.4;
      }
