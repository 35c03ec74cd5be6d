-- ===== src/Rekey/Invariant.antt =====
-- The operations of `RekeySession` keep its invariant.
use reka_serdoba.Common.{
  ℕ, ◌+◌, ◌≡◌, ◌∙◌, refl, sym, ap, subst, ◌||◌, leb, ◌==◌, Option, none, some, List, ◌++◌, ok,
  ok_or, inl, inr, Bool-cases, arith,
}
use reka_serdoba.Common.Steps.{Keeps, through, through-lift, through_ok}
use reka_serdoba.Common.Words.{to_be}
use reka_serdoba.Errors.{Error}
use reka_serdoba.Crypto.{Crypto}
use reka_serdoba.Rekey.Session.{
  RekeySession, EpochState, PendingEpoch, PendingProof, routine, full, is_some_and,
}
use reka_serdoba.Rekey.Opening.{expire_previous}
use reka_serdoba.Rekey.Update.{
  check_epochs, set_pending, switch_epoch, restart, finish_update, commit_routine, confirm_full,
  accept_update_init, accept_update_commit, accept_full_rekey_confirm,
}
use reka_serdoba.Rekey.Keeping.{Kept, Kept-refl, extend-Kept, seal_frame-Kept}
use reka_serdoba.Rekey.Soundness.{IsSound, IsOfEpoch, PendingIsSound, Kept-IsSound, new-directions}

pub expire_previous-IsSound :
    (now : ℕ) (s : RekeySession) → IsSound s → IsSound (expire_previous now s)
unfolding expire_previous
expire_previous-IsSound now s h =
    elim (Bool-cases
      (is_some_and s.previous (λ p. p.remaining_records == 0 || leb p.expires_at now))) [
        | inl e ↦ rw e (record {
          current = h.current;
          pending = h.pending;
          previous = tt;
          deadline = h.deadline;
          requested = h.requested;
        })
        | inr e ↦ rw e h
      ]

pub set_pending-IsSound :
    (now : ℕ) (state : EpochState) (proof : PendingProof) (s : RekeySession)
    → IsSound s
    → state.epoch ≡ s.current.epoch + 1
    → IsOfEpoch state
    → IsSound (set_pending now state proof s)
unfolding set_pending
set_pending-IsSound now state proof s h next layer = record {
  current = h.current;
  pending = (next, layer);
  previous = h.previous;
  deadline = refl;
  requested = refl;
}

-- `pending` is taken.
abbrev take_pending : RekeySession → RekeySession
take_pending s = record s { pending = none }

take_pending-IsSound : (s : RekeySession) → IsSound s → IsSound (take_pending s)
take_pending-IsSound s h = record {
  current = h.current;
  pending = tt;
  previous = h.previous;
  deadline = h.deadline;
  requested = refl;
}

switch_epoch-IsSound :
    (now : ℕ) (pending : PendingEpoch) (s : RekeySession)
    → IsSound s
    → PendingIsSound s.current.epoch (some pending)
    → IsSound (switch_epoch now pending s)
unfolding switch_epoch
switch_epoch-IsSound now pending s h (next, layer) = record {
  current = layer;
  pending = tt;
  previous = (sym next, h.current, omega arith);
  deadline = h.deadline;
  requested = refl;
}

restart-IsSound :
    (now : ℕ) (s : RekeySession) → IsSound s → s.pending ≡ none → IsSound (restart now s)
unfolding restart
restart-IsSound now s h nothing = record {
  current = h.current;
  pending = h.pending;
  previous = h.previous;
  deadline = refl;
  requested = rw nothing refl;
}

pub ok_or-ok :
    (o : Option PendingEpoch) (e : Error) (pending : PendingEpoch)
    → ok_or o e ≡ ok pending
    → o ≡ some pending
ok_or-ok none e pending there = cc there
ok_or-ok (some p) e pending there = cc there

-- What the invariant says of the epoch that is found pending.
pending_there :
    (s : RekeySession) (e : Error) (pending : PendingEpoch)
    → IsSound s
    → ok_or s.pending e ≡ ok pending
    → PendingIsSound s.current.epoch (some pending)
pending_there s e pending h there =
    subst (PendingIsSound s.current.epoch) (ok_or-ok s.pending e pending there) h.pending

pub check_epochs-next :
    (current current_epoch next_epoch : ℕ) (e : Error)
    → check_epochs current current_epoch next_epoch e ≡ ok tt
    → next_epoch ≡ current + 1
unfolding check_epochs
check_epochs-next current current_epoch next_epoch e p = ground arith

module _ (c : Crypto) where
  finish_update-IsSound :
      (encoded : List ℕ) (now epoch : ℕ) (pending : PendingEpoch) (context confirm_key : List ℕ)
      (s : RekeySession)
      → IsSound s
      → PendingIsSound s.current.epoch (some pending)
      → IsSound (finish_update c encoded now epoch pending context confirm_key s).0
  unfolding finish_update
  finish_update-IsSound encoded now epoch pending context confirm_key s h next =
      through (Kept s) IsSound _ _ (extend-Kept c s encoded s (Kept-refl s)) (Kept-IsSound s h)
        (λ _ t k.
          let taken = take_pending-IsSound t (Kept-IsSound s h t k) in
          let switched =
            switch_epoch-IsSound now pending (take_pending t) taken (rw (k.epoch) next) in
          let s' = switch_epoch now pending (take_pending t) in
          through_ok IsSound _ tt _ (
            through-lift IsSound _ _ _ taken (λ done _. through_ok IsSound _ tt _ (
              through (Kept s') IsSound _ _
                (seal_frame-Kept c s' 0x08 (to_be 4 epoch ++ done) s' (Kept-refl s'))
                (Kept-IsSound s' switched)
                (λ done_record u k'.
                  through (Kept s') IsSound _ _ (extend-Kept c s' done_record u k')
                    (Kept-IsSound s' switched)
                    (λ _ v k''. through_ok IsSound _ tt _ (
                      restart-IsSound now v (Kept-IsSound s' switched v k'')
                        (unfold switch_epoch in k''.pending))))))))

  commit_routine-IsSound :
      (encoded received : List ℕ) (now epoch : ℕ) (pending : PendingEpoch) (proof : PendingProof)
      (s : RekeySession)
      → IsSound s
      → PendingIsSound s.current.epoch (some pending)
      → IsSound (commit_routine c encoded received now epoch pending proof s).0
  unfolding commit_routine
  commit_routine-IsSound encoded received now epoch pending (full context confirm_key) s h next = h
  commit_routine-IsSound encoded received now epoch pending (routine context confirm_key) s h next =
      through-lift IsSound _ _ _ h (λ expected _.
        through-lift IsSound _ _ _ h
          (λ _ _. finish_update-IsSound encoded now epoch pending context confirm_key s h next))

  confirm_full-IsSound :
      (encoded received : List ℕ) (now epoch : ℕ) (pending : PendingEpoch) (proof : PendingProof)
      (s : RekeySession)
      → IsSound s
      → PendingIsSound s.current.epoch (some pending)
      → IsSound (confirm_full c encoded received now epoch pending proof s).0
  unfolding confirm_full
  confirm_full-IsSound encoded received now epoch pending (routine context confirm_key) s h next = h
  confirm_full-IsSound encoded received now epoch pending (full context confirm_key) s h next =
      through-lift IsSound _ _ _ h (λ expected _.
        through-lift IsSound _ _ _ h
          (λ _ _. finish_update-IsSound encoded now epoch pending context confirm_key s h next))

  pub accept_update_commit-IsSound :
      (encoded body : List ℕ) (now : ℕ) → Keeps IsSound (accept_update_commit c encoded body now)
  unfolding accept_update_commit
  accept_update_commit-IsSound encoded body now s h = through_ok IsSound s s _ (
      through-lift IsSound s _ _ h (λ _ _. through-lift IsSound s _ _ h (λ pending there.
        through-lift IsSound s _ _ h (λ _ _.
          commit_routine-IsSound encoded _ now _ pending pending.proof s h
            (pending_there s _ pending h there)))))

  pub accept_full_rekey_confirm-IsSound :
      (encoded body : List ℕ) (now : ℕ)
      → Keeps IsSound (accept_full_rekey_confirm c encoded body now)
  unfolding accept_full_rekey_confirm
  accept_full_rekey_confirm-IsSound encoded body now s h = through_ok IsSound s s _ (
      through-lift IsSound s _ _ h (λ _ _. through-lift IsSound s _ _ h (λ pending there.
        through-lift IsSound s _ _ h (λ _ _.
          confirm_full-IsSound encoded _ now _ pending pending.proof s h
            (pending_there s _ pending h there)))))

  pub accept_update_init-IsSound :
      (encoded body : List ℕ) (now : ℕ) → Keeps IsSound (accept_update_init c encoded body now)
  unfolding accept_update_init
  accept_update_init-IsSound encoded body now s h = through_ok IsSound s s _ (
      through-lift IsSound s _ _ h (λ _ _. through-lift IsSound s _ _ h (λ _ epochs.
        through-lift IsSound s _ _ h (λ expected_tag _. through-lift IsSound s _ _ h (λ _ _.
          through-lift IsSound s _ _ h (λ next_secret _. through-lift IsSound s _ _ h (λ keys _.
            through-lift IsSound s _ _ h (λ confirm_key _.
              through (Kept s) IsSound _ _ (extend-Kept c s encoded s (Kept-refl s))
                (Kept-IsSound s h)
                (λ _ t k. through-lift IsSound t _ _ (Kept-IsSound s h t k) (λ ack _.
                  through (Kept s) IsSound _ _ (seal_frame-Kept c s 0x06 _ t k) (Kept-IsSound s h)
                    (λ ack_record u k'.
                      through (Kept s) IsSound _ _ (extend-Kept c s ack_record u k')
                        (Kept-IsSound s h)
                        (λ _ v k''.
                          through-lift IsSound v _ _ (Kept-IsSound s h v k'') (λ records made.
                            through_ok IsSound _ tt _ (
                              expire_previous-IsSound now _ (
                                set_pending-IsSound now _ _ v (Kept-IsSound s h v k'')
                                  (check_epochs-next s.current.epoch _ _ _ epochs
                                    ∙ ap (λ (e : ℕ). e + 1) (sym k''.epoch))
                                  (new-directions s.session_id _ keys _ records made))))))))))))))))
