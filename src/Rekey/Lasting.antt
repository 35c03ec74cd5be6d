-- ===== src/Rekey/Lasting.antt =====
-- What the operations of a session leave of the grace of the old epoch.
use reka_serdoba.Common.{
  ℕ, ◌+◌, ◌≤◌, ◌≡◌, ◌∙◌, ap, subst, Bool, ok_or, not, ◌||◌, leb, ◌==◌, bytes_eq, length, take, drop,
  Option, none, List, ◌++◌, ◌⊎◌, inl, inr, Result, ok, if-cases, arith,
}
use reka_serdoba.Common.Steps.{through, through-lift, through_ok}
use reka_serdoba.Common.Words.{to_be}
use reka_serdoba.Errors.{Error}
use reka_serdoba.Crypto.{Crypto}
use reka_serdoba.Rekey.Session.{
  RekeySession, PendingEpoch, PendingProof, routine, full, is_some, is_some_and, seal_data,
}
use reka_serdoba.Rekey.Requests.{
  not_due, request_update, request_update_if_due, path_challenge, accept_path_response,
}
use reka_serdoba.Rekey.Update.{
  set_pending, switch_epoch, restart, finish_update, commit_routine, confirm_full,
  accept_update_init, accept_update_commit, accept_full_rekey_confirm,
}
use reka_serdoba.Rekey.FullRekey.{accept_full_rekey_init}
use reka_serdoba.Rekey.Keeping.{
  Kept, Kept-refl, extend-Kept, seal_frame-Kept, seal_current_data-Kept,
}
use reka_serdoba.Rekey.Soundness.{IsSound, PendingIsSound}
use reka_serdoba.Rekey.Invariant.{ok_or-ok}
use reka_serdoba.Rekey.Opened.{count_data-Kept}
use reka_serdoba.Rekey.Grace.{grace_of, grace, expire_previous-grace}

-- No more of the grace than there was.
abbrev pub AtMost : ℕ → RekeySession → Type 0
AtMost g t = grace t ≤ g

-- Or the next epoch.
abbrev pub Turned : ℕ → ℕ → RekeySession → Type 0
Turned g epoch t = (grace t ≤ g) ⊎ (t.current.epoch ≡ epoch + 1)

pub Kept-AtMost : (s t : RekeySession) → Kept s t → AtMost (grace s) t
Kept-AtMost s t k = omega (arith, ap grace_of k.previous)

module _ (c : Crypto) where
  pub accept_update_init-AtMost :
      (encoded body : List ℕ) (now : ℕ) (s : RekeySession)
      → AtMost (grace s) (accept_update_init c encoded body now s).0
  unfolding accept_update_init set_pending
  accept_update_init-AtMost encoded body now s =
      let P = AtMost (grace s) in
      let kept = Kept-AtMost s in
      let h : grace s ≤ grace s = omega arith in
      through_ok P s s _ (
        through-lift P s _ _ h (λ _ _. through-lift P s _ _ h (λ _ _. through-lift P s _ _ h (λ _ _.
          through-lift P s _ _ h (λ _ _. through-lift P s _ _ h (λ _ _.
            through-lift P s _ _ h (λ _ _. through-lift P s _ _ h (λ _ _.
              through (Kept s) P _ _ (extend-Kept c s encoded s (Kept-refl s)) kept (λ _ t k.
                through-lift P t _ _ (kept t k) (λ ack _.
                  through (Kept s) P _ _ (seal_frame-Kept c s 0x06 _ t k) kept (λ ack_record u k'.
                    through (Kept s) P _ _ (extend-Kept c s ack_record u k') kept (λ _ v k''.
                      through-lift P v _ _ (kept v k'') (λ records made.
                        through_ok P _ tt _
                          (omega (arith, expire_previous-grace now _, kept v k'')))))))))))))))

  pub accept_full_rekey_init-AtMost :
      (encoded body client_key server_key server_secret : List ℕ) (now : ℕ) (s : RekeySession)
      → AtMost
          (grace s)
          (accept_full_rekey_init c encoded body client_key server_key server_secret now s).0
  unfolding accept_full_rekey_init set_pending
  accept_full_rekey_init-AtMost encoded body client_key server_key server_secret now s =
      let P = AtMost (grace s) in
      let kept = Kept-AtMost s in
      let h : grace s ≤ grace s = omega arith in
      through_ok P s s _ (
        through-lift P s _ _ h (λ _ _. through-lift P s _ _ h (λ _ _. through-lift P s _ _ h (λ _ _.
          through (Kept s) P _ _ (extend-Kept c s encoded s (Kept-refl s)) kept (λ _ t k.
            through_ok P t t _ (
              through (Kept s) P _ _ (seal_frame-Kept c s 0x0A _ t k) kept (λ reply u k'.
                through (Kept s) P _ _ (extend-Kept c s reply u k') kept (λ _ v k''.
                  through_ok P v v _ (
                    through-lift P v _ _ (kept v k'') (λ _ _.
                      through-lift P v _ _ (kept v k'') (λ _ _.
                        through-lift P v _ _ (kept v k'') (λ _ _.
                          through-lift P v _ _ (kept v k'') (λ _ _.
                            through-lift P v _ _ (kept v k'') (λ _ _.
                              through-lift P v _ _ (kept v k'') (λ _ _.
                                through-lift P v _ _ (kept v k'')
                                  (λ _ _. through_ok P _ tt _ (kept v k'')))))))))))))))))

  pub request_update_if_due-AtMost :
      (now : ℕ) (s : RekeySession) → AtMost (grace s) (request_update_if_due c now s).0
  unfolding request_update_if_due request_update
  request_update_if_due-AtMost now s =
      let P = AtMost (grace s) in
      let Q = λ (x : RekeySession × Result Error (Option (List ℕ))). AtMost (grace s) x.0 in
      let h : grace s ≤ grace s = omega arith in
      if-cases Q (is_some_and s.update_deadline (λ deadline. leb deadline now)) (λ _. h)
        (λ _.
          if-cases Q (is_some s.pending || s.update_requested) (λ _. h)
            (λ _.
              if-cases Q (not_due now s) (λ _. h)
                (λ _. through_ok P s s _ (
                  through (Kept s) P _ _ (seal_frame-Kept c s 0x04 _ s (Kept-refl s))
                    (Kept-AtMost s)
                    (λ encoded t k.
                      through (Kept s) P _ _ (extend-Kept c s encoded t k) (Kept-AtMost s)
                        (λ _ u k'. through_ok P _ tt _ (Kept-AtMost s u k')))))))

  pub path_challenge-AtMost :
      (migration_secret carrier_id value : List ℕ) (s : RekeySession)
      → AtMost (grace s) (path_challenge c migration_secret carrier_id value s).0
  unfolding path_challenge
  path_challenge-AtMost migration_secret carrier_id value s =
      let P = AtMost (grace s) in
      let kept = Kept-AtMost s in
      let h : grace s ≤ grace s = omega arith in
      through_ok P s s _ (
        through-lift P s _ _ h (λ _ _.
          through (Kept s) P _ _ (seal_frame-Kept c s 0x0C _ s (Kept-refl s)) kept (λ encoded t k.
            through (Kept s) P _ _ (extend-Kept c s encoded t k) kept (λ _ u k'.
              through_ok P u u _ (through-lift P u _ _ (kept u k') (λ expected _. kept u k'))))))

  pub accept_path_response-AtMost :
      (encoded body carrier_id expected : List ℕ) (s : RekeySession)
      → AtMost (grace s) (accept_path_response c encoded body carrier_id expected s).0
  unfolding accept_path_response
  accept_path_response-AtMost encoded body carrier_id expected s =
      if-cases (λ (x : RekeySession × Result Error (Unit {0})). AtMost (grace s) x.0)
        (not (length body == 48)
          || not (bytes_eq (take 16 body) carrier_id)
          || not (bytes_eq (drop 16 body) expected))
        (λ _. omega arith) (λ _. Kept-AtMost s _ (extend-Kept c s encoded s (Kept-refl s)))

  pub seal_data-AtMost :
      (plaintext : List ℕ) (padded : Bool) (s : RekeySession)
      → AtMost (grace s) (seal_data c plaintext padded s).0
  unfolding seal_data
  seal_data-AtMost plaintext padded s =
      through (Kept s) (AtMost (grace s)) _ _ (count_data-Kept s _ s (Kept-refl s)) (Kept-AtMost s)
        (λ _ t k. Kept-AtMost s _ (seal_current_data-Kept c s plaintext padded t k))

  -- The end of both handshakes leaves the grace as it is, or moves to the next epoch.
  finish_update-Turned :
      (encoded : List ℕ) (now epoch : ℕ) (pending : PendingEpoch) (context confirm_key : List ℕ)
      (s : RekeySession)
      → pending.state.epoch ≡ s.current.epoch + 1
      → Turned
          (grace s)
          s.current.epoch
          (finish_update c encoded now epoch pending context confirm_key s).0
  unfolding finish_update switch_epoch restart
  finish_update-Turned encoded now epoch pending context confirm_key s next =
      let T = Turned (grace s) s.current.epoch in
      through (Kept s) T _ _ (extend-Kept c s encoded s (Kept-refl s))
        (λ t k. inl (Kept-AtMost s t k))
        (λ _ t k.
          let s' = switch_epoch now pending (record t { pending = none }) in
          through_ok T _ tt _ (
            through-lift T _ _ _ (inl (Kept-AtMost s t k)) (λ done _. through_ok T _ tt _ (
              through (Kept s') T _ _
                (seal_frame-Kept c s' 0x08 (to_be 4 epoch ++ done) s' (Kept-refl s'))
                (λ u k'. inr (k'.epoch ∙ next))
                (λ done_record u k'.
                  through (Kept s') T _ _ (extend-Kept c s' done_record u k')
                    (λ v k''. inr (k''.epoch ∙ next))
                    (λ _ v k''. through_ok T _ tt _ (inr (k''.epoch ∙ next))))))))

  commit_routine-Turned :
      (encoded received : List ℕ) (now epoch : ℕ) (pending : PendingEpoch) (proof : PendingProof)
      (s : RekeySession)
      → pending.state.epoch ≡ s.current.epoch + 1
      → Turned
          (grace s)
          s.current.epoch
          (commit_routine c encoded received now epoch pending proof s).0
  unfolding commit_routine
  commit_routine-Turned encoded received now epoch pending (full context confirm_key) s next =
      inl (omega arith)
  commit_routine-Turned encoded received now epoch pending (routine context confirm_key) s next =
      let T = Turned (grace s) s.current.epoch in
      let h : T s = inl (omega arith) in
      through-lift T _ _ _ h (λ expected _.
        through-lift T _ _ _ h
          (λ _ _. finish_update-Turned encoded now epoch pending context confirm_key s next))

  confirm_full-Turned :
      (encoded received : List ℕ) (now epoch : ℕ) (pending : PendingEpoch) (proof : PendingProof)
      (s : RekeySession)
      → pending.state.epoch ≡ s.current.epoch + 1
      → Turned
          (grace s)
          s.current.epoch
          (confirm_full c encoded received now epoch pending proof s).0
  unfolding confirm_full
  confirm_full-Turned encoded received now epoch pending (routine context confirm_key) s next =
      inl (omega arith)
  confirm_full-Turned encoded received now epoch pending (full context confirm_key) s next =
      let T = Turned (grace s) s.current.epoch in
      let h : T s = inl (omega arith) in
      through-lift T _ _ _ h (λ expected _.
        through-lift T _ _ _ h
          (λ _ _. finish_update-Turned encoded now epoch pending context confirm_key s next))

  next_epoch :
      (s : RekeySession) (e : Error) (pending : PendingEpoch)
      → IsSound s
      → ok_or s.pending e ≡ ok pending
      → pending.state.epoch ≡ s.current.epoch + 1
  next_epoch s e pending h there =
      (subst (PendingIsSound s.current.epoch) (ok_or-ok s.pending e pending there) h.pending).0

  pub accept_update_commit-Turned :
      (encoded body : List ℕ) (now : ℕ) (s : RekeySession)
      → IsSound s
      → Turned (grace s) s.current.epoch (accept_update_commit c encoded body now s).0
  unfolding accept_update_commit
  accept_update_commit-Turned encoded body now s sound =
      let T = Turned (grace s) s.current.epoch in
      let h : T s = inl (omega arith) in
      through_ok T s s _ (
        through-lift T s _ _ h (λ _ _. through-lift T s _ _ h (λ pending there.
          through-lift T s _ _ h (λ _ _.
            commit_routine-Turned encoded _ now _ pending pending.proof s
              (next_epoch s _ pending sound there)))))

  pub accept_full_rekey_confirm-Turned :
      (encoded body : List ℕ) (now : ℕ) (s : RekeySession)
      → IsSound s
      → Turned (grace s) s.current.epoch (accept_full_rekey_confirm c encoded body now s).0
  unfolding accept_full_rekey_confirm
  accept_full_rekey_confirm-Turned encoded body now s sound =
      let T = Turned (grace s) s.current.epoch in
      let h : T s = inl (omega arith) in
      through_ok T s s _ (
        through-lift T s _ _ h (λ _ _. through-lift T s _ _ h (λ pending there.
          through-lift T s _ _ h (λ _ _.
            confirm_full-Turned encoded _ now _ pending pending.proof s
              (next_epoch s _ pending sound there)))))
