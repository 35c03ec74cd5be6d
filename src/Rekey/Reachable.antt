-- ===== src/Rekey/Reachable.antt =====
-- The operations of `RekeySession` as one type, and what every run of them gives.
use reka_serdoba.Common.{
  ℕ, ◌+◌, ◌≡◌, ◌∙◌, refl, sym, ap, subst, Bool, not, ◌||◌, leb, ◌==◌, List, [], ◌∷◌, Result, ok,
  Result-cases, inl, inr, Bool-cases, arith,
}
use reka_serdoba.Common.{length, take, drop, bytes_eq}
use reka_serdoba.Common.Steps.{Keeps, through, through-lift, through_ok}
use reka_serdoba.Errors.{Error}
use reka_serdoba.Crypto.{Crypto}
use reka_serdoba.Record.Keys.{EpochKeys}
use reka_serdoba.Record.Layer
use reka_serdoba.Rekey.Session.{
  new, start, default_replay_window, RekeySession, is_some, is_some_and, seal_data, seal_control,
}
use reka_serdoba.Rekey.Opening.{open_session}
use reka_serdoba.Rekey.Requests.{
  not_due, request_update, request_update_if_due, path_challenge, accept_path_response,
}
use reka_serdoba.Rekey.Update.{accept_update_init, accept_update_commit, accept_full_rekey_confirm}
use reka_serdoba.Rekey.FullRekey.{accept_full_rekey_init}
use reka_serdoba.Rekey.Keeping.{
  Kept, Kept-refl, extend-Kept, seal_frame-Kept, seal_control-Kept, seal_current_data-Kept,
}
use reka_serdoba.Rekey.Soundness.{IsSound, Kept-IsSound, new-directions}
use reka_serdoba.Rekey.Invariant.{
  accept_update_init-IsSound, accept_update_commit-IsSound, accept_full_rekey_confirm-IsSound,
  set_pending-IsSound, check_epochs-next,
}
use reka_serdoba.Rekey.Opened.{count_data-Kept, open_session-IsSound}

module _ (c : Crypto) where
  accept_full_rekey_init-IsSound :
      (encoded body client_key server_key server_secret : List ℕ) (now : ℕ)
      → Keeps IsSound
          (accept_full_rekey_init c encoded body client_key server_key server_secret now)
  unfolding accept_full_rekey_init
  accept_full_rekey_init-IsSound encoded body client_key server_key server_secret now s h =
      let kept = Kept-IsSound s h in
      through_ok IsSound s s _ (
        through-lift IsSound s _ _ h (λ _ _. through-lift IsSound s _ _ h (λ _ epochs.
          through-lift IsSound s _ _ h (λ _ _.
            through (Kept s) IsSound _ _ (extend-Kept c s encoded s (Kept-refl s)) kept (λ _ t k.
              through_ok IsSound t t _ (
                through (Kept s) IsSound _ _ (seal_frame-Kept c s 0x0A _ t k) kept (λ reply u k'.
                  through (Kept s) IsSound _ _ (extend-Kept c s reply u k') kept (λ _ v k''.
                    through_ok IsSound v v _ (
                      through-lift IsSound v _ _ (kept v k'') (λ _ _.
                        through-lift IsSound v _ _ (kept v k'') (λ next_secret _.
                          through-lift IsSound v _ _ (kept v k'') (λ keys _.
                            through-lift IsSound v _ _ (kept v k'') (λ kdf _.
                              through-lift IsSound v _ _ (kept v k'') (λ output _.
                                through-lift IsSound v _ _ (kept v k'') (λ confirm_key _.
                                  through-lift IsSound v _ _ (kept v k'') (λ records made.
                                    through_ok IsSound _ tt _ (
                                      set_pending-IsSound now _ _ v (kept v k'')
                                        (check_epochs-next s.current.epoch _ _ _ epochs
                                          ∙ ap (λ (e : ℕ). e + 1) (sym k''.epoch))
                                        (new-directions s.session_id _ keys _ records
                                          made))))))))))))))))))

  request_update-IsSound : (now : ℕ) → Keeps IsSound (request_update c now)
  unfolding request_update
  request_update-IsSound now s h = through_ok IsSound s s _ (
      through (Kept s) IsSound _ _ (seal_frame-Kept c s 0x04 _ s (Kept-refl s)) (Kept-IsSound s h)
        (λ encoded t k.
          through (Kept s) IsSound _ _ (extend-Kept c s encoded t k) (Kept-IsSound s h) (λ _ u k'.
            through_ok IsSound _ tt _ (
              let sound = Kept-IsSound s h u k' in
              record {
                current = sound.current;
                pending = sound.pending;
                previous = sound.previous;
                deadline = refl;
                requested = ground arith;
              }))))

  request_update_if_due-IsSound : (now : ℕ) → Keeps IsSound (request_update_if_due c now)
  unfolding request_update_if_due
  request_update_if_due-IsSound now s h =
      elim (Bool-cases (is_some_and s.update_deadline (λ deadline. leb deadline now))) [
        | inl e ↦ rw e h
        | inr e ↦ rw e (elim (Bool-cases (is_some s.pending || s.update_requested)) [
          | inl f ↦ rw f h
          | inr f ↦ rw f (elim (Bool-cases (not_due now s)) [
            | inl g ↦ rw g h
            | inr g ↦ rw g (request_update-IsSound now s h)
          ])
        ])
      ]

  path_challenge-IsSound :
      (migration_secret carrier_id challenge : List ℕ)
      → Keeps IsSound (path_challenge c migration_secret carrier_id challenge)
  unfolding path_challenge
  path_challenge-IsSound migration_secret carrier_id challenge s h =
      let kept = Kept-IsSound s h in
      through_ok IsSound s s _ (
        through-lift IsSound s _ _ h (λ _ _.
          through (Kept s) IsSound _ _ (seal_frame-Kept c s 0x0C _ s (Kept-refl s)) kept
            (λ encoded t k.
              through (Kept s) IsSound _ _ (extend-Kept c s encoded t k) kept (λ _ u k'.
                through_ok IsSound u u _
                  (through-lift IsSound u _ _ (kept u k') (λ expected _. kept u k'))))))

  accept_path_response-IsSound :
      (encoded body carrier_id expected : List ℕ)
      → Keeps IsSound (accept_path_response c encoded body carrier_id expected)
  unfolding accept_path_response
  accept_path_response-IsSound encoded body carrier_id expected s h =
      elim (Bool-cases (
        not (length body == 48)
        || not (bytes_eq (take 16 body) carrier_id)
        || not (bytes_eq (drop 16 body) expected))) [
          | inl e ↦ rw e h
          | inr e ↦ rw e (Kept-IsSound s h _ (extend-Kept c s encoded s (Kept-refl s)))
        ]

  seal_data-IsSound :
      (plaintext : List ℕ) (padded : Bool) → Keeps IsSound (seal_data c plaintext padded)
  unfolding seal_data
  seal_data-IsSound plaintext padded s h =
      through (Kept s) IsSound _ _ (count_data-Kept s _ s (Kept-refl s)) (Kept-IsSound s h)
        (λ _ t k. Kept-IsSound s h _ (seal_current_data-Kept c s plaintext padded t k))

-- The methods of a session, with their arguments.
pub data Operation : Type 0 where
  sealing_data sealing_control : (plaintext : List ℕ) (padded : Bool) → Operation
  opening : (encoded : List ℕ) (now : ℕ) → Operation
  update_init update_commit full_confirm : (encoded body : List ℕ) (now : ℕ) → Operation
  full_init : (encoded body client_key server_key server_secret : List ℕ) (now : ℕ) → Operation
  update_request : (now : ℕ) → Operation
  challenge : (migration_secret carrier_id challenge : List ℕ) → Operation
  response : (encoded body carrier_id expected : List ℕ) → Operation

ok_injective : {x y : RekeySession} → Path (Result Error RekeySession) (ok x) (ok y) → x ≡ y
ok_injective e = cc e

module _ (c : Crypto) where
  -- The session after an operation, whatever its outcome.
  unfoldable pub perform : Operation → RekeySession → RekeySession
  perform (sealing_data plaintext padded) s = (seal_data c plaintext padded s).0
  perform (sealing_control plaintext padded) s = (seal_control c plaintext padded s).0
  perform (opening encoded now) s = (open_session c encoded now s).0
  perform (update_init encoded body now) s = (accept_update_init c encoded body now s).0
  perform (update_commit encoded body now) s = (accept_update_commit c encoded body now s).0
  perform (full_confirm encoded body now) s = (accept_full_rekey_confirm c encoded body now s).0
  perform (full_init encoded body client_key server_key server_secret now) s =
      (accept_full_rekey_init c encoded body client_key server_key server_secret now s).0
  perform (update_request now) s = (request_update_if_due c now s).0
  perform (challenge migration_secret carrier_id value) s =
      (path_challenge c migration_secret carrier_id value s).0
  perform (response encoded body carrier_id expected) s =
      (accept_path_response c encoded body carrier_id expected s).0

  pub perform-IsSound : (o : Operation) (s : RekeySession) → IsSound s → IsSound (perform o s)
  unfolding perform
  perform-IsSound (sealing_data plaintext padded) s h = seal_data-IsSound c plaintext padded s h
  perform-IsSound (sealing_control plaintext padded) s h =
      Kept-IsSound s h _ (seal_control-Kept c s plaintext padded s (Kept-refl s))
  perform-IsSound (opening encoded now) s h = open_session-IsSound c encoded now s h
  perform-IsSound (update_init encoded body now) s h =
      accept_update_init-IsSound c encoded body now s h
  perform-IsSound (update_commit encoded body now) s h =
      accept_update_commit-IsSound c encoded body now s h
  perform-IsSound (full_confirm encoded body now) s h =
      accept_full_rekey_confirm-IsSound c encoded body now s h
  perform-IsSound (full_init encoded body client_key server_key server_secret now) s h =
      accept_full_rekey_init-IsSound c encoded body client_key server_key server_secret now s h
  perform-IsSound (update_request now) s h = request_update_if_due-IsSound c now s h
  perform-IsSound (challenge migration_secret carrier_id value) s h =
      path_challenge-IsSound c migration_secret carrier_id value s h
  perform-IsSound (response encoded body carrier_id expected) s h =
      accept_path_response-IsSound c encoded body carrier_id expected s h

  unfoldable pub perform_all : List Operation → RekeySession → RekeySession
  perform_all [] s = s
  perform_all (o ∷ os) s = perform_all os (perform o s)

  perform_all-IsSound :
      (os : List Operation) (s : RekeySession) → IsSound s → IsSound (perform_all os s)
  unfolding perform_all
  perform_all-IsSound [] s h = h
  perform_all-IsSound (o ∷ os) s h = perform_all-IsSound os (perform o s) (perform-IsSound o s h)

  pub new-IsSound :
      (session_id epoch_secret : List ℕ) (keys : EpochKeys) (transcript : List ℕ) (now : ℕ)
      (s : RekeySession)
      → new c session_id epoch_secret keys transcript now ≡ ok s
      → IsSound s
  unfolding new
  new-IsSound session_id epoch_secret keys transcript now s made =
      elim (Result-cases (Layer.new session_id 0 keys default_replay_window)) [
        | inr (e, p) ↦ absurd (ground (arith, made, p))
        | inl (l, p) ↦ subst IsSound (ok_injective (rw (p, new) at made)) (
            unfold start in
            record {
              current = new-directions session_id 0 keys default_replay_window l p;
              pending = tt;
              previous = tt;
              deadline = refl;
              requested = refl;
            })
      ]

  -- After any operations on a new session, whatever their outcomes, the pending epoch is the one
  -- after the current epoch and the previous epoch the one before, each with a record layer of its
  -- own epoch, at most 128 records are left of the previous epoch, and an update is on its way
  -- exactly when it has a deadline, as it is whenever an epoch is pending.
  pub new-perform_all-IsSound :
      (session_id epoch_secret : List ℕ) (keys : EpochKeys) (transcript : List ℕ) (now : ℕ)
      (s : RekeySession) (os : List Operation)
      → new c session_id epoch_secret keys transcript now ≡ ok s
      → IsSound (perform_all os s)
  new-perform_all-IsSound session_id epoch_secret keys transcript now s os made =
      perform_all-IsSound os s (new-IsSound session_id epoch_secret keys transcript now s made)
