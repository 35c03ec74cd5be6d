-- ===== src/Rekey/Late.antt =====
-- The records of the old epoch that a session opens while it goes on.
use reka_serdoba.Common.{
  ℕ, ◌+◌, ◌≤◌, ◌≡◌, ap, subst, ◌==◌, List, [], ◌∷◌, ◌⊎◌, inl, inr, Result, ok, if◌then◌else◌,
  if-cases, arith,
}
use reka_serdoba.Errors.{Error}
use reka_serdoba.Crypto.{Crypto}
use reka_serdoba.Rekey.Session.{RekeySession}
use reka_serdoba.Rekey.Opening.{open_session}
use reka_serdoba.Rekey.Update.{accept_update_commit}
use reka_serdoba.Rekey.Keeping.{Kept-refl, seal_control-Kept}
use reka_serdoba.Rekey.Soundness.{IsSound}
use reka_serdoba.Rekey.Invariant.{accept_update_commit-IsSound}
use reka_serdoba.Rekey.Grace.{grace_of, grace, used, open_session-grace}
use reka_serdoba.Rekey.Reachable.{
  Operation, sealing_data, sealing_control, opening, update_init, update_commit, full_confirm,
  full_init, update_request, challenge, response, perform, perform-IsSound,
}
use reka_serdoba.Rekey.Commit.{Committed, accept_update_commit-Committed}
use reka_serdoba.Rekey.Lasting.{
  AtMost, Turned, Kept-AtMost, accept_update_init-AtMost, accept_full_rekey_init-AtMost,
  request_update_if_due-AtMost, path_challenge-AtMost, accept_path_response-AtMost,
  seal_data-AtMost, accept_update_commit-Turned, accept_full_rekey_confirm-Turned,
}

module _ (c : Crypto) where
  -- 1 for a record that an operation opens under the previous epoch.
  abbrev used_by : Operation → RekeySession → ℕ
  used_by (opening encoded now) s = used (open_session c encoded now s).1
  used_by (sealing_data plaintext padded) s = 0
  used_by (sealing_control plaintext padded) s = 0
  used_by (update_init encoded body now) s = 0
  used_by (update_commit encoded body now) s = 0
  used_by (full_confirm encoded body now) s = 0
  used_by (full_init encoded body client_key server_key server_secret now) s = 0
  used_by (update_request now) s = 0
  used_by (challenge migration_secret carrier_id value) s = 0
  used_by (response encoded body carrier_id expected) s = 0

  -- How many records a run of operations opens under the previous epoch, up to the operation that
  -- moves the session to another epoch.
  unfoldable pub opened_late : List Operation → RekeySession → ℕ
  opened_late [] s = 0
  opened_late (o ∷ os) s =
      let t = perform c o s in
      let rest = opened_late os t in
      if t.current.epoch == s.current.epoch then used_by o s + rest else 0

  idle :
      (g epoch : ℕ) (t : RekeySession)
      → AtMost g t
      → (grace t + 0 ≤ g) ⊎ (t.current.epoch ≡ epoch + 1)
  idle g epoch t h = inl (omega (arith, h))

  turned :
      (g epoch : ℕ) (t : RekeySession)
      → Turned g epoch t
      → (grace t + 0 ≤ g) ⊎ (t.current.epoch ≡ epoch + 1)
  turned g epoch t (inl h) = inl (omega (arith, h))
  turned g epoch t (inr h) = inr h

  perform-grace :
      (o : Operation) (s : RekeySession)
      → IsSound s
      → (grace (perform c o s) + used_by o s ≤ grace s)
        ⊎ ((perform c o s).current.epoch ≡ s.current.epoch + 1)
  unfolding perform
  perform-grace (opening encoded now) s h = inl (open_session-grace c encoded now s)
  perform-grace (sealing_data plaintext padded) s h =
      idle (grace s) s.current.epoch (perform c (sealing_data plaintext padded) s)
        (seal_data-AtMost c plaintext padded s)
  perform-grace (sealing_control plaintext padded) s h =
      idle (grace s) s.current.epoch (perform c (sealing_control plaintext padded) s)
        (Kept-AtMost s _ (seal_control-Kept c s plaintext padded s (Kept-refl s)))
  perform-grace (update_init encoded body now) s h =
      idle (grace s) s.current.epoch (perform c (update_init encoded body now) s)
        (accept_update_init-AtMost c encoded body now s)
  perform-grace (update_commit encoded body now) s h =
      turned (grace s) s.current.epoch (perform c (update_commit encoded body now) s)
        (accept_update_commit-Turned c encoded body now s h)
  perform-grace (full_confirm encoded body now) s h =
      turned (grace s) s.current.epoch (perform c (full_confirm encoded body now) s)
        (accept_full_rekey_confirm-Turned c encoded body now s h)
  perform-grace (full_init encoded body client_key server_key server_secret now) s h =
      idle (grace s) s.current.epoch
        (perform c (full_init encoded body client_key server_key server_secret now) s)
        (accept_full_rekey_init-AtMost c encoded body client_key server_key server_secret now s)
  perform-grace (update_request now) s h =
      idle (grace s) s.current.epoch (perform c (update_request now) s)
        (request_update_if_due-AtMost c now s)
  perform-grace (challenge migration_secret carrier_id value) s h =
      idle (grace s) s.current.epoch (perform c (challenge migration_secret carrier_id value) s)
        (path_challenge-AtMost c migration_secret carrier_id value s)
  perform-grace (response encoded body carrier_id expected) s h =
      idle (grace s) s.current.epoch (perform c (response encoded body carrier_id expected) s)
        (accept_path_response-AtMost c encoded body carrier_id expected s)

  opened_late-grace :
      (os : List Operation) (s : RekeySession) → IsSound s → opened_late os s ≤ grace s
  unfolding opened_late
  opened_late-grace [] s h = omega arith
  opened_late-grace (o ∷ os) s h =
      let t = perform c o s in
      let later = opened_late-grace os t (perform-IsSound c o s h) in
      if-cases (λ (n : ℕ). n ≤ grace s) (t.current.epoch == s.current.epoch)
        (λ same. elim (perform-grace o s h) [
          | inl few ↦ omega (arith, few, later)
          | inr next ↦ absurd (ground (arith, same, next))
        ])
        (λ _. omega arith)

  -- Once a session that satisfies the invariant has committed an update, it opens at most 128 records
  -- under the old epoch, whatever operations follow and when, and whatever their outcomes: records
  -- that arrive, records that are sealed, updates and rekeys that are begun, failed commits; up to the
  -- operation that moves it to another epoch.
  pub accept_update_commit-opened_late :
      (encoded body : List ℕ) (now : ℕ) (s s' : RekeySession) (answer : List ℕ)
      (os : List Operation)
      → IsSound s
      → accept_update_commit c encoded body now s ≡ (s', ok answer)
      → opened_late os s' ≤ 128
  accept_update_commit-opened_late encoded body now s s' answer os sound e =
      let k : Committed c s body now s' =
        accept_update_commit-Committed c encoded body now s s' answer e in
      let sound' : IsSound s' =
        subst (λ (x : RekeySession × Result Error (List ℕ)). IsSound x.0) e
          (accept_update_commit-IsSound c encoded body now s sound) in
      omega
        (arith, opened_late-grace os s' sound', ap grace_of k.moved.previous.1, k.moved.previous.4)
