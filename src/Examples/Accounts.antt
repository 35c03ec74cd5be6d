-- ===== src/Examples/Accounts.antt =====
-- The tasks of two sessions.
use reka_serdoba.Common.{◌≡◌, refl, some, [], ◌∷◌}
use reka_serdoba.Common.Maps.{find}
use reka_serdoba.Record.Keys.{codes}
use reka_serdoba.Gate.Registry.{register_migration}
use reka_serdoba.Sessions.{
  Shared, wss, h3, established, timed_out, permit, proceeds, closes, begin, end_task,
  after_handshake, end_session,
}
use reka_serdoba.Sessions.Reasons.{to_ascii_lowercase, is_prefix, contains, disconnect_reason}
use reka_serdoba.Sessions.Accounts.{Reached-AddsUp}
use reka_serdoba.Sessions.Reached.{
  at_start, Reached, started, came, settled, gave_up, ended, closed, AddsUp,
}

-- Two clients come, the first one gets a session and the second one is too slow.
abbrev both : Shared
both = (begin (begin at_start).0).0

abbrev first_runs : Shared
first_runs = (after_handshake wss 1500 (established 7 (1 ∷ []) 3) both).0

abbrev second_out : Shared
second_out = (after_handshake h3 10000000 timed_out first_runs).0

first_came : (begin at_start).1 ≡ proceeds
unfolding begin
first_came = refl

second_came : (begin (begin at_start).0).1 ≡ proceeds
unfolding begin
second_came = refl

first_settled : (after_handshake wss 1500 (established 7 (1 ∷ []) 3) both).1 ≡ proceeds
unfolding begin after_handshake register_migration find
first_settled = refl

second_gave_up : (after_handshake h3 10000000 timed_out first_runs).1 ≡ closes permit
unfolding begin after_handshake register_migration find
second_gave_up = refl

abbrev all_over : Shared
all_over = (end_session 7 (some (codes "Carrier closed")) second_out).0

-- The carrier of the second one is closed, and that of the first one not yet.
abbrev one_closed : Shared
one_closed = end_task permit all_over

last_closes : (end_session 7 (some (codes "Carrier closed")) second_out).1 ≡ closes permit
unfolding end_session
last_closes = refl

only_ends : Reached one_closed 0 [] (permit ∷ [])
only_ends = closed permit (permit ∷ []) [] (
    ended 7 [] []
      (gave_up
        (settled (came (came started first_came) second_came) wss 1500 7 (1 ∷ []) 3 first_settled)
        h3 10000000 timed_out permit second_gave_up)
      (some (codes "Carrier closed")) permit last_closes)

-- The permit of the first one is still held.
still_held : one_closed.available_permits ≡ 1023
unfolding begin after_handshake end_session end_task register_migration find
still_held = refl

-- A client that goes away is expected to.
counted : all_over.metrics.disconnects_expected_total ≡ 1
unfolding begin after_handshake end_session disconnect_reason to_ascii_lowercase contains is_prefix
    register_migration find
counted = refl

Reached-AddsUp_example : AddsUp one_closed 0 [] (permit ∷ [])
Reached-AddsUp_example = Reached-AddsUp one_closed 0 [] (permit ∷ []) only_ends
