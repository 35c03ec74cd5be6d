-- ===== src/Serving/Invariant/Whole.antt =====
-- Every turn of the loop keeps the invariant.
use reka_serdoba.Common.{
  ℕ, Bool, true, false, Option, none, some, List, [], ◌∷◌, take, Result, ok, err,
}
use reka_serdoba.Common.Steps.{Keeps, continue, Keeps-chain, through_ok, modify}
use reka_serdoba.Errors.{Error}
use reka_serdoba.Crypto.{Crypto}
use reka_serdoba.Carrier.Events.{CarrierEvent, binary, ping, close, ignore, recv, send_pong}
use reka_serdoba.Handshake.Auth.{Client}
use reka_serdoba.Handshake.Exchange.{ServerKeys}
use reka_serdoba.Serving.{World, on_link}
use reka_serdoba.Serving.Records.{process_record}
use reka_serdoba.Serving.Loop.{
  Running, on_serving, on_draining, check_update, send_outbound, migrate, after_record,
  after_old_record, on_event, unless_over, on_old_event, Turn, turn, run_turns, stop_draining,
  lifetime_over, update_timer, carrier_ready, draining_ready, draining_over, outbound_ready,
  outbound_closed, no_candidates, candidate_arrived,
}
use reka_serdoba.Serving.Invariant.{IsServed, on_link-IsServed}
use reka_serdoba.Serving.Invariant.Control.{process_record-IsServed}
use reka_serdoba.Serving.Invariant.Turns.{
  Runs, on_serving-Runs, on_draining-Runs, send_outbound-IsServed, check_update-Runs, migrate-Runs,
}

module _ (c : Crypto) (w : World) (server : ServerKeys) (client : Client) (quota : Option ℕ) where
  abbrev Goes : Running → Type 0
  Goes = Runs client.tunnel_ipv4 quota

  after_record-Goes : (goes_on : Bool) → Keeps Goes (after_record c w server client goes_on)
  unfolding after_record
  after_record-Goes true r h = check_update-Runs client.tunnel_ipv4 quota c w r h
  after_record-Goes false r h = h

  pong-Goes :
      (value : List ℕ) → Keeps (IsServed client.tunnel_ipv4 quota) (on_link (send_pong value))
  pong-Goes value = on_link-IsServed client.tunnel_ipv4 quota (send_pong value)

  checks-Goes : Keeps Goes (check_update c w)
  checks-Goes = check_update-Runs client.tunnel_ipv4 quota c w

  on_event-Goes : (event : CarrierEvent) → Keeps Goes (on_event c w server client event)
  unfolding on_event
  on_event-Goes (binary encoded) r h =
      Keeps-chain Goes (on_serving (process_record c w server client encoded)) _
        (on_serving-Runs _ _ _ (process_record-IsServed c w server client quota encoded))
        after_record-Goes r h
  on_event-Goes (ping value) r h =
      Keeps-chain Goes (on_serving (on_link (send_pong value))) _
        (on_serving-Runs _ _ _ (pong-Goes value)) (λ u. checks-Goes) r h
  on_event-Goes close r h = h
  on_event-Goes ignore r h = checks-Goes r h

  stopped-Goes :
      (r : Running) → Goes r → Goes (continue (modify stop_draining r) (λ u. check_update c w)).0
  stopped-Goes r h =
      through_ok Goes (stop_draining r) tt (λ u. check_update c w) (checks-Goes (stop_draining r) h)

  after_old_record-Goes :
      (goes_on : Option Bool) → Keeps Goes (after_old_record c w server client goes_on)
  unfolding after_old_record
  after_old_record-Goes none r h = h
  after_old_record-Goes (some goes_on) r h = after_record-Goes goes_on r h

  on_old_event-Goes :
      (event : Option CarrierEvent) → Keeps Goes (on_old_event c w server client event)
  unfolding on_old_event
  on_old_event-Goes none r h = stopped-Goes r h
  on_old_event-Goes (some (binary encoded)) r h =
      Keeps-chain Goes (on_draining (process_record c w server client encoded)) _
        (on_draining-Runs _ _ _ (process_record-IsServed c w server client quota encoded))
        after_old_record-Goes r h
  on_old_event-Goes (some (ping value)) r h =
      Keeps-chain Goes (on_draining (on_link (send_pong value))) _
        (on_draining-Runs _ _ _ (pong-Goes value)) (λ u. checks-Goes) r h
  on_old_event-Goes (some close) r h = stopped-Goes r h
  on_old_event-Goes (some ignore) r h = checks-Goes r h

  turn-Goes : (t : Turn) → Keeps Goes (turn c w server client t)
  unfolding turn
  turn-Goes lifetime_over r h = h
  turn-Goes update_timer r h = checks-Goes r h
  turn-Goes carrier_ready r h =
      Keeps-chain Goes (on_serving (on_link recv)) _
        (on_serving-Runs _ _ _ (on_link-IsServed client.tunnel_ipv4 quota recv)) on_event-Goes r h
  turn-Goes draining_ready r h =
      Keeps-chain Goes (on_draining (on_link recv)) _
        (on_draining-Runs _ _ _ (on_link-IsServed client.tunnel_ipv4 quota recv)) on_old_event-Goes
        r h
  turn-Goes draining_over r h = on_old_event-Goes none r h
  turn-Goes (outbound_ready queue) r h =
      Keeps-chain Goes (on_serving (send_outbound c w (take 32 queue))) _
        (on_serving-Runs _ _ _
          (send_outbound-IsServed client.tunnel_ipv4 quota c w (take 32 queue)))
        (λ u. checks-Goes) r h
  turn-Goes outbound_closed r h = h
  turn-Goes no_candidates r h = h
  turn-Goes (candidate_arrived candidate) r h =
      through_ok Goes (migrate c w candidate r) tt (λ u. check_update c w)
        (checks-Goes (migrate c w candidate r)
          (migrate-Runs client.tunnel_ipv4 quota c w candidate r h))

  unless_over-Goes :
      (x : Running × Result Error Bool) (later : Running)
      → Goes x.0
      → Goes later
      → Goes (unless_over x later)
  unless_over-Goes (r, ok true) later now h = h
  unless_over-Goes (r, ok false) later now h = now
  unless_over-Goes (r, err e) later now h = now

  pub run_turns-Goes :
      (turns : List Turn) (r : Running) → Goes r → Goes (run_turns c w server client turns r)
  unfolding run_turns
  run_turns-Goes [] r h = h
  run_turns-Goes (t ∷ turns) r h =
      let kept = turn-Goes t r h in
      unless_over-Goes (turn c w server client t r) _ kept
        (run_turns-Goes turns (turn c w server client t r).0 kept)
