-- ===== src/Serving/Loop.antt =====
-- `validate_migration_path` and `run_established_session` (rekaserdoba/src/main.rs). A turn of the
-- loop is given by the branch of `select!` that is taken, with what it has received; the receiving
-- of the answer to a path challenge has no time limit here but that of the list of events.
use reka_serdoba.Common.{
  ℕ, ◌+◌, ◌-◌, Bool, true, false, not, ◌||◌, Option, none, some, List, [], ◌∷◌, length, take, ◌==◌,
  if◌then◌else◌, Result, ok, err, bail_if,
}
use reka_serdoba.Common.Steps.{Step, ◌>>=◌, ◌>>◌, lift, pure, get, modify}
use reka_serdoba.Errors.{
  Error, session_lifetime_expired, invalid_migration_response_record,
  invalid_migration_response_frame, migration_carrier_closed, carrier_failed,
}
use reka_serdoba.Crypto.{Crypto}
use reka_serdoba.Record.Header.{control_record, max_ciphertext_len}
use reka_serdoba.Record.Frames.{Frame, parse_frames}
use reka_serdoba.Batch.{batch_packets}
use reka_serdoba.Rekey.Session.{seal_data}
use reka_serdoba.Rekey.Opening.{open_session, is_control}
use reka_serdoba.Rekey.Requests.{request_update_if_due, path_challenge, accept_path_response}
use reka_serdoba.Carrier.Events.{
  CarrierEvent, binary, ping, close, ignore, Link, LinkStep, recv, send_binary, send_pong,
}
use reka_serdoba.Handshake.Auth.{Client}
use reka_serdoba.Handshake.Exchange.{ServerKeys}
use reka_serdoba.Serving.{
  Serving, ServingStep, World, raised, on_crypto, on_link, read_clock, draw, shape_traffic,
}
use reka_serdoba.Serving.Records.{is_current, process_record}

-- The loop that waits for a binary message on a candidate; it ends where its events do.
unfoldable pub await_binary : List (Result Error CarrierEvent) → LinkStep (List ℕ)
await_binary [] = lift (err carrier_failed)
await_binary (event ∷ events) = do
  received ← recv
  elim received [
    | binary encoded ↦ pure encoded
    | ping value ↦ (do send_pong value; await_binary events)
    | close ↦ lift (err migration_carrier_closed)
    | ignore ↦ await_binary events
  ]

-- The body of the only frame, if it is the response that is expected.
abbrev pub response_body : List Frame → Result Error (List ℕ)
response_body [] = err invalid_migration_response_frame
response_body (f ∷ []) =
    if not (f.frame_type == 0x0D) || not (f.flags == 0)
    then err invalid_migration_response_frame
    else ok f.body
response_body (f ∷ g ∷ frames) = err invalid_migration_response_frame

-- The state of the loop: a carrier that is left runs on for a while.
pub record Running : Type 0 where
  pub serving : Serving
  pub draining : Option Link

abbrev pub RunningStep : Type 0 → Type 0
RunningStep A = Step Running Error A

unfoldable pub on_serving : {A : Type 0} → ServingStep A → RunningStep A
on_serving m r = let (serving, x) = m r.serving in (record r { serving = serving }, x)

abbrev pub some_of : {A : Type 0} → Result Error A → Result Error (Option A)
some_of (ok a) = ok (some a)
some_of (err e) = err e

-- A step with another carrier in place of the one in use; the answer is the carrier afterwards.
unfoldable pub with_link :
    {A : Type 0} → ServingStep A → Link → Serving → Serving × (Link × Result Error A)
with_link m link s =
    let (t, x) = m (record s { link = link }) in (record t { link = s.link }, (t.link, x))

unfoldable pub on_draining : {A : Type 0} → ServingStep A → RunningStep (Option A)
on_draining m r = elim r.draining [
  | none ↦ (r, ok none)
  | some old ↦
      let (s, y) = with_link m old r.serving in
      (record r { serving = s; draining = some y.0 }, some_of y.1)
]

-- The branches of `select!`. The queue holds packets, each with
-- the id that is drawn for it if it is fragmented; 32 are taken at most.
pub data Turn : Type 0 where
  lifetime_over update_timer carrier_ready draining_ready draining_over : Turn
  outbound_ready : (queue : List (List ℕ × List ℕ)) → Turn
  outbound_closed no_candidates : Turn
  candidate_arrived : (candidate : Link) → Turn

abbrev pub sum_len : List (List ℕ × List ℕ) → ℕ
sum_len [] = 0
sum_len ((packet_id, packet) ∷ packets) = length packet + sum_len packets

abbrev pub count_migrated : Serving → Serving
count_migrated s = record s {
  metrics = record s.metrics { migrations_total = raised s.metrics.migrations_total 1 };
}

abbrev pub count_not_migrated : Serving → Serving
count_not_migrated s = record s {
  metrics = record s.metrics { migration_failed_total = raised s.metrics.migration_failed_total 1 };
}

abbrev pub stop_draining : Running → Running
stop_draining r = record r { draining = none }

-- What follows a turn, if the loop goes on.
abbrev pub unless_over : Running × Result Error Bool → Running → Running
unless_over (r, ok true) later = later
unless_over (r, ok false) later = r
unless_over (r, err e) later = r

module _ (c : Crypto) (w : World) where
  -- `validate_migration_path`, on the carrier of the candidate.
  unfoldable pub validate_migration_path : ServingStep (Unit {0})
  validate_migration_path = do
    carrier_id ← draw w
    challenge ← draw w
    s ← get
    sealed ← on_crypto (path_challenge c s.session.migration_secret carrier_id challenge)
    on_link (send_binary sealed.0)
    t ← get
    encoded ← on_link (await_binary t.link.incoming)
    now ← read_clock w
    opened ← on_crypto (open_session c encoded now)
    lift (
        bail_if (not (is_control opened.header.kind) || not (is_current opened.position))
          invalid_migration_response_record)
    frames ← lift (parse_frames opened.plaintext control_record)
    body ← lift (response_body frames)
    on_crypto (accept_path_response c encoded body carrier_id sealed.1)

  -- `send_outbound_record`, for each record of `send_outbound_packets`.
  unfoldable pub send_outbound_records : List (List ℕ) → ServingStep (Unit {0})
  send_outbound_records [] = pure tt
  send_outbound_records (plaintext ∷ records) = do
    encoded ← on_crypto (seal_data c plaintext false)
    on_link (send_binary encoded)
    send_outbound_records records

  -- `send_outbound_packets`
  unfoldable pub send_outbound_packets : List (List ℕ × List ℕ) → ServingStep (Unit {0})
  send_outbound_packets packets = do
    records ← lift (batch_packets packets (max_ciphertext_len - 16))
    send_outbound_records records

  unfoldable pub send_update : Option (List ℕ) → ServingStep (Unit {0})
  send_update none = pure tt
  send_update (some encoded) = on_link (send_binary encoded)

  -- The end of a turn.
  unfoldable pub check_update : RunningStep Bool
  check_update = do
    on_serving (do
      now ← read_clock w
      update ← on_crypto (request_update_if_due c now)
      send_update update)
    pure true

  unfoldable pub send_outbound : List (List ℕ × List ℕ) → ServingStep (Unit {0})
  send_outbound packets = do shape_traffic w (sum_len packets); send_outbound_packets packets

  -- The carrier of a candidate that has answered takes over, and the other one drains.
  unfoldable pub migrate : Link → Running → Running
  migrate candidate r =
      let (s, (link, x)) = with_link validate_migration_path candidate r.serving in
      elim x [
        | ok u ↦ record {
          serving = count_migrated (record s { link = link });
          draining = some r.serving.link;
        }
        | err e ↦ record r { serving = count_not_migrated s }
      ]

module _ (c : Crypto) (w : World) (server : ServerKeys) (client : Client) where
  unfoldable pub after_record : Bool → RunningStep Bool
  after_record goes_on = if goes_on then check_update c w else pure false

  unfoldable pub on_event : CarrierEvent → RunningStep Bool
  on_event (binary encoded) = do
    goes_on ← on_serving (process_record c w server client encoded)
    after_record goes_on
  on_event (ping value) = do on_serving (on_link (send_pong value)); check_update c w
  on_event close = pure false
  on_event ignore = check_update c w

  -- The `continue` when no carrier drains.
  unfoldable pub after_old_record : Option Bool → RunningStep Bool
  after_old_record none = pure true
  after_old_record (some goes_on) = after_record goes_on

  unfoldable pub on_old_event : Option CarrierEvent → RunningStep Bool
  on_old_event none = do modify stop_draining; check_update c w
  on_old_event (some (binary encoded)) = do
    goes_on ← on_draining (process_record c w server client encoded)
    after_old_record goes_on
  on_old_event (some (ping value)) = do
    answered ← on_draining (on_link (send_pong value))
    check_update c w
  on_old_event (some close) = do modify stop_draining; check_update c w
  on_old_event (some ignore) = check_update c w

  -- One turn of `run_established_session`: whether the loop goes on.
  unfoldable pub turn : Turn → RunningStep Bool
  turn lifetime_over = lift (err session_lifetime_expired)
  turn update_timer = check_update c w
  turn carrier_ready = do event ← on_serving (on_link recv); on_event event
  turn draining_ready = do event ← on_draining (on_link recv); on_old_event event
  turn draining_over = on_old_event none
  turn (outbound_ready queue) = do on_serving (send_outbound c w (take 32 queue)); check_update c w
  turn outbound_closed = pure false
  turn no_candidates = pure true
  turn (candidate_arrived candidate) = do modify (migrate c w candidate); check_update c w

  -- The loop, until a turn ends it.
  unfoldable pub run_turns : List Turn → Running → Running
  run_turns [] r = r
  run_turns (t ∷ turns) r = unless_over (turn t r) (run_turns turns (turn t r).0)
