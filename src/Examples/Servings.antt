-- ===== src/Examples/Servings.antt =====
-- A session from its handshake on.
use reka_serdoba.Common.{
  ℕ, ◌≡◌, refl, true, false, none, List, [], ◌∷◌, ◌++◌, replicate, slice, bytes_eq, ok,
}
use reka_serdoba.Common.Steps.{continue}
use reka_serdoba.Common.Words.{to_be, from_be}
use reka_serdoba.Examples.Toy.{octets, octets_laws}
use reka_serdoba.Examples.Handshakes.{the_client, hello_message, auth_message}
use reka_serdoba.Record.Header.{data_record, control_record}
use reka_serdoba.Record.Keys
use reka_serdoba.Record.Keys.{TrafficKey}
use reka_serdoba.Record.Layer
use reka_serdoba.Record.Layer.{SessionRecordLayer}
use reka_serdoba.Record.Replay
use reka_serdoba.Record.Receiver
use reka_serdoba.Record.Sender
use reka_serdoba.Rekey.Auth as Digests
use reka_serdoba.Rekey.Session
use reka_serdoba.Fragment
use reka_serdoba.Policy
use reka_serdoba.Carrier.Events
use reka_serdoba.Carrier.Events.{binary, Link}
use reka_serdoba.Handshake.Cursor
use reka_serdoba.Handshake.Hello
use reka_serdoba.Handshake.Messages
use reka_serdoba.Handshake.Auth
use reka_serdoba.Handshake.Exchange
use reka_serdoba.Handshake.Exchange.{
  ServerKeys, Draws, EstablishedSession, HandshakeKeys, establish,
}
use reka_serdoba.Handshake.Exchange.Stages
use reka_serdoba.Handshake.Exchange.Stages.{inner_handshake}
use reka_serdoba.Handshake.Exchange.Completed.{inner_handshake_ok}
use reka_serdoba.Handshake.Exchange.Outcome.{IsCompleted}
use reka_serdoba.Serving.{World, Metrics}
use reka_serdoba.Serving.Loop.{
  run_turns, carrier_ready, update_timer, outbound_ready, lifetime_over,
}
use reka_serdoba.Serving.Invariant.{IsServed}
use reka_serdoba.Serving.Invariant.Lifetime.{begin, run_turns-IsServed}

abbrev id : List ℕ
id = replicate 16 7

abbrev traffic_key : TrafficKey
traffic_key = record { key = replicate 32 1; iv = replicate 12 1 }

abbrev window : Replay.ReplayWindow
window = record { width = 4096; initialized = false; highest = 0; bits = replicate 64 0 }

abbrev layer : SessionRecordLayer
layer = record {
  c2s_data = record {
    kind = data_record;
    session_id = id;
    epoch = 0;
    key = traffic_key;
    replay = window;
  };
  s2c_data = Sender.new data_record id 0 traffic_key;
  c2s_control = record {
    kind = control_record;
    session_id = id;
    epoch = 0;
    key = traffic_key;
    replay = window;
  };
  s2c_control = Sender.new control_record id 0 traffic_key;
}

abbrev server : ServerKeys
server = record { server_signing = []; server_public = []; server_key_id = replicate 16 2 }

abbrev draws : Draws
draws = record {
  server_secret = [];
  server_nonce = replicate 32 4;
  session_id = id;
  hello_seconds = 1010;
  server_seconds = 1011;
  crypto_started = 0;
  policy_started = 0;
}

abbrev session : EstablishedSession
session = record {
  session_id = id;
  crypto = Session.start octets id (replicate 32 1) (replicate 32 6) 0 layer;
  fragments = Fragment.empty;
  policy = record {
    deadline = 3600000000000;
    quota = none;
    transferred = 0;
    bucket = record { rate = 1024; capacity = 16384; tokens = 16384; updated_at = 0 };
  };
  migration_secret = replicate 32 1;
  resumption_secret = replicate 32 1;
  exporter_secret = replicate 32 1;
}

abbrev the_keys : HandshakeKeys
the_keys = record {
  hk = replicate 32 5;
  c_hs_key = replicate 32 1;
  s_hs_key = replicate 32 1;
  c_hs_iv = replicate 12 1;
  s_hs_iv = replicate 12 1;
  c_finished = replicate 32 1;
  s_finished = replicate 32 1;
}

established : establish octets server draws the_client the_keys (replicate 32 6) ≡ ok session
unfolding establish Keys.derive_application_secrets Keys.derive_epoch_keys Keys.derive_traffic_key
    Keys.full_label Keys.expand Keys.fixed Session.new Layer.new Receiver.new Replay.new Policy.new
    Policy.burst to_be
established = refl

-- The three messages of the client; a ciphertext is its plaintext here.
abbrev link : Link
link = record {
  is_web_socket = true;
  incoming =
      ok (binary hello_message)
      ∷ ok (binary (4 ∷ 0 ∷ 0 ∷ 0 ∷ 0 ∷ 0 ∷ 0 ∷ 136 ∷ auth_message))
      ∷ ok (binary (6 ∷ 0 ∷ 0 ∷ 0 ∷ 0 ∷ 1 ∷ 0 ∷ 48 ∷ (id ++ replicate 32 4)))
      ∷ [];
  sent = [];
}

abbrev after : Link
after = (inner_handshake octets server draws the_client link).0

completed : inner_handshake octets server draws the_client link ≡ (after, ok session)
unfolding inner_handshake Stages.authenticate Exchange.greet Exchange.handshake_keys
    Exchange.accept_auth Exchange.finish_message Exchange.accept_confirm Exchange.establish
    Exchange.server_hello_body Exchange.server_signature Events.recv_binary Events.recv
    Events.send_binary Hello.parse_client_hello Hello.parse_body Hello.parse_tail
    Hello.clock_differs Cursor.new Cursor.word Cursor.fixed Cursor.skip Cursor.finish
    Cursor.take_bytes slice from_be to_be continue bytes_eq Digests.hmac_bytes Digests.hash_parts
    Digests.transcript_next Auth.verify_client_auth Auth.parse_auth Auth.check_auth Messages.key_id
    Messages.encode_handshake Messages.packet_nonce Messages.handshake_header
    Messages.assigned_parameters Messages.seal_handshake Messages.open_handshake
    Messages.expand_handshake_label Messages.transcript_initial Keys.nonce Keys.zip_xor
    Keys.derive_application_secrets Keys.derive_epoch_keys Keys.derive_traffic_key Keys.full_label
    Keys.expand Keys.fixed Session.new Layer.new Receiver.new Replay.new Policy.new Policy.burst
    Session.start
completed = refl

inner_handshake_ok_example : IsCompleted octets server draws the_client link after session
inner_handshake_ok_example =
    inner_handshake_ok octets octets_laws server draws the_client link after session completed

abbrev world : World
world = record { clock = λ n. n; random = λ n. replicate 32 0; accepts = λ packet. true }

abbrev no_counts : Metrics
no_counts = record {
  shaping_delay_micros_total = 0;
  routine_rekeys_total = 0;
  full_rekeys_total = 0;
  rekey_failed_total = 0;
  migrations_total = 0;
  migration_failed_total = 0;
}

run_turns-IsServed_example :
    IsServed
      (10 ∷ 0 ∷ 0 ∷ 2 ∷ [])
      none
      (run_turns octets world server the_client
        (update_timer ∷ outbound_ready [] ∷ carrier_ready ∷ lifetime_over ∷ [])
        (begin session link no_counts 0 0)).serving
run_turns-IsServed_example =
    run_turns-IsServed octets server draws the_client world the_keys (replicate 32 6) session link
      no_counts 0 0 (update_timer ∷ outbound_ready [] ∷ carrier_ready ∷ lifetime_over ∷ [])
      established
