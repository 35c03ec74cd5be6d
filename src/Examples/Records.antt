-- ===== src/Examples/Records.antt =====
-- The record layer at concrete inputs.
use reka_serdoba.Common.{
  ℕ, ◌≡◌, ◌≢◌, ◌↔◌, refl, true, false, List, [], ◌∷◌, ◌++◌, take, replicate, ok, err, arith,
}
use reka_serdoba.Common.Words.{to_be, from_be}
use reka_serdoba.Errors.{truncated_record_header}
use reka_serdoba.Examples.Toy.{toy, toy_laws}
use reka_serdoba.Record.Header.{RecordHeader, data_record, control_record, IsValid, encode, parse}
use reka_serdoba.Record.Header.RoundTrip.{parse_iff}
use reka_serdoba.Record.Keys.{TrafficKey, nonce}
use reka_serdoba.Record.Replay
use reka_serdoba.Record.Header.{version_flags, bad_flags, flag, kind_of}
use reka_serdoba.Common.{bytes_eq, slice}
use reka_serdoba.Record.Keys.{open_with, seal_with}
use reka_serdoba.Record.Sender
use reka_serdoba.Record.Sender.{RecordSender, header, seal, key_phase}
use reka_serdoba.Record.Sender.Numbers.{seal_all, nonces_differ}
use reka_serdoba.Record.Receiver
use reka_serdoba.Record.Receiver.{
  RecordReceiver, open_record, open_parsed, finish, context_mismatch,
}
use reka_serdoba.Record.Traffic.{open_all, new-open_all-IsDistinct}
use reka_serdoba.Record.Exchange.{exchange, intended, new-exchange}
use reka_serdoba.Record.Replay.{ReplayWindow, commit_authenticated}
use reka_serdoba.Record.Replay.History.{IsDistinct}
use reka_serdoba.Record.Replay.Window.{Committed, new-Represents, commit_authenticated-Committed}
use reka_serdoba.Record.Replay.Runs.{commit_all, commit_all-IsDistinct}

abbrev window : ReplayWindow
window = record { width = 256; initialized = false; highest = 0; bits = replicate 4 0 }

new-window : Replay.new 256 ≡ ok window
unfolding Replay.new
new-window = refl

-- The run of the source's test: 300 and 299 are accepted once, 44 is too old, 800 moves the window.
replay_run : (commit_all window [] (300 ∷ 299 ∷ 299 ∷ 44 ∷ 800 ∷ 300 ∷ [])).1 ≡ 800 ∷ 299 ∷ 300 ∷ []
unfolding commit_all commit_authenticated Replay.plausible Replay.mark Replay.advance
    Replay.clear_slots Replay.clear_slot
replay_run = refl

commit_authenticated-Committed_example : Committed window [] 300 (commit_authenticated window 300)
commit_authenticated-Committed_example =
    commit_authenticated-Committed window [] 300 (new-Represents 256 window new-window)

commit_all-IsDistinct_example : IsDistinct (commit_all window [] (300 ∷ 299 ∷ 299 ∷ [])).1
commit_all-IsDistinct_example = commit_all-IsDistinct 256 window (300 ∷ 299 ∷ 299 ∷ []) new-window

abbrev session : List ℕ
session = replicate 16 7

abbrev first_header : RecordHeader
first_header = record {
  kind = control_record;
  key_phase = true;
  padded = false;
  session_id = session;
  epoch = 3;
  number = 258;
  ciphertext_len = 17;
}

abbrev first_bytes : List ℕ
first_bytes = 0x1c ∷ (session ++ (0 ∷ 0 ∷ 0 ∷ 3 ∷ 0 ∷ 0 ∷ 0 ∷ 0 ∷ 0 ∷ 0 ∷ 1 ∷ 2 ∷ 0 ∷ 17 ∷ 99 ∷ []))

parse_first : parse first_bytes ≡ ok first_header
unfolding parse from_be bad_flags slice kind_of flag
parse_first = refl

parse_iff_example :
    (parse first_bytes ≡ ok first_header)
    ↔ (IsValid first_header × (encode first_header ≡ take 31 first_bytes))
parse_iff_example = parse_iff first_bytes first_header (omega arith)

abbrev data_key : TrafficKey
data_key = record { key = replicate 32 1; iv = replicate 12 2 }

abbrev sender : RecordSender
sender = record {
  kind = data_record;
  session_id = session;
  epoch = 0;
  key = data_key;
  next_number = 0;
}

abbrev sender_next : RecordSender
sender_next = record sender { next_number = 1 }

abbrev hello : List ℕ
hello = 104 ∷ 105 ∷ []

-- The record of `hello` with number 0.
hello_record : ℕ → List ℕ
hello_record n =
    encode (header (record sender { next_number = n }) hello false) ++ (hello ++ replicate 16 0)

seal-hello : seal toy sender hello false ≡ (sender_next, ok (hello_record 0))
unfolding seal hello_record seal_with
seal-hello = refl

seal_again :
    seal toy sender_next hello false ≡ (record sender { next_number = 2 }, ok (hello_record 1))
unfolding seal hello_record seal_with
seal_again = refl

nonces_differ_example :
    (sender_next.key ≡ sender.key)
    × (nonce sender.key.iv sender.next_number ≢ nonce sender_next.key.iv sender_next.next_number)
nonces_differ_example =
    nonces_differ toy sender sender_next sender_next (record sender { next_number = 2 }) hello hello
      false false (hello_record 0) (hello_record 1) [] refl seal-hello no_requests seal_again
  where
    no_requests : sender_next ≡ seal_all toy sender_next []
    no_requests = unfold seal_all in refl

abbrev receiver : RecordReceiver
receiver = record {
  kind = data_record;
  session_id = session;
  epoch = 0;
  key = data_key;
  replay = window;
}

new-receiver : Receiver.new data_record session 0 data_key 256 ≡ ok receiver
unfolding Receiver.new Replay.new
new-receiver = refl

new-open_all-IsDistinct_example :
    IsDistinct (open_all toy receiver [] (hello_record 0 ∷ hello_record 0 ∷ []))
new-open_all-IsDistinct_example =
    new-open_all-IsDistinct toy data_record session 0 data_key 256 receiver
      (hello_record 0 ∷ hello_record 0 ∷ []) new-receiver

new-exchange_example :
    exchange toy (Sender.new data_record session 0 data_key) receiver ((hello, false) ∷ [])
    ≡ intended toy (Sender.new data_record session 0 data_key) ((hello, false) ∷ [])
new-exchange_example =
    new-exchange toy data_record session 0 data_key 256 receiver ((hello, false) ∷ []) toy_laws refl
      (omega arith) (omega arith) new-receiver

-- The receiver once `hello` has arrived.
receiver_next : RecordReceiver
receiver_next = record receiver {
  replay = record window { initialized = true; bits = 1 ∷ 0 ∷ 0 ∷ 0 ∷ [] };
}

open_hello : open_record toy receiver (hello_record 0) ≡ (receiver_next, ok hello)
unfolding open_record open_parsed finish open_with seal parse encode header hello_record
    receiver_next to_be from_be version_flags context_mismatch bytes_eq key_phase
    commit_authenticated Replay.mark Replay.plausible kind_of bad_flags slice
open_hello = refl

open_short : open_record toy receiver [] ≡ (receiver, err truncated_record_header)
unfolding open_record parse
open_short = refl
