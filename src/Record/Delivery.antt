-- ===== src/Record/Delivery.antt =====
-- A sender and a receiver that share a context: what is sealed can be opened, and only once.
use reka_serdoba.Common.{
  ℕ, ◌+◌, ◌≡◌, ◌∙◌, refl, ap, Bool, true, false, bytes_eq_refl, Option-cases, List, ◌∷◌, length,
  length-append, take, drop, take-append, drop-append, inl, inr, ok, err, arith,
}
use reka_serdoba.Errors.{record_rejected_by_replay_precheck}
use reka_serdoba.Crypto.{Crypto, AeadLaws}
use reka_serdoba.Record.Header.{
  RecordHeader, RecordKind, data_record, control_record, IsValid, encode, record_header_len,
}
use reka_serdoba.Record.Header.RoundTrip.{encode_len}
use reka_serdoba.Record.Keys.{open_with, seal_with, nonce}
use reka_serdoba.Record.Replay.{commit_authenticated}
use reka_serdoba.Record.Replay.History.{fresh}
use reka_serdoba.Record.Replay.Window.{Represents, plausible-fresh}
use reka_serdoba.Record.Replay.Runs.{plausible-commit}
use reka_serdoba.Record.Sender.{RecordSender, header, seal, key_phase}
use reka_serdoba.Record.Sender.Numbers.{IsSound, header-IsValid, Sealed, seal-Sealed, parse-seal}
use reka_serdoba.Record.Receiver.{
  RecordReceiver, same_kind, same_bool, context_mismatch, finish, open_parsed, open_record,
}
use reka_serdoba.Record.Receiver.Opening.{Opened, open_record-Opened, open_record-commits}

-- The two ends agree on the kind, the session, the epoch and the key.
pub record Matches (s : RecordSender) (r : RecordReceiver) : Type 0 where
  pub kind : r.kind ≡ s.kind
  pub session_id : r.session_id ≡ s.session_id
  pub epoch : r.epoch ≡ s.epoch
  pub key : r.key ≡ s.key

same_kind_refl : (k : RecordKind) → same_kind k k ≡ true
same_kind_refl data_record = refl
same_kind_refl control_record = refl

same_bool_refl : (b : Bool) → same_bool b b ≡ true
same_bool_refl true = refl
same_bool_refl false = refl

no_mismatch :
    (s : RecordSender) (r : RecordReceiver) (plaintext : List ℕ) (padded : Bool)
    → Matches s r
    → context_mismatch r (header s plaintext padded) ≡ false
unfolding context_mismatch header
no_mismatch s r plaintext padded m =
    rw (m.kind, m.session_id, m.epoch)
      (ground (
        arith,
        same_kind_refl s.kind,
        bytes_eq_refl s.session_id,
        same_bool_refl (key_phase s.epoch),
      ))

-- What `seal` wrote, `open_with` reads under the same key.
seal_with-open_with :
    (c : Crypto) (s : RecordSender) (h plaintext ciphertext : List ℕ)
    → AeadLaws c
    → seal_with c s.key s.next_number h plaintext ≡ ok ciphertext
    → (open_with c s.key s.next_number h ciphertext ≡ ok plaintext)
      × (length ciphertext ≡ length plaintext + 16)
seal_with-open_with c s h plaintext ciphertext laws e =
    elim (Option-cases (c.aead_encrypt s.key.key (nonce s.key.iv s.next_number) h plaintext)) [
      | inl failed ↦ absurd (unfold seal_with in ground arith)
      | inr (out, done) ↦
          unfold seal_with open_with in
          let same : out ≡ ciphertext = ground arith in
          (
            ground (
              arith,
              laws.decrypt_encrypt s.key.key (nonce s.key.iv s.next_number) h plaintext out done,
            ),
            ground (
              arith,
              same,
              laws.encrypt_len s.key.key (nonce s.key.iv s.next_number) h plaintext out done,
            ),
          )
    ]

module _ (c : Crypto) (laws : AeadLaws c) (s s' : RecordSender) (r : RecordReceiver)
    (history plaintext encoded : List ℕ) (padded : Bool) (sound : IsSound s) (matches : Matches s r)
    (rep : Represents r.replay history)
    (sealed : seal c s plaintext padded ≡ (s', ok encoded)) where
  abbrev head : RecordHeader
  head = header s plaintext padded

  abbrev done : Sealed c s plaintext padded s' encoded
  done = seal-Sealed c s s' plaintext padded encoded sealed

  valid : IsValid head
  valid = header-IsValid s plaintext padded sound done.short

  front : take record_header_len encoded ≡ encode head
  front =
      ap (take 31) done.message
      ∙ take-append 31 (encode head) done.ciphertext (encode_len head valid)

  back : drop record_header_len encoded ≡ done.ciphertext
  back =
      ap (drop 31) done.message
      ∙ drop-append 31 (encode head) done.ciphertext (encode_len head valid)

  decrypted :
      (open_with c s.key s.next_number (encode head) done.ciphertext ≡ ok plaintext)
      × (length done.ciphertext ≡ length plaintext + 16)
  decrypted = seal_with-open_with c s (encode head) plaintext done.ciphertext laws done.encrypted

  opened :
      open_with c r.key s.next_number
        (take record_header_len encoded)
        (drop record_header_len encoded)
      ≡ ok plaintext
  opened = rw (matches.key, front, back) decrypted.0

  right_len : length encoded ≡ record_header_len + head.ciphertext_len
  right_len =
      unfold header in
      omega (
        arith,
        ap length done.message,
        length-append {0} (encode head) done.ciphertext,
        encode_len head valid,
        decrypted.1,
        done.short,
      )

  -- A sealed record is opened by the matching receiver, if its number is fresh there. The receiver
  -- then has committed the number.
  pub open_record-seal :
      fresh r.replay.width history s.next_number ≡ true
      → open_record c r encoded
        ≡ (record r { replay = (commit_authenticated r.replay s.next_number).0 }, ok plaintext)
  unfolding open_record commit_authenticated
  open_record-seal is_fresh =
      rw (parse-seal c s s' plaintext padded encoded sound sealed, open_record)
        (unfold open_parsed header finish in
          ground (
            arith,
            no_mismatch s r plaintext padded matches,
            right_len,
            opened,
            is_fresh,
            plausible-fresh r.replay history s.next_number rep,
            plausible-commit r.replay history s.next_number rep,
          ))

-- A record that was opened is refused when it arrives again, and the receiver stays as it is.
open_record-again :
    (c : Crypto) (r r' : RecordReceiver) (history encoded plaintext : List ℕ)
    → Represents r.replay history
    → open_record c r encoded ≡ (r', ok plaintext)
    → open_record c r' encoded ≡ (r', err record_rejected_by_replay_precheck)
unfolding open_record
open_record-again c r r' history encoded plaintext rep e =
    rw (o.parsed, open_record)
      (unfold open_parsed in
        ground (
          arith,
          o.context,
          same_context,
          o.len,
          plausible-fresh r'.replay (o.header.number ∷ history) o.header.number committed.1,
        ))
  where
    o : Opened c r encoded r' plaintext
    o = open_record-Opened c r r' encoded plaintext e

    committed :
        (fresh r.replay.width history o.header.number ≡ true)
        × Represents r'.replay (o.header.number ∷ history)
        × (r'.replay.width ≡ r.replay.width)
    committed = open_record-commits c r r' history encoded plaintext rep o

    same_context : context_mismatch r' o.header ≡ context_mismatch r o.header
    same_context = unfold context_mismatch in rw o.committed refl
