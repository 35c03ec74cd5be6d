-- ===== src/Record/Exchange.antt =====
-- A sender's records arriving in order at the receiver of its context.
use reka_serdoba.Common.{
  ℕ, ◌^◌, ◌<◌, ◌≡◌, ◌∙◌, refl, sym, ap, subst, Bool, true, false, List, [], ◌∷◌, length, Result, ok,
  err, arith,
}
use reka_serdoba.Errors.{Error}
use reka_serdoba.Crypto.{Crypto, AeadLaws}
use reka_serdoba.Record.Header.{RecordKind}
use reka_serdoba.Record.Keys.{TrafficKey}
use reka_serdoba.Record.Replay.{commit_authenticated}
use reka_serdoba.Record.Replay.History.{maximum, is_empty, fresh, contains-le-maximum}
use reka_serdoba.Record.Replay.Window.{Represents, Committed, commit_authenticated-Committed}
use reka_serdoba.Common.Words.{AreBytes}
use reka_serdoba.Record.Sender
use reka_serdoba.Record.Sender.{RecordSender, seal, max_records_per_epoch}
use reka_serdoba.Record.Sender.Numbers.{IsSound, Sealed, seal-Sealed, Grows, seal-Grows}
use reka_serdoba.Record.Receiver.{RecordReceiver, new, open_record}
use reka_serdoba.Record.Delivery.{Matches, open_record-seal}
use reka_serdoba.Record.Traffic.{new-Represents_nothing}

-- Messages sealed one after the other, each record opened as soon as it is sealed; the results.
unfoldable pub exchange :
    Crypto → RecordSender → RecordReceiver → List (List ℕ × Bool) → List (Result Error (List ℕ))
exchange c s r [] = []
exchange c s r ((plaintext, padded) ∷ rest) =
    let (s', sealed) = seal c s plaintext padded in
    elim sealed [
      | ok encoded ↦ (let (r', opened) = open_record c r encoded in opened ∷ exchange c s' r' rest)
      | err x ↦ err x ∷ exchange c s' r rest
    ]

-- What the receiver should get: each message that was sealed, as it was.
unfoldable pub intended :
    Crypto → RecordSender → List (List ℕ × Bool) → List (Result Error (List ℕ))
intended c s [] = []
intended c s ((plaintext, padded) ∷ rest) =
    let (s', sealed) = seal c s plaintext padded in
    elim sealed [
      | ok encoded ↦ ok plaintext ∷ intended c s' rest
      | err x ↦ err x ∷ intended c s' rest
    ]

-- The receiver is behind the sender.
record InStep (s : RecordSender) (r : RecordReceiver) (history : List ℕ) : Type 0 where
  sound : IsSound s
  matches : Matches s r
  represents : Represents r.replay history
  behind : is_empty history ≡ false → maximum history < s.next_number

next-fresh :
    (s : RecordSender) (r : RecordReceiver) (history : List ℕ)
    → InStep s r history
    → s.next_number < max_records_per_epoch
    → fresh r.replay.width history s.next_number ≡ true
next-fresh s r history i below =
    ground (arith, i.behind, i.represents.width_pos, contains-le-maximum s.next_number history)

Grows-IsSound : (s s' : RecordSender) → IsSound s → Grows s s' → IsSound s'
Grows-IsSound s s' h g = record {
  session_id_len = rw g.same_session h.session_id_len;
  session_id_bytes = rw g.same_session h.session_id_bytes;
  epoch_u32 = rw g.same_epoch h.epoch_u32;
  number_bound = g.bound;
}

Grows-Matches : (s s' : RecordSender) (r : RecordReceiver) → Matches s r → Grows s s' → Matches s' r
Grows-Matches s s' r m g = record {
  kind = m.kind ∙ sym g.same_kind;
  session_id = m.session_id ∙ sym g.same_session;
  epoch = m.epoch ∙ sym g.same_epoch;
  key = m.key ∙ sym g.same_key;
}

module _ (c : Crypto) (laws : AeadLaws c) (s s' : RecordSender) (r : RecordReceiver)
    (history plaintext : List ℕ) (padded : Bool) (i : InStep s r history) where
  -- A refused message leaves the ends in step.
  refused-InStep : (x : Error) → seal c s plaintext padded ≡ (s', err x) → InStep s' r history
  refused-InStep x e = record {
    sound = Grows-IsSound s s' i.sound g;
    matches = Grows-Matches s s' r i.matches g;
    represents = i.represents;
    behind = λ some_history. omega (arith, i.behind some_history, g.up);
  }
    where
      g : Grows s s'
      g =
          subst (Grows s) (ap (λ (p : RecordSender × Result Error (List ℕ)). p.0) e)
            (seal-Grows c s plaintext padded i.sound.number_bound)

  -- A sealed message is opened, and the ends are in step again.
  sealed-InStep :
      (encoded : List ℕ)
      → seal c s plaintext padded ≡ (s', ok encoded)
      → (r' : RecordReceiver) × (open_record c r encoded ≡ (r', ok plaintext))
        × InStep s' r' (s.next_number ∷ history)
  sealed-InStep encoded e = (
    record r { replay = (commit_authenticated r.replay s.next_number).0 },
    open_record-seal c laws s s' r history plaintext encoded padded i.sound i.matches i.represents e
        is_fresh,
    record {
      sound = Grows-IsSound s s' i.sound g;
      matches = record {
        kind = (Grows-Matches s s' r i.matches g).kind;
        session_id = (Grows-Matches s s' r i.matches g).session_id;
        epoch = (Grows-Matches s s' r i.matches g).epoch;
        key = (Grows-Matches s s' r i.matches g).key;
      };
      represents = rw (k.answer ∙ is_fresh) at (k.state);
      behind = λ _. ground (arith, i.behind, d.next);
    },
  )
    where
      d : Sealed c s plaintext padded s' encoded
      d = seal-Sealed c s s' plaintext padded encoded e

      is_fresh : fresh r.replay.width history s.next_number ≡ true
      is_fresh = next-fresh s r history i d.below_limit

      g : Grows s s'
      g =
          subst (Grows s) (ap (λ (p : RecordSender × Result Error (List ℕ)). p.0) e)
            (seal-Grows c s plaintext padded i.sound.number_bound)

      k : Committed r.replay history s.next_number (commit_authenticated r.replay s.next_number)
      k = commit_authenticated-Committed r.replay history s.next_number i.represents

-- In-order delivery: between matching ends that are in step, each message that is sealed arrives
-- as it was, and each that is not is reported to the sender alone.
exchange-intended :
    (c : Crypto) (laws : AeadLaws c) (s : RecordSender) (r : RecordReceiver) (history : List ℕ)
    (messages : List (List ℕ × Bool))
    → InStep s r history
    → exchange c s r messages ≡ intended c s messages
unfolding exchange intended
exchange-intended c laws s r history [] i = refl
exchange-intended c laws s r history ((plaintext, padded) ∷ rest) i =
    go (seal c s plaintext padded).0 (seal c s plaintext padded).1 refl
      (λ s' r' h i'. exchange-intended c laws s' r' h rest i')
  where
    go :
        (s' : RecordSender) (sealed : Result Error (List ℕ))
        → seal c s plaintext padded ≡ (s', sealed)
        → ((t : RecordSender) (u : RecordReceiver) (h : List ℕ)
            → InStep t u h
            → exchange c t u rest ≡ intended c t rest)
        → ◌≡◌ {A = List (Result Error (List ℕ))}
            (elim sealed [
              | ok encoded ↦
                  (let (r', opened) = open_record c r encoded in opened ∷ exchange c s' r' rest)
              | err x ↦ err x ∷ exchange c s' r rest
            ])
            (elim sealed [
              | ok encoded ↦ ok plaintext ∷ intended c s' rest
              | err x ↦ err x ∷ intended c s' rest
            ])
    go s' (err x) e more =
        ap (λ (l : List (Result Error (List ℕ))). err x ∷ l)
          (more s' r history (refused-InStep c laws s s' r history plaintext padded i x e))
    go s' (ok encoded) e more =
        let (r', opened, i') = sealed-InStep c laws s s' r history plaintext padded i encoded e in
        rw opened (
          ap (λ (l : List (Result Error (List ℕ))). ok plaintext ∷ l)
            (more s' r' (s.next_number ∷ history) i'))

-- Between a new sender and a new receiver of one context, each message that is sealed arrives as
-- it was, in order, and the receiver refuses none.
pub new-exchange :
    (c : Crypto) (kind : RecordKind) (session_id : List ℕ) (epoch : ℕ) (key : TrafficKey)
    (width : ℕ) (r : RecordReceiver) (messages : List (List ℕ × Bool))
    → AeadLaws c
    → length session_id ≡ 16
    → AreBytes session_id
    → epoch < 2 ^ 32
    → new kind session_id epoch key width ≡ ok r
    → exchange c (Sender.new kind session_id epoch key) r messages
      ≡ intended c (Sender.new kind session_id epoch key) messages
new-exchange c kind session_id epoch key width r messages laws len bytes small e =
    exchange-intended c laws (Sender.new kind session_id epoch key) r [] messages (record {
      sound =
          unfold Sender.new in
          record {
            session_id_len = len;
            session_id_bytes = bytes;
            epoch_u32 = small;
            number_bound = omega arith;
          };
      matches =
          unfold Sender.new new in
          record {
            kind = ground arith;
            session_id = ground arith;
            epoch = ground arith;
            key = ground arith;
          };
      represents = new-Represents_nothing kind session_id epoch key width r e;
      behind = λ some_history. absurd (cc some_history);
    })
