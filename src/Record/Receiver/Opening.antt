-- ===== src/Record/Receiver/Opening.antt =====
-- What `open` does: a record that is refused changes nothing, and one that is opened is committed.
use reka_serdoba.Common.{
  ℕ, ◌+◌, ◌≡◌, ◌≢◌, ◌∙◌, sym, ap, subst, true, false, List, ◌∷◌, length, take, drop, Result-cases,
  inl, inr, ok, err, arith,
}
use reka_serdoba.Errors.{Error, record_replayed}
use reka_serdoba.Crypto.{Crypto}
use reka_serdoba.Record.Header.{RecordHeader, parse, record_header_len}
use reka_serdoba.Record.Keys.{open_with}
use reka_serdoba.Record.Replay.{ReplayWindow, plausible, commit_authenticated}
use reka_serdoba.Record.Replay.History.{fresh}
use reka_serdoba.Record.Replay.Window.{
  Represents, Committed, commit_authenticated-Committed, plausible-fresh,
}
use reka_serdoba.Record.Replay.Runs.{plausible-commit}
use reka_serdoba.Record.Receiver.{
  RecordReceiver, context_mismatch, finish, open_parsed, open_record,
}

-- What a successful `open` has checked and done.
pub record Opened (c : Crypto) (r : RecordReceiver) (encoded : List ℕ) (r' : RecordReceiver)
    (plaintext : List ℕ) : Type 0 where
  pub header : RecordHeader
  pub parsed : parse encoded ≡ ok header
  pub context : context_mismatch r header ≡ false
  pub len : length encoded ≡ record_header_len + header.ciphertext_len
  pub authentic :
      open_with c r.key header.number
        (take record_header_len encoded)
        (drop record_header_len encoded)
      ≡ ok plaintext
  pub acceptable : plausible r.replay header.number ≡ true
  pub committed : r' ≡ record r { replay = (commit_authenticated r.replay header.number).0 }

open_parsed-Opened :
    (c : Crypto) (r r' : RecordReceiver) (encoded plaintext : List ℕ) (h : RecordHeader)
    → parse encoded ≡ ok h
    → open_parsed c r encoded h ≡ (r', ok plaintext)
    → Opened c r encoded r' plaintext
open_parsed-Opened c r r' encoded plaintext h p e =
    elim (Result-cases (
      open_with c r.key h.number (take record_header_len encoded)
        (drop record_header_len encoded))) [
          | inr (x, failed) ↦ absurd (unfold open_parsed finish in ground arith)
          | inl (text, done) ↦
              unfold open_parsed finish in
              record {
                header = h;
                parsed = p;
                context = ground arith;
                len = ground arith;
                authentic = ground arith;
                acceptable = ground arith;
                committed = ground arith;
              }
        ]

pub open_record-Opened :
    (c : Crypto) (r r' : RecordReceiver) (encoded plaintext : List ℕ)
    → open_record c r encoded ≡ (r', ok plaintext)
    → Opened c r encoded r' plaintext
open_record-Opened c r r' encoded plaintext e = elim (Result-cases (parse encoded)) [
  | inr (x, failed) ↦ absurd (unfold open_record in ground arith)
  | inl (h, p) ↦
      open_parsed-Opened c r r' encoded plaintext h p
        (unfold open_record in rw (p, open_record) at e)
]

-- A record that was opened had a number that was fresh, and that the window now has.
pub open_record-commits :
    (c : Crypto) (r r' : RecordReceiver) (history encoded plaintext : List ℕ)
    → Represents r.replay history
    → (o : Opened c r encoded r' plaintext)
    → (fresh r.replay.width history o.header.number ≡ true)
      × Represents r'.replay (o.header.number ∷ history)
      × (r'.replay.width ≡ r.replay.width)
open_record-commits c r r' history encoded plaintext rep o = (
  now_fresh,
  subst (λ (w : ReplayWindow). Represents w (o.header.number ∷ history)) (sym moved)
      (rw (k.answer ∙ now_fresh) at (k.state)),
  ap (λ (w : ReplayWindow). w.width) moved ∙ k.width,
)
  where
    k : Committed r.replay history o.header.number (commit_authenticated r.replay o.header.number)
    k = commit_authenticated-Committed r.replay history o.header.number rep

    now_fresh : fresh r.replay.width history o.header.number ≡ true
    now_fresh = sym (plausible-fresh r.replay history o.header.number rep) ∙ o.acceptable

    moved : r'.replay ≡ (commit_authenticated r.replay o.header.number).0
    moved = ap (λ (x : RecordReceiver). x.replay) o.committed

open_parsed-error :
    (c : Crypto) (r r' : RecordReceiver) (history encoded : List ℕ) (x : Error) (h : RecordHeader)
    → Represents r.replay history
    → open_parsed c r encoded h ≡ (r', err x)
    → (r' ≡ r) × (x ≢ record_replayed)
open_parsed-error c r r' history encoded x h rep e =
    elim (Result-cases (
      open_with c r.key h.number (take record_header_len encoded)
        (drop record_header_len encoded))) [
          | inr (y, failed) ↦
              unfold open_parsed finish open_with in (ground arith, λ same. absurd (ground arith))
          | inl (text, done) ↦
              unfold open_parsed finish in
              (
                ground (arith, plausible-commit r.replay history h.number rep),
                λ same. absurd (ground (arith, plausible-commit r.replay history h.number rep)),
              )
        ]

parse-ne-record_replayed : (encoded : List ℕ) → parse encoded ≢ err record_replayed
unfolding parse
parse-ne-record_replayed encoded e = ground arith

-- On every input, an error leaves the receiver as it was, and the error is never that of the
-- second replay check: the first one has answered already.
pub open_record-error :
    (c : Crypto) (r r' : RecordReceiver) (history encoded : List ℕ) (x : Error)
    → Represents r.replay history
    → open_record c r encoded ≡ (r', err x)
    → (r' ≡ r) × (x ≢ record_replayed)
unfolding open_record
open_record-error c r r' history encoded x rep e = elim (Result-cases (parse encoded)) [
  | inr (y, failed) ↦ (ground arith, λ same. parse-ne-record_replayed encoded (ground arith))
  | inl (h, p) ↦ open_parsed-error c r r' history encoded x h rep (rw (p, open_record) at e)
]
