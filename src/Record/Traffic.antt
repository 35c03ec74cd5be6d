-- ===== src/Record/Traffic.antt =====
-- Any traffic at a receiver.
use reka_serdoba.Common.{
  ℕ, ◌≡◌, refl, sym, subst, List, [], ◌∷◌, Result-cases, inl, inr, Result, ok, err, arith,
}
use reka_serdoba.Errors.{Error}
use reka_serdoba.Crypto.{Crypto}
use reka_serdoba.Record.Header.{RecordKind, parse}
use reka_serdoba.Record.Keys.{TrafficKey}
use reka_serdoba.Record.Replay
use reka_serdoba.Record.Replay.{ReplayWindow, commit_authenticated}
use reka_serdoba.Record.Replay.History.{IsDistinct, fresh-not_contained}
use reka_serdoba.Record.Replay.Window.{Represents, new-Represents}
use reka_serdoba.Record.Receiver.{RecordReceiver, new, open_record}
use reka_serdoba.Record.Receiver.Opening.{
  Opened, open_record-Opened, open_record-commits, open_record-error,
}

-- The number in a record's header.
unfoldable pub number_of : List ℕ → ℕ
number_of encoded = elim (parse encoded) [ ok h ↦ h.number | err x ↦ 0 ]

-- The numbers of the records that are opened, the last one first.
unfoldable pub open_all : Crypto → RecordReceiver → List ℕ → List (List ℕ) → List ℕ
open_all c r log [] = log
open_all c r log (encoded ∷ rest) =
    let (r', result) = open_record c r encoded in
    open_all c r' (elim result [ ok plaintext ↦ number_of encoded ∷ log | err x ↦ log ]) rest

open_all-IsDistinct :
    (c : Crypto) (r : RecordReceiver) (log : List ℕ) (traffic : List (List ℕ))
    → Represents r.replay log
    → IsDistinct log
    → IsDistinct (open_all c r log traffic)
unfolding open_all
open_all-IsDistinct c r log [] rep d = d
open_all-IsDistinct c r log (encoded ∷ rest) rep d =
    go (open_record c r encoded).0 (open_record c r encoded).1 refl
      (λ r' log' rep' d'. open_all-IsDistinct c r' log' rest rep' d')
  where
    go :
        (r' : RecordReceiver) (result : Result Error (List ℕ))
        → open_record c r encoded ≡ (r', result)
        → ((u : RecordReceiver) (l : List ℕ)
            → Represents u.replay l
            → IsDistinct l
            → IsDistinct (open_all c u l rest))
        → IsDistinct (
            open_all c r'
              (elim result [ ok plaintext ↦ number_of encoded ∷ log | err x ↦ log ])
              rest)
    go r' (err x) e more =
        more r' log
          (subst (λ (u : RecordReceiver). Represents u.replay log)
            (sym (open_record-error c r r' log encoded x rep e).0) rep)
          d
    go r' (ok plaintext) e more =
        let o : Opened c r encoded r' plaintext = open_record-Opened c r r' encoded plaintext e in
        let k = open_record-commits c r r' log encoded plaintext rep o in
        let number : number_of encoded ≡ o.header.number =
          unfold number_of in rw (o.parsed, number_of) refl in
        more r' (number_of encoded ∷ log) (rw number k.1)
          (rw number (fresh-not_contained r.replay.width log o.header.number k.0), d)

pub new-Represents_nothing :
    (kind : RecordKind) (session_id : List ℕ) (epoch : ℕ) (key : TrafficKey) (width : ℕ)
    (r : RecordReceiver)
    → new kind session_id epoch key width ≡ ok r
    → Represents r.replay []
new-Represents_nothing kind session_id epoch key width r e =
    elim (Result-cases (Replay.new width)) [
      | inr (x, failed) ↦ absurd (unfold new in ground arith)
      | inl (w, made) ↦
          let same : w ≡ r.replay = unfold new in ground arith in
          subst (λ (u : ReplayWindow). Represents u []) same (new-Represents width w made)
    ]

-- Whatever arrives at a new receiver, in whatever order, no two of the records that it opens have
-- the same number.
pub new-open_all-IsDistinct :
    (c : Crypto) (kind : RecordKind) (session_id : List ℕ) (epoch : ℕ) (key : TrafficKey)
    (width : ℕ) (r : RecordReceiver) (traffic : List (List ℕ))
    → new kind session_id epoch key width ≡ ok r
    → IsDistinct (open_all c r [] traffic)
new-open_all-IsDistinct c kind session_id epoch key width r traffic e =
    open_all-IsDistinct c r [] traffic (new-Represents_nothing kind session_id epoch key width r e)
      tt
