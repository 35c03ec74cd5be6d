-- ===== src/Record/Sender/Numbers.antt =====
-- What one `seal` does on each branch, and the numbers that a sender gives out over its lifetime.
use reka_serdoba.Common.{
  ℕ, ◌+◌, ◌≤◌, ◌<◌, ◌^◌, ◌≡◌, ◌≢◌, ◌∙◌, refl, sym, ap, subst, Bool, List, [], ◌∷◌, ◌++◌, length,
  Result-cases, inl, inr, ok, arith,
}
use reka_serdoba.Common.Words.{AreBytes}
use reka_serdoba.Crypto.{Crypto}
use reka_serdoba.Record.Header.{encode, parse, IsValid}
use reka_serdoba.Record.Header.RoundTrip.{parse-encode}
use reka_serdoba.Record.Keys.{TrafficKey, nonce, seal_with}
use reka_serdoba.Record.Keys.Nonce.{nonce_injective}
use reka_serdoba.Record.Sender.{RecordSender, header, seal, max_records_per_epoch}

-- The ranges of a sender's fields.
pub record IsSound (s : RecordSender) : Type 0 where
  pub session_id_len : length s.session_id ≡ 16
  pub session_id_bytes : AreBytes s.session_id
  pub epoch_u32 : s.epoch < 256 ^ 4
  pub number_bound : s.next_number ≤ max_records_per_epoch

-- What a successful `seal` has done.
pub record Sealed (c : Crypto) (s : RecordSender) (plaintext : List ℕ) (padded : Bool)
    (s' : RecordSender) (encoded : List ℕ) : Type 0 where
  pub ciphertext : List ℕ
  pub below_limit : s.next_number < max_records_per_epoch
  pub short : length plaintext + 16 ≤ 4096
  pub next : s' ≡ record s { next_number = s.next_number + 1 }
  pub encrypted :
      seal_with c s.key s.next_number (encode (header s plaintext padded)) plaintext ≡ ok ciphertext
  pub message : encoded ≡ encode (header s plaintext padded) ++ ciphertext

pub seal-Sealed :
    (c : Crypto) (s s' : RecordSender) (plaintext : List ℕ) (padded : Bool) (encoded : List ℕ)
    → seal c s plaintext padded ≡ (s', ok encoded)
    → Sealed c s plaintext padded s' encoded
unfolding seal
seal-Sealed c s s' plaintext padded encoded e =
    elim (Result-cases (seal_with c s.key s.next_number h plaintext)) [
      | inr (x, failed) ↦ absurd (ground arith)
      | inl (ciphertext, done) ↦ record {
        ciphertext = ciphertext;
        below_limit = ground arith;
        short = ground arith;
        next = ground arith;
        encrypted = done;
        message = ground arith;
      }
    ]
  where
    h : List ℕ
    h = encode (header s plaintext padded)

-- The header of a sealed record is in range.
pub header-IsValid :
    (s : RecordSender) (plaintext : List ℕ) (padded : Bool)
    → IsSound s
    → length plaintext + 16 ≤ 4096
    → IsValid (header s plaintext padded)
unfolding header
header-IsValid s plaintext padded h short = record {
  session_id_len = h.session_id_len;
  session_id_bytes = h.session_id_bytes;
  epoch_u32 = h.epoch_u32;
  number_u64 = omega (arith, h.number_bound);
  len_lower = omega arith;
  len_upper = omega arith;
}

-- A sealed record parses to its header: the sender's kind, session, epoch and next number, and the
-- length of the ciphertext that follows.
pub parse-seal :
    (c : Crypto) (s s' : RecordSender) (plaintext : List ℕ) (padded : Bool) (encoded : List ℕ)
    → IsSound s
    → seal c s plaintext padded ≡ (s', ok encoded)
    → parse encoded ≡ ok (header s plaintext padded)
parse-seal c s s' plaintext padded encoded h e =
    let d : Sealed c s plaintext padded s' encoded =
      seal-Sealed c s s' plaintext padded encoded e in
    ap parse d.message
    ∙ parse-encode (header s plaintext padded) d.ciphertext
        (header-IsValid s plaintext padded h d.short)

-- The counter never falls and never passes the limit; the other fields stay.
pub record Grows (s s' : RecordSender) : Type 0 where
  pub up : s.next_number ≤ s'.next_number
  pub bound : s'.next_number ≤ max_records_per_epoch
  pub same_kind : s'.kind ≡ s.kind
  pub same_session : s'.session_id ≡ s.session_id
  pub same_epoch : s'.epoch ≡ s.epoch
  pub same_key : s'.key ≡ s.key

pub seal-Grows :
    (c : Crypto) (s : RecordSender) (plaintext : List ℕ) (padded : Bool)
    → s.next_number ≤ max_records_per_epoch
    → Grows s (seal c s plaintext padded).0
unfolding seal
seal-Grows c s plaintext padded h = record {
  up = ground arith;
  bound = ground arith;
  same_kind = ground arith;
  same_session = ground arith;
  same_epoch = ground arith;
  same_key = ground arith;
}

-- The state after a list of requests, whatever their outcomes.
unfoldable pub seal_all : Crypto → RecordSender → List (List ℕ × Bool) → RecordSender
seal_all c s [] = s
seal_all c s ((plaintext, padded) ∷ requests) = seal_all c (seal c s plaintext padded).0 requests

seal_all-Grows :
    (c : Crypto) (s : RecordSender) (requests : List (List ℕ × Bool))
    → s.next_number ≤ max_records_per_epoch
    → Grows s (seal_all c s requests)
unfolding seal_all
seal_all-Grows c s [] h = record {
  up = omega arith;
  bound = h;
  same_kind = refl;
  same_session = refl;
  same_epoch = refl;
  same_key = refl;
}
seal_all-Grows c s ((plaintext, padded) ∷ requests) h =
    let g : Grows s (seal c s plaintext padded).0 = seal-Grows c s plaintext padded h in
    let m : Grows (seal c s plaintext padded).0
        (seal_all c (seal c s plaintext padded).0 requests) =
      seal_all-Grows c (seal c s plaintext padded).0 requests g.bound in
    record {
      up = omega (arith, g.up, m.up);
      bound = m.bound;
      same_kind = m.same_kind ∙ g.same_kind;
      same_session = m.same_session ∙ g.same_session;
      same_epoch = m.same_epoch ∙ g.same_epoch;
      same_key = m.same_key ∙ g.same_key;
    }

-- Under one key no nonce is used twice: two sealed records of one sender, with any requests in
-- between, have different nonces.
pub nonces_differ :
    (c : Crypto) (s s' t t' : RecordSender) (p q : List ℕ) (a b : Bool) (x y : List ℕ)
    (requests : List (List ℕ × Bool))
    → length s.key.iv ≡ 12
    → seal c s p a ≡ (s', ok x)
    → t ≡ seal_all c s' requests
    → seal c t q b ≡ (t', ok y)
    → (t.key ≡ s.key) × (nonce s.key.iv s.next_number ≢ nonce t.key.iv t.next_number)
nonces_differ c s s' t t' p q a b x y requests iv first later second = (same, differ)
  where
    d : Sealed c s p a s' x
    d = seal-Sealed c s s' p a x first

    u : Sealed c t q b t' y
    u = seal-Sealed c t t' q b y second

    g : Grows s' t
    g =
        subst (Grows s') (sym later)
          (seal_all-Grows c s' requests (ground (arith, d.next, d.below_limit)))

    same : t.key ≡ s.key
    same = g.same_key ∙ ap (λ (r : RecordSender). r.key) d.next

    differ : nonce s.key.iv s.next_number ≢ nonce t.key.iv t.next_number
    differ e = absurd (
        ground (
          arith,
          d.next,
          g.up,
          nonce_injective s.key.iv s.next_number t.next_number iv (omega (arith, d.below_limit))
              (omega (arith, u.below_limit))
              (e ∙ ap (λ (k : TrafficKey). nonce k.iv t.next_number) same),
        ))
