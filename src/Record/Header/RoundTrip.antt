-- ===== src/Record/Header/RoundTrip.antt =====
-- A header that is parsed is the one that was encoded, and the other way round.
use reka_serdoba.Common.{
  ℕ, zero, suc, ◌-◌, ◌^◌, ◌≤◌, ◌<◌, ◌≡◌, ◌↔◌, refl, sym, ap, ◌∙◌, false, List, [], ◌∷◌, ◌++◌,
  append_assoc, length, length-append, get_or, take, drop, take-append-drop, slice,
  slice-append_left, slice-append_right, slice_join, length-slice, All-slice, ltb, ok, arith,
}
use reka_serdoba.Common.Words.{
  IsByte, AreBytes, to_be, from_be, length-to_be, from_be-to_be, from_be_bound, to_be-from_be,
}
use reka_serdoba.Record.Header.{
  RecordHeader, IsValid, encode, parse, version_flags, bad_flags, flag, kind_of, max_ciphertext_len,
}
use reka_serdoba.Record.Header.Flags.{bad_flags-version_flags, flags_read, version_flags_back}

-- A byte, five fields.
abbrev message : ℕ → List ℕ → List ℕ → List ℕ → List ℕ → List ℕ → List ℕ
message v s e n l rest = v ∷ (s ++ (e ++ (n ++ (l ++ rest))))

-- The ranges of a message that starts with a byte and fields of 16, 4, 8 and 2 bytes.
module _ (v : ℕ) (s e n l rest : List ℕ) (ls : length s ≡ 16) (le : length e ≡ 4)
    (ln : length n ≡ 8) (ll : length l ≡ 2) where
  abbrev head : List ℕ
  head = v ∷ []

  range_session_id : slice 1 17 (message v s e n l rest) ≡ s
  range_session_id =
      slice-append_right 1 1 17 head _ refl (omega arith) ∙ slice-append_left 16 s _ ls

  range_epoch : slice 17 21 (message v s e n l rest) ≡ e
  range_epoch =
      slice-append_right 1 17 21 head _ refl (omega arith)
      ∙ slice-append_right 16 16 20 s _ ls (omega arith)
      ∙ slice-append_left 4 e _ le

  range_number : slice 21 29 (message v s e n l rest) ≡ n
  range_number =
      slice-append_right 1 21 29 head _ refl (omega arith)
      ∙ slice-append_right 16 20 28 s _ ls (omega arith)
      ∙ slice-append_right 4 4 12 e _ le (omega arith)
      ∙ slice-append_left 8 n _ ln

  range_len : slice 29 31 (message v s e n l rest) ≡ l
  range_len =
      slice-append_right 1 29 31 head _ refl (omega arith)
      ∙ slice-append_right 16 28 30 s _ ls (omega arith)
      ∙ slice-append_right 4 12 14 e _ le (omega arith)
      ∙ slice-append_right 8 8 10 n _ ln (omega arith)
      ∙ slice-append_left 2 l _ ll

  message_long : 31 ≤ length (message v s e n l rest)
  message_long = omega (
    arith,
    length-append {0} s (e ++ (n ++ (l ++ rest))),
    length-append {0} e (n ++ (l ++ rest)),
    length-append {0} n (l ++ rest),
    length-append {0} l rest,
  )

encode-append :
    (h : RecordHeader) (rest : List ℕ)
    → encode h ++ rest
      ≡ message
          (version_flags h.kind h.key_phase h.padded)
          h.session_id
          (to_be 4 h.epoch)
          (to_be 8 h.number)
          (to_be 2 h.ciphertext_len)
          rest
unfolding encode
encode-append h rest = simp append_assoc

too_short : (xs : List ℕ) → 31 ≤ length xs → ltb (length xs) 31 ≡ false
too_short xs h = ground arith

-- What `parse` makes of such a message.
module _ (v : ℕ) (s e n l rest : List ℕ) (ls : length s ≡ 16) (le : length e ≡ 4)
    (ln : length n ≡ 8) (ll : length l ≡ 2) where
  parse_message :
      bad_flags v ≡ false
      → 16 ≤ from_be l
      → from_be l ≤ max_ciphertext_len
      → parse (message v s e n l rest)
        ≡ ok (record {
          kind = kind_of v;
          key_phase = flag v 0x04;
          padded = flag v 0x02;
          session_id = s;
          epoch = from_be e;
          number = from_be n;
          ciphertext_len = from_be l;
        })
  unfolding parse
  parse_message flags lower upper = ground (
    arith,
    message_long v s e n l rest ls le ln ll,
    flags,
    range_session_id v s e n l rest ls le ln ll,
    range_epoch v s e n l rest ls le ln ll,
    range_number v s e n l rest ls le ln ll,
    range_len v s e n l rest ls le ln ll,
  )

-- A header survives encoding and parsing, whatever follows it.
pub parse-encode : (h : RecordHeader) (rest : List ℕ) → IsValid h → parse (encode h ++ rest) ≡ ok h
parse-encode h rest valid =
    ap parse (encode-append h rest)
    ∙ parse_message v h.session_id (to_be 4 h.epoch) (to_be 8 h.number) (to_be 2 h.ciphertext_len)
        rest valid.session_id_len (length-to_be 4 _) (length-to_be 8 _) (length-to_be 2 _)
        (bad_flags-version_flags h.kind h.key_phase h.padded)
        (omega (arith, len_back, valid.len_lower)) (omega (arith, len_back, valid.len_upper))
    ∙ cc (
      (flags_read h.kind h.key_phase h.padded).0,
      (flags_read h.kind h.key_phase h.padded).1,
      (flags_read h.kind h.key_phase h.padded).2,
      len_back,
      from_be-to_be 4 h.epoch valid.epoch_u32,
      from_be-to_be 8 h.number valid.number_u64,
    )
  where
    v : ℕ
    v = version_flags h.kind h.key_phase h.padded

    len_back : from_be (to_be 2 h.ciphertext_len) ≡ h.ciphertext_len
    len_back = from_be-to_be 2 h.ciphertext_len (omega (arith, valid.len_upper))

pub encode_len : (h : RecordHeader) → IsValid h → length (encode h) ≡ 31
unfolding encode
encode_len h v = omega (
  arith,
  length-append {0} h.session_id
      (to_be 4 h.epoch ++ (to_be 8 h.number ++ to_be 2 h.ciphertext_len)),
  length-append {0} (to_be 4 h.epoch) (to_be 8 h.number ++ to_be 2 h.ciphertext_len),
  length-append {0} (to_be 8 h.number) (to_be 2 h.ciphertext_len),
  length-to_be 4 h.epoch,
  length-to_be 8 h.number,
  length-to_be 2 h.ciphertext_len,
  v.session_id_len,
)

-- What a successful `parse` has checked and read.
record Parsed (e : List ℕ) (h : RecordHeader) : Type 0 where
  long : 31 ≤ length e
  flags : bad_flags (get_or e 0 0) ≡ false
  lower : 16 ≤ h.ciphertext_len
  upper : h.ciphertext_len ≤ max_ciphertext_len
  kind : h.kind ≡ kind_of (get_or e 0 0)
  key_phase : h.key_phase ≡ flag (get_or e 0 0) 0x04
  padded : h.padded ≡ flag (get_or e 0 0) 0x02
  session_id : h.session_id ≡ slice 1 17 e
  epoch : h.epoch ≡ from_be (slice 17 21 e)
  number : h.number ≡ from_be (slice 21 29 e)
  ciphertext_len : h.ciphertext_len ≡ from_be (slice 29 31 e)

parse-Parsed : (e : List ℕ) (h : RecordHeader) → parse e ≡ ok h → Parsed e h
unfolding parse
parse-Parsed e h p = ground arith

first_byte : (e : List ℕ) → 1 ≤ length e → get_or e 0 0 ∷ [] ≡ slice 0 1 e
unfolding slice
first_byte [] h = absurd (omega arith)
first_byte (x ∷ e) h = refl

get_or-IsByte : (e : List ℕ) (i : ℕ) → AreBytes e → get_or e i 0 < 256
get_or-IsByte [] i h = omega arith
get_or-IsByte (x ∷ e) zero h = h.0
get_or-IsByte (x ∷ e) (suc i) h = get_or-IsByte e i h.1

-- The five ranges of a header make up its 31 bytes.
ranges_join :
    (e : List ℕ)
    → slice 0 1 e ++ (slice 1 17 e ++ (slice 17 21 e ++ (slice 21 29 e ++ slice 29 31 e)))
      ≡ take 31 e
ranges_join e =
    rw
      (
        slice_join 21 29 31 e (omega arith) (omega arith),
        slice_join 17 21 31 e (omega arith) (omega arith),
        slice_join 1 17 31 e (omega arith) (omega arith),
        slice_join 0 1 31 e (omega arith) (omega arith),
      )
      (unfold slice in refl)

-- A word of the message, written again.
word_back :
    (k a b : ℕ) (e : List ℕ)
    → AreBytes e
    → a ≤ b
    → b ≤ length e
    → b - a ≡ k
    → to_be k (from_be (slice a b e)) ≡ slice a b e
word_back k a b e h le long d =
    to_be-from_be k (slice a b e) (All-slice IsByte a b e h)
      (omega (arith, length-slice {0} a b e le long))

word_bound :
    (k a b : ℕ) (e : List ℕ)
    → AreBytes e
    → a ≤ b
    → b ≤ length e
    → b - a ≡ k
    → from_be (slice a b e) < 256 ^ k
word_bound k a b e h le long d =
    from_be_bound k (slice a b e) (All-slice IsByte a b e h)
      (omega (arith, length-slice {0} a b e le long))

module _ (e : List ℕ) (h : RecordHeader) (bytes : AreBytes e) (p : Parsed e h) where
  Parsed-IsValid : IsValid h
  Parsed-IsValid = record {
    session_id_len =
        rw p.session_id
          (omega (arith, length-slice {0} 1 17 e (omega arith) (omega (arith, p.long))));
    session_id_bytes = rw p.session_id (All-slice IsByte 1 17 e bytes);
    epoch_u32 = rw p.epoch (word_bound 4 17 21 e bytes (omega arith) (omega (arith, p.long)) refl);
    number_u64 =
        rw p.number (word_bound 8 21 29 e bytes (omega arith) (omega (arith, p.long)) refl);
    len_lower = p.lower;
    len_upper = p.upper;
  }

  Parsed-encode : encode h ≡ take 31 e
  unfolding encode
  Parsed-encode =
      rw
        (
          p.kind,
          p.key_phase,
          p.padded,
          p.session_id,
          p.epoch,
          p.number,
          p.ciphertext_len,
          version_flags_back (get_or e 0 0) (get_or-IsByte e 0 bytes) p.flags,
          word_back 4 17 21 e bytes (omega arith) (omega (arith, p.long)) refl,
          word_back 8 21 29 e bytes (omega arith) (omega (arith, p.long)) refl,
          word_back 2 29 31 e bytes (omega arith) (omega (arith, p.long)) refl,
        )
        (ap
            (λ (t : List ℕ).
              t ++ (slice 1 17 e ++ (slice 17 21 e ++ (slice 21 29 e ++ slice 29 31 e))))
            (first_byte e (omega (arith, p.long)))
          ∙ ranges_join e)

-- On a byte string `parse` gives a header exactly when that header is in range and the string
-- starts with its encoding.
pub parse_iff :
    (e : List ℕ) (h : RecordHeader)
    → AreBytes e
    → (parse e ≡ ok h) ↔ (IsValid h × (encode h ≡ take 31 e))
parse_iff e h bytes = (
  (λ eq.
      let p : Parsed e h = parse-Parsed e h eq in
      (Parsed-IsValid e h bytes p, Parsed-encode e h bytes p)),
  (λ v.
      ap parse (sym (take-append-drop 31 e) ∙ ap (λ (t : List ℕ). t ++ drop 31 e) (sym v.1))
      ∙ parse-encode h (drop 31 e) v.0),
)
