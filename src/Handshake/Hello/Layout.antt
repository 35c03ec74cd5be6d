-- ===== src/Handshake/Hello/Layout.antt =====
-- The bytes that `parse_client_hello` accepts.
use reka_serdoba.Common.{
  ℕ, ◌^◌, ◌<◌, ◌≡◌, ◌∙◌, sym, ap, ap₂, refl, subst, false, not, List, [], ◌∷◌, ◌++◌, append-nil,
  length, ◌==◌, Result, ok, arith,
}
use reka_serdoba.Common.Steps.{bail_then}
use reka_serdoba.Common.Words.{to_be, from_be, to_be-from_be, from_be_bound}
use reka_serdoba.Errors.{Error}
use reka_serdoba.Handshake.Cursor.{Cursor, rest, IsAt}
use reka_serdoba.Handshake.Cursor.Taken.{Read, fixed_then, word_then, skip_then, finish_then}
use reka_serdoba.Handshake.Hello.{
  ClientHello, clock_differs, parse_tail, parse_body, protocol_version, cipher_suite,
}

-- The body of a message with an empty cookie and no extensions.
unfoldable pub tail_bytes : ℕ → List ℕ
tail_bytes time = to_be 8 time ++ (to_be 2 0 ++ to_be 2 0)

unfoldable pub hello_body : ClientHello → ℕ → List ℕ
hello_body h time =
    to_be 2 protocol_version
    ++ (to_be 2 cipher_suite
        ++ (h.handshake_id
            ++ (h.client_id ++ (h.client_ephemeral ++ (h.client_nonce ++ tail_bytes time)))))

-- `CLIENT_HELLO`: its type, the length of the body, and the body.
unfoldable pub hello_bytes : ClientHello → ℕ → List ℕ
hello_bytes h time = 0x01 ∷ (to_be 4 (length (hello_body h time)) ++ hello_body h time)

pub record IsHello (h : ClientHello) : Type 0 where
  pub handshake_id_len : length h.handshake_id ≡ 16
  pub client_id_len : length h.client_id ≡ 16
  pub client_ephemeral_len : length h.client_ephemeral ≡ 32
  pub client_nonce_len : length h.client_nonce ≡ 32

-- A word that was read, when its value is known.
pub word_is :
    (n w : ℕ) (c : Cursor) (xs ys : List ℕ) (r : Read n c xs)
    → from_be r.value ≡ w
    → rest r.after ≡ ys
    → xs ≡ to_be n w ++ ys
word_is n w c xs ys r e f =
    r.split
    ∙ ap₂ (λ (v l : List ℕ). v ++ l) (sym (to_be-from_be n r.value r.octets r.len) ∙ ap (to_be n) e)
        f

-- Nothing is skipped.
skip_is :
    (n : ℕ) (c : Cursor) (xs ys : List ℕ) (r : Read n c xs) → n ≡ 0 → rest r.after ≡ ys → xs ≡ ys
skip_is n c xs ys r e f = r.split ∙ ap₂ (λ (v l : List ℕ). v ++ l) (empty r.value (r.len ∙ e)) f
  where
    empty : (l : List ℕ) → length l ≡ 0 → l ≡ []
    empty [] k = refl
    empty (x ∷ l) k = absurd (omega arith)

pub value_is :
    (n : ℕ) (c : Cursor) (xs ys : List ℕ) (r : Read n c xs) → rest r.after ≡ ys → xs ≡ r.value ++ ys
value_is n c xs ys r f = r.split ∙ ap (λ (l : List ℕ). r.value ++ l) f

zero_of : (n : ℕ) → not (n == 0) ≡ false → n ≡ 0
zero_of n h = ground (arith, h)

same_of : (n m : ℕ) → not (n == m) ≡ false → n ≡ m
same_of n m h = ground (arith, h)

hello_of :
    {h h' : ClientHello} {s t : Cursor}
    → Path (Cursor × Result Error ClientHello) (s, ok h) (t, ok h')
    → h ≡ h'
hello_of p = cc p

parse_tail_ok :
    (now : ℕ) (hello h : ClientHello) (c s : Cursor) (xs : List ℕ)
    → IsAt c xs
    → parse_tail now hello c ≡ (s, ok h)
    → (hello ≡ h)
      × (time : ℕ) × (xs ≡ tail_bytes time)
      × (clock_differs now time ≡ false)
      × (time < 256 ^ 8)
unfolding parse_tail tail_bytes
parse_tail_ok now hello h c s xs at e = word_then 8 c xs _ s h at e (λ time e1.
    bail_then _ _ _ _ s h e1 (λ clock e2.
      word_then 2 time.after (rest time.after) _ s h time.stands e2 (λ retry e3.
        bail_then _ _ _ _ s h e3 (λ small e4. bail_then _ _ _ _ s h e4 (λ no_retry e5.
          skip_then (from_be retry.value) retry.after (rest retry.after) _ s h retry.stands e5
            (λ skipped e6.
              word_then 2 skipped.after (rest skipped.after) _ s h skipped.stands e6
                (λ extension e7. bail_then _ _ _ _ s h e7 (λ small' e8.
                  bail_then _ _ _ _ s h e8 (λ no_extension e9.
                    skip_then (from_be extension.value) extension.after (rest extension.after) _ s h
                      extension.stands e9
                      (λ skipped' e10.
                        finish_then skipped'.after _ s h skipped'.stands e10 (λ done e11.
                          let retry_zero = zero_of (from_be retry.value) no_retry in
                          let extension_zero = zero_of (from_be extension.value) no_extension in
                          (
                            hello_of e11,
                            from_be time.value,
                            word_is 8 (from_be time.value) c xs (to_be 2 0 ++ to_be 2 0) time refl (
                                word_is 2 0 time.after _ (to_be 2 0) retry retry_zero (
                                  skip_is _ retry.after _ (to_be 2 0) skipped retry_zero (
                                    word_is 2 0 skipped.after _ [] extension extension_zero
                                      (skip_is _ extension.after _ [] skipped' extension_zero done)
                                    ∙ append-nil (to_be 2 0)))),
                            clock,
                            from_be_bound 8 time.value time.octets time.len,
                          ))))))))))))

-- The values of a message are those of the record, of their lengths.
abbrev IsBody : ℕ → ClientHello → List ℕ → Type 0
IsBody now h xs =
    (time : ℕ) × (xs ≡ hello_body h time)
    × IsHello h
    × (clock_differs now time ≡ false)
    × (time < 256 ^ 8)

pub parse_body_ok :
    (now : ℕ) (h : ClientHello) (c s : Cursor) (xs : List ℕ)
    → IsAt c xs
    → parse_body now c ≡ (s, ok h)
    → IsBody now h xs
unfolding parse_body hello_body
parse_body_ok now h c s xs at e = word_then 2 c xs _ s h at e (λ version e1.
    bail_then _ _ _ _ s h e1 (λ is_version e2.
      word_then 2 version.after (rest version.after) _ s h version.stands e2 (λ suite e3.
        bail_then _ _ _ _ s h e3 (λ is_suite e4.
          fixed_then 16 suite.after (rest suite.after) _ s h suite.stands e4 (λ id e5.
            fixed_then 16 id.after (rest id.after) _ s h id.stands e5 (λ client e6.
              fixed_then 32 client.after (rest client.after) _ s h client.stands e6 (λ key e7.
                fixed_then 32 key.after (rest key.after) _ s h key.stands e7 (λ nonce e8.
                  let x = parse_tail_ok now _ h nonce.after s _ nonce.stands e8 in
                  subst (λ (g : ClientHello). IsBody now g xs) x.0
                    (
                      x.1,
                      word_is 2 protocol_version c xs _ version
                          (same_of _ protocol_version is_version)
                          (word_is 2 cipher_suite version.after _ _ suite
                            (same_of _ cipher_suite is_suite)
                            (value_is 16 suite.after _ _ id (
                              value_is 16 id.after _ _ client (
                                value_is 32 client.after _ _ key
                                  (value_is 32 key.after _ _ nonce x.2))))),
                      record {
                        handshake_id_len = id.len;
                        client_id_len = client.len;
                        client_ephemeral_len = key.len;
                        client_nonce_len = nonce.len;
                      },
                      x.3,
                      x.4,
                    )))))))))
