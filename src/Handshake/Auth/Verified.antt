-- ===== src/Handshake/Auth/Verified.antt =====
-- What `verify_client_auth` has verified.
use reka_serdoba.Common.{
  ℕ, ◌+◌, ◌-◌, ◌^◌, ◌≤◌, ◌<◌, ◌≡◌, ◌∙◌, sym, ap, refl, subst, inl, inr, not, List, [], ◌++◌, length,
  take, ltb, bytes_eq→eq, Bool, true, false, Bool-cases, some, Option-cases, append-nil, Result, ok,
  arith,
}
use reka_serdoba.Common.Steps.{
  continue, continue-ok, continue_value, bail_then, lift_then, bail_last,
}
use reka_serdoba.Common.Words.{AreBytes, to_be, from_be}
use reka_serdoba.Errors.{Error}
use reka_serdoba.Crypto.{Crypto}
use reka_serdoba.Record.Keys.{codes}
use reka_serdoba.Rekey.Auth.{hmac_bytes}
use reka_serdoba.Handshake.Cursor.{Cursor, rest, IsAt, new, new-IsAt}
use reka_serdoba.Handshake.Cursor.Taken.{
  fixed_then, word_then, skip_then, finish_then, Read-len, Read-total, new_pos,
}
use reka_serdoba.Handshake.Hello.Layout.{word_is, value_is}
use reka_serdoba.Handshake.Messages.{key_id}
use reka_serdoba.Handshake.Auth.{
  Client, ClientAuth, parse_auth, signature_input, proof_input, check_auth, verify_client_auth,
}

-- The message as it was read: the parts of `auth`, four bytes of features, a maximal packet size
-- and extensions.
pub record IsParsed (plaintext : List ℕ) (auth : ClientAuth) : Type 0 where
  pub features : List ℕ
  pub mtu : ℕ
  pub extensions : List ℕ
  pub layout :
      plaintext
      ≡ auth.client_id
        ++ (auth.client_key_id
            ++ (features
                ++ (to_be 2 mtu
                    ++ (to_be 2 (length extensions)
                        ++ (extensions ++ (auth.signature_bytes ++ auth.received_finished))))))
  pub mtu_min : 1200 ≤ mtu
  pub mtu_max : mtu ≤ 1500
  pub extensions_max : length extensions ≤ 1024
  pub finished_offset : auth.finished_offset + 32 ≡ length plaintext

auth_of :
    {a b : ClientAuth} {s t : Cursor}
    → Path (Cursor × Result Error ClientAuth) (s, ok a) (t, ok b)
    → a ≡ b
auth_of p = cc p

parse_auth_ok :
    (plaintext : List ℕ) (auth : ClientAuth) (s : Cursor)
    → IsAt (new plaintext) plaintext
    → parse_auth (new plaintext) ≡ (s, ok auth)
    → IsParsed plaintext auth
unfolding parse_auth
parse_auth_ok plaintext auth s at e =
    fixed_then 16 (new plaintext) plaintext _ s auth at e (λ id e1.
      fixed_then 16 id.after (rest id.after) _ s auth id.stands e1 (λ key e2.
        word_then 4 key.after (rest key.after) _ s auth key.stands e2 (λ features e3.
          word_then 2 features.after (rest features.after) _ s auth features.stands e3 (λ mtu e4.
            bail_then _ _ _ _ s auth e4 (λ in_range e5.
              word_then 2 mtu.after (rest mtu.after) _ s auth mtu.stands e5 (λ size e6.
                bail_then _ _ _ _ s auth e6 (λ small e7.
                  skip_then (from_be size.value) size.after (rest size.after) _ s auth size.stands
                    e7
                    (λ extensions e8.
                      fixed_then 64 extensions.after (rest extensions.after) _ s auth
                        extensions.stands (continue_value _ _ _ e8)
                        (λ signature e9.
                          fixed_then 32 signature.after (rest signature.after) _ s auth
                            signature.stands (continue_value _ _ _ e9)
                            (λ finished e10.
                              finish_then finished.after _ s auth finished.stands e10 (λ done e11.
                                subst (IsParsed plaintext) (auth_of e11) (record {
                                  features = features.value;
                                  mtu = from_be mtu.value;
                                  extensions = extensions.value;
                                  layout = value_is 16 (new plaintext) plaintext _ id (
                                      value_is 16 id.after _ _ key (
                                        value_is 4 key.after _ _ features (
                                          word_is 2 (from_be mtu.value) features.after _ _ mtu refl
                                            (word_is 2 (length extensions.value) mtu.after _ _ size
                                              (sym extensions.len)
                                              (value_is _ size.after _ _ extensions (
                                                value_is 64 extensions.after _ _ signature (
                                                  value_is 32 signature.after _ [] finished done
                                                  ∙ append-nil finished.value)))))));
                                  mtu_min = ground (arith, in_range);
                                  mtu_max = ground (arith, in_range);
                                  extensions_max = ground (arith, small, extensions.len);
                                  finished_offset = omega (
                                    arith,
                                    new_pos plaintext,
                                    Read-total 16 (new plaintext) plaintext id
                                        ∙ Read-total 16 id.after _ key
                                        ∙ Read-total 4 key.after _ features
                                        ∙ Read-total 2 features.after _ mtu
                                        ∙ Read-total 2 mtu.after _ size
                                        ∙ Read-total _ size.after _ extensions
                                        ∙ Read-total 64 extensions.after _ signature,
                                    Read-len 32 signature.after _ finished,
                                    ap (λ (l : List ℕ). length l) done,
                                  );
                                }))))))))))))

-- The client of the session has sent the message: its parts are as they should be, the signature is
-- the client's over the handshake so far and the server's signature, and the last 32 bytes are a MAC
-- over all that is before them.
pub record IsAuthentic (c : Crypto) (plaintext : List ℕ) (client : Client)
    (t2 server_signature server_public finished_key : List ℕ) : Type 0 where
  pub auth : ClientAuth
  pub parsed : IsParsed plaintext auth
  pub id : auth.client_id ≡ client.id
  pub key : auth.client_key_id ≡ key_id c (codes "RekaSerdoba client key") client.public_key
  pub signed :
      c.ed25519_verify client.public_key
        (signature_input c t2 server_signature server_public client.id auth.client_key_id)
        auth.signature_bytes
      ≡ true
  pub proved :
      c.hmac_sha256 finished_key (proof_input c t2 (take (length plaintext - 32) plaintext))
      ≡ some auth.received_finished

pub holds : {b : Bool} → not b ≡ false → b ≡ true
holds {b = true} h = refl
holds {b = false} h = absurd (cc h)

-- A MAC that was computed.
pub hmac_bytes_ok :
    (c : Crypto) (key message mac : List ℕ)
    → hmac_bytes c key message ≡ ok mac
    → c.hmac_sha256 key message ≡ some mac
unfolding hmac_bytes
hmac_bytes_ok c key message mac e = elim (Option-cases (c.hmac_sha256 key message)) [
  | inl p ↦ absurd (cc (rw (p, hmac_bytes) at e))
  | inr (found, p) ↦ p ∙ ap some (same (rw (p, hmac_bytes) at e))
]
  where
    same : {found : List ℕ} → Path (Result Error (List ℕ)) (ok found) (ok mac) → found ≡ mac
    same q = cc q

module _ (c : Crypto) (plaintext : List ℕ) (client : Client)
    (t2 server_signature server_public finished_key : List ℕ) where
  checked :
      (auth : ClientAuth) (s t : Cursor)
      → IsParsed plaintext auth
      → check_auth c plaintext client t2 server_signature server_public finished_key auth s
        ≡ (t, ok tt)
      → IsAuthentic c plaintext client t2 server_signature server_public finished_key
  unfolding check_auth
  checked auth s t parsed e = bail_then _ _ _ _ t tt e (λ id e1.
      bail_then _ _ _ _ t tt e1 (λ key e2. bail_then _ _ _ _ t tt e2 (λ signed e3.
        bail_then _ _ _ _ t tt e3 (λ offsets e4. lift_then _ _ _ t tt e4 (λ expected mac e5.
          let same : auth.received_finished ≡ expected =
            bytes_eq→eq auth.received_finished expected (holds (bail_last _ _ _ t e5)) in
          let before : auth.finished_offset ≡ length plaintext - 32 =
            omega (arith, parsed.finished_offset) in
          record {
            auth = auth;
            parsed = parsed;
            id = bytes_eq→eq auth.client_id client.id (holds id);
            key = bytes_eq→eq auth.client_key_id _ (holds key);
            signed = holds signed;
            proved =
                ap (λ (n : ℕ). c.hmac_sha256 finished_key (proof_input c t2 (take n plaintext)))
                  (sym before)
                ∙ hmac_bytes_ok c finished_key _ expected mac
                ∙ ap some (sym same);
          })))))

  -- `verify_client_auth` accepts only what the client has sent: a message of the layout, with the id
  -- and the key id of the client, a signature that its key verifies over the handshake, the server's
  -- signature and the server's key, and a MAC over all that is before it.
  pub verify_client_auth_ok :
      AreBytes plaintext
      → length plaintext < 2 ^ 64
      → verify_client_auth c plaintext client t2 server_signature server_public finished_key ≡ ok tt
      → IsAuthentic c plaintext client t2 server_signature server_public finished_key
  unfolding verify_client_auth
  verify_client_auth_ok bytes short e =
      elim (Bool-cases (ltb (length plaintext) (16 + 16 + 4 + 2 + 2 + 64 + 32))) [
        | inl p ↦ absurd (cc (rw (p, verify_client_auth) at e))
        | inr p ↦
            run_ok (run.0)
              (ap (λ (r : Result Error (Unit {0})). (run.0, r)) (rw (p, verify_client_auth) at e))
      ]
    where
      run : Cursor × Result Error (Unit {0})
      run = continue (parse_auth (new plaintext)) (λ auth.
          check_auth c plaintext client t2 server_signature server_public finished_key auth)

      run_ok :
          (t : Cursor)
          → run ≡ (t, ok tt)
          → IsAuthentic c plaintext client t2 server_signature server_public finished_key
      run_ok t f =
          let x =
            continue-ok (parse_auth (new plaintext))
              (λ auth.
                check_auth c plaintext client t2 server_signature server_public finished_key auth)
              t tt f in
          checked x.0 (parse_auth (new plaintext)).0 t
            (parse_auth_ok plaintext x.0 (parse_auth (new plaintext)).0
              (new-IsAt plaintext bytes short)
              (ap (λ (r : Result Error ClientAuth). ((parse_auth (new plaintext)).0, r)) x.1))
            x.2
