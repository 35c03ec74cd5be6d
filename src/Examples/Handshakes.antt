-- ===== src/Examples/Handshakes.antt =====
-- A handshake from end to end, and the session that it makes.
use reka_serdoba.Common.{
  ℕ, ◌⊎◌, ◌^◌, ◌<◌, ◌≡◌, ◌↔◌, refl, List, [], ◌∷◌, ◌++◌, replicate, slice, bytes_eq, ok, arith,
}
use reka_serdoba.Clocks.{IsNear, IsOpposite}
use reka_serdoba.Common.Steps.{continue}
use reka_serdoba.Common.Words.{to_be, from_be}
use reka_serdoba.Examples.Toy.{toy, toy_laws, octets}
use reka_serdoba.Rekey.Auth as Digests
use reka_serdoba.Handshake.Cursor
use reka_serdoba.Handshake.Hello
use reka_serdoba.Handshake.Hello.{ClientHello, parse_client_hello, clock_differs}
use reka_serdoba.Handshake.Hello.Layout.{hello_bytes, IsHello}
use reka_serdoba.Handshake.Hello.Accepted.{parse_client_hello_iff}
use reka_serdoba.Handshake.Auth
use reka_serdoba.Handshake.Auth.{Client, verify_client_auth}
use reka_serdoba.Handshake.Auth.Verified.{IsAuthentic, verify_client_auth_ok}
use reka_serdoba.Handshake.Messages
use reka_serdoba.Handshake.Messages.{seal_handshake, open_handshake}
use reka_serdoba.Handshake.Messages.RoundTrip.{seal_handshake-open}

abbrev pub the_client : Client
the_client = record {
  id = replicate 16 1;
  gate_key = [];
  public_key = [];
  tunnel_ipv4 = 10 ∷ 0 ∷ 0 ∷ 2 ∷ [];
  session_lifetime_seconds = 3600;
  bandwidth_bytes_per_second = 1024;
  session_quota_bytes = 0;
}

abbrev pub hello : ClientHello
hello = record {
  handshake_id = replicate 16 8;
  client_id = replicate 16 1;
  client_ephemeral = replicate 32 9;
  client_nonce = replicate 32 3;
}

-- The hello, byte by byte, at the second 1000.
abbrev pub hello_message : List ℕ
hello_message =
    1
    ∷ 0
    ∷ 0
    ∷ 0
    ∷ 112
    ∷ 0
    ∷ 1
    ∷ 0
    ∷ 1
    ∷ (replicate 16 8
        ++ (replicate 16 1
            ++ (replicate 32 9
                ++ (replicate 32 3 ++ (0 ∷ 0 ∷ 0 ∷ 0 ∷ 0 ∷ 0 ∷ 3 ∷ 232 ∷ 0 ∷ 0 ∷ 0 ∷ 0 ∷ [])))))

parsed : parse_client_hello 1100 hello_message ≡ ok hello
unfolding parse_client_hello Hello.parse_body Hello.parse_tail Cursor.new Cursor.word Cursor.fixed
    Cursor.skip Cursor.finish Cursor.take_bytes clock_differs slice from_be continue
parsed = refl

parse_client_hello_iff_example : (parse_client_hello 1100 hello_message ≡ ok hello) ↔ (
    (time : ℕ) × (hello_message ≡ hello_bytes hello time)
    × IsHello hello
    × (IsNear 300 1100 time ⊎ IsOpposite 1100 time)
    × (time < 256 ^ 8))
parse_client_hello_iff_example =
    parse_client_hello_iff 1100 hello_message hello (omega arith) (omega arith) (omega arith)

seal_handshake-open_example :
    (open_handshake toy []
        (replicate 12 0)
        0x05
        0
        []
        (5 ∷ 0 ∷ 0 ∷ 0 ∷ 0 ∷ 0 ∷ 0 ∷ 17 ∷ 33 ∷ replicate 16 0)
      ≡ ok (33 ∷ []))
    × ((key' iv' : List ℕ) (type' sequence' : ℕ) (transcript' other : List ℕ)
        → open_handshake toy key' iv' type' sequence' transcript'
            (5 ∷ 0 ∷ 0 ∷ 0 ∷ 0 ∷ 0 ∷ 0 ∷ 17 ∷ 33 ∷ replicate 16 0)
          ≡ ok other
        → (type' ≡ 0x05) × (sequence' ≡ 0))
seal_handshake-open_example =
    seal_handshake-open toy toy_laws [] (replicate 12 0) 0x05 0 [] (33 ∷ [])
      (5 ∷ 0 ∷ 0 ∷ 0 ∷ 0 ∷ 0 ∷ 0 ∷ 17 ∷ 33 ∷ replicate 16 0) (omega arith) sealed
  where
    sealed :
        seal_handshake toy [] (replicate 12 0) 0x05 0 [] (33 ∷ [])
        ≡ ok (5 ∷ 0 ∷ 0 ∷ 0 ∷ 0 ∷ 0 ∷ 0 ∷ 17 ∷ 33 ∷ replicate 16 0)
    sealed = unfold seal_handshake Messages.packet_nonce Messages.handshake_header to_be in refl

-- The client's proof: features, a packet size of 1280 and no extensions.
abbrev pub auth_message : List ℕ
auth_message =
    replicate 16 1
    ++ (replicate 16 6 ++ (0 ∷ 0 ∷ 0 ∷ 0 ∷ 5 ∷ 0 ∷ 0 ∷ 0 ∷ (replicate 64 7 ++ replicate 32 4)))

verify_client_auth_ok_example : IsAuthentic octets auth_message the_client [] [] [] []
verify_client_auth_ok_example =
    verify_client_auth_ok octets auth_message the_client [] [] [] [] (omega arith) (omega arith)
      verified
  where
    verified : verify_client_auth octets auth_message the_client [] [] [] [] ≡ ok tt
    verified =
        unfold verify_client_auth Auth.parse_auth Auth.check_auth Cursor.new Cursor.word
          Cursor.fixed Cursor.skip Cursor.finish Cursor.take_bytes Messages.key_id slice from_be
          continue bytes_eq Digests.hmac_bytes Digests.hash_parts in
        refl
