-- ===== src/Handshake/Hello/Accepted.antt =====
-- `parse_client_hello` accepts exactly the messages of the layout.
use reka_serdoba.Common.{
  ℕ, ◌+◌, ◌-◌, ◌^◌, ◌≤◌, ◌<◌, ◌≡◌, ◌∙◌, ◌↔◌, ◌⊎◌, sym, ap, ap₂, refl, subst, inl, inr, true, false,
  not, ◌||◌, List, [], ◌∷◌, ◌++◌, append-nil, length, length-append, length-drop, length-slice,
  take, take-append, drop-append, suc, take-append-drop, All-drop, All-slice, get_or, drop, slice,
  ltb, ◌==◌, ==_iff, All-parts, Bool-cases, Result, ok, arith,
}
use reka_serdoba.Clocks.{IsNear, IsOpposite, is_near, is_far-near, is_far-opposite}
use reka_serdoba.Common.Steps.{continue}
use reka_serdoba.Common.Words.{
  IsByte, AreBytes, to_be, from_be, length-to_be, from_be-to_be, to_be-from_be, from_be_bound,
}
use reka_serdoba.Errors.{Error}
use reka_serdoba.Handshake.Cursor.{
  Cursor, IsAt, new, new-IsAt, fixed_reads, word_reads, skip_reads, finish-IsAt,
}
use reka_serdoba.Handshake.Hello.{
  ClientHello, clock_differs, parse_tail, parse_body, parse_client_hello,
}
use reka_serdoba.Handshake.Hello.Layout.{
  tail_bytes, hello_body, hello_bytes, IsHello, parse_body_ok,
}

parse_tail_reads :
    (now time : ℕ) (hello : ClientHello) (c : Cursor)
    → IsAt c (tail_bytes time)
    → time < 256 ^ 8
    → clock_differs now time ≡ false
    → (parse_tail now hello c).1 ≡ ok hello
unfolding parse_tail tail_bytes continue
parse_tail_reads now time hello c at lt clock = word_reads 8 time c _ _ _ at lt (λ c1 at1.
    rw clock (
      word_reads 2 0 c1 (to_be 2 0) _ _ at1 (omega arith) (λ c2 at2.
        skip_reads 0 c2 [] (to_be 2 0) _ _ at2 refl (λ c3 at3.
          word_reads 2 0 c3 [] _ _ (subst (IsAt c3) (sym (append-nil (to_be 2 0))) at3)
            (omega arith)
            (λ c4 at4.
              skip_reads 0 c4 [] [] _ _ at4 refl (λ c5 at5. rw (finish-IsAt c5 at5) refl))))))

parse_body_reads :
    (now time : ℕ) (h : ClientHello) (c : Cursor)
    → IsAt c (hello_body h time)
    → IsHello h
    → time < 256 ^ 8
    → clock_differs now time ≡ false
    → (parse_body now c).1 ≡ ok h
unfolding parse_body hello_body continue
parse_body_reads now time h c at sizes lt clock = word_reads 2 1 c _ _ _ at (omega arith) (λ c1 at1.
    word_reads 2 1 c1 _ _ _ at1 (omega arith) (λ c2 at2.
      fixed_reads 16 c2 h.handshake_id _ _ _ at2 sizes.handshake_id_len (λ c3 at3.
        fixed_reads 16 c3 h.client_id _ _ _ at3 sizes.client_id_len (λ c4 at4.
          fixed_reads 32 c4 h.client_ephemeral _ _ _ at4 sizes.client_ephemeral_len (λ c5 at5.
            fixed_reads 32 c5 h.client_nonce _ _ _ at5 sizes.client_nonce_len
              (λ c6 at6. parse_tail_reads now time h c6 at6 lt clock))))))

add_len : (n m : ℕ) (xs ys : List ℕ) → length xs ≡ n → length ys ≡ m → length (xs ++ ys) ≡ n + m
add_len n m xs ys h k = omega (arith, length-append {0} xs ys, h, k)

hello_body-len : (h : ClientHello) (time : ℕ) → IsHello h → length (hello_body h time) ≡ 112
unfolding hello_body tail_bytes
hello_body-len h time k = add_len 2 110 _ _ (length-to_be 2 1) (
    add_len 2 108 _ _ (length-to_be 2 1) (
      add_len 16 92 _ _ k.handshake_id_len (
        add_len 16 76 _ _ k.client_id_len (
          add_len 32 44 _ _ k.client_ephemeral_len (
            add_len 32 12 _ _ k.client_nonce_len (
              add_len 8 4 _ _ (length-to_be 8 time)
                (add_len 2 2 _ _ (length-to_be 2 0) (length-to_be 2 0))))))))

-- Type, length and body of a message of five bytes at least.
cut :
    (encoded : List ℕ)
    → 5 ≤ length encoded
    → get_or encoded 0 0 ≡ 1
    → encoded ≡ 1 ∷ (slice 1 5 encoded ++ drop 5 encoded)
unfolding slice
cut [] h e = absurd (omega arith)
cut (x ∷ xs) h e = ap₂ (λ (y : ℕ) (l : List ℕ). y ∷ l) e (sym (take-append-drop 4 xs))

accepted_body :
    (now : ℕ) (encoded : List ℕ) (h : ClientHello)
    → AreBytes encoded
    → 5 ≤ length encoded
    → get_or encoded 0 0 ≡ 1
    → from_be (slice 1 5 encoded) ≡ length encoded - 5
    → (parse_body now (new (drop 5 encoded))).1 ≡ ok h
    → (time : ℕ) × (encoded ≡ hello_bytes h time)
      × IsHello h
      × (clock_differs now time ≡ false)
      × (time < 256 ^ 8)
unfolding hello_bytes
accepted_body now encoded h bytes long first e parsed =
    let body : List ℕ = drop 5 encoded in
    let len : length body ≡ length encoded - 5 = length-drop {0} 5 encoded in
    let four : length (slice 1 5 encoded) ≡ 4 = length-slice 1 5 encoded (omega arith) long in
    let octets : AreBytes (slice 1 5 encoded) = All-slice IsByte 1 5 encoded bytes in
    let word : slice 1 5 encoded ≡ to_be 4 (length body) =
      sym (to_be-from_be 4 (slice 1 5 encoded) octets four) ∙ ap (to_be 4) (e ∙ sym len) in
    let small : length body < 2 ^ 64 =
      omega (arith, len, e, from_be_bound 4 (slice 1 5 encoded) octets four) in
    let x =
      parse_body_ok now h (new body) (parse_body now (new body)).0 body
        (new-IsAt body (All-drop IsByte 5 encoded bytes) small)
        (ap₂ (λ (a : Cursor) (b : Result Error ClientHello). (a, b)) refl parsed) in
    (
      x.0,
      cut encoded long first
          ∙ ap₂ (λ (a b : List ℕ). 1 ∷ (a ++ b))
              (word ∙ ap (λ (l : List ℕ). to_be 4 (length l)) x.1) x.1,
      x.2,
      x.3,
      x.4,
    )

parsed_bytes :
    (now time : ℕ) (h : ClientHello)
    → AreBytes (hello_bytes h time)
    → IsHello h
    → clock_differs now time ≡ false
    → time < 256 ^ 8
    → parse_client_hello now (hello_bytes h time) ≡ ok h
unfolding parse_client_hello hello_bytes slice
parsed_bytes now time h bytes sizes clock lt =
    let body : List ℕ = hello_body h time in
    let size : ℕ = length body in
    let len : size ≡ 112 = hello_body-len h time sizes in
    let four : length (to_be 4 size) ≡ 4 = length-to_be 4 size in
    let whole : length (to_be 4 size ++ body) ≡ 116 = add_len 4 112 _ _ four len in
    let long : ltb (suc (length (to_be 4 size ++ body))) 5 ≡ false = ground (arith, whole) in
    let word : take 4 (to_be 4 size ++ body) ≡ to_be 4 size =
      take-append 4 (to_be 4 size) body four in
    let back : drop 4 (to_be 4 size ++ body) ≡ body = drop-append 4 (to_be 4 size) body four in
    let number : from_be (to_be 4 size) ≡ size = from_be-to_be 4 size (omega (arith, len)) in
    let same : (size == suc (length (to_be 4 size ++ body)) - 5) ≡ true =
      ground (arith, whole, len) in
    rw (long, word, back, number, same)
      (parse_body_reads now time h (new body)
        (new-IsAt body (All-parts IsByte (to_be 4 size) body bytes.1).1 (omega (arith, len))) sizes
        lt clock)

-- The same, with the time as the code tests it.
parse_client_hello-tested :
    (now : ℕ) (encoded : List ℕ) (h : ClientHello)
    → AreBytes encoded
    → (parse_client_hello now encoded ≡ ok h) ↔ (
        (time : ℕ) × (encoded ≡ hello_bytes h time)
        × IsHello h
        × (clock_differs now time ≡ false)
        × (time < 256 ^ 8))
unfolding parse_client_hello hello_bytes
parse_client_hello-tested now encoded h bytes = (
  λ e. elim (Bool-cases (ltb (length encoded) 5 || not (get_or encoded 0 0 == 1))) [
    | inl p ↦ absurd (cc (rw (p, parse_client_hello) at e))
    | inr p ↦ elim (Bool-cases (from_be (slice 1 5 encoded) == length encoded - 5)) [
      | inr q ↦ absurd (cc (rw (p, parse_client_hello, q) at e))
      | inl q ↦
          accepted_body now encoded h bytes (ground (arith, p)) (ground (arith, p))
            ((==_iff (from_be (slice 1 5 encoded)) (length encoded - 5)).0 q)
            (rw (p, parse_client_hello, q) at e)
    ]
  ],
  λ x.
      subst (λ (l : List ℕ). parse_client_hello now l ≡ ok h) (sym x.1)
        (parsed_bytes now x.0 h (subst AreBytes x.1 bytes) x.2 x.3 x.4),
)

-- `parse_client_hello` accepts a byte string exactly when it is type 1, its length in four bytes,
-- version 1, suite 1, a handshake id and a client id of 16 bytes, a key and a nonce of 32, a time of
-- eight bytes that is at most 300 seconds from the clock or exactly 2^63 seconds after it, and an
-- empty cookie and no extensions, by a clock of 300 seconds or more that fits in 63 bits; and it gives the
-- values that stand there.
pub parse_client_hello_iff :
    (now : ℕ) (encoded : List ℕ) (h : ClientHello)
    → 300 ≤ now
    → now < 2 ^ 63
    → AreBytes encoded
    → (parse_client_hello now encoded ≡ ok h) ↔ (
        (time : ℕ) × (encoded ≡ hello_bytes h time)
        × IsHello h
        × (IsNear 300 now time ⊎ IsOpposite now time)
        × (time < 256 ^ 8))
unfolding clock_differs
parse_client_hello_iff now encoded h started now_max bytes =
    let (accepted, parsed) = parse_client_hello-tested now encoded h bytes in
    (
      λ e.
          let (time, layout, sizes, clock, time_max) = accepted e in
          (time, layout, sizes, is_near 300 now time started now_max time_max clock, time_max),
      λ x.
          let (time, layout, sizes, near, time_max) = x in
          parsed (
            time,
            layout,
            sizes,
            elim near [
              | inl close ↦ is_far-near 300 now time started now_max time_max close
              | inr opposite ↦ is_far-opposite 300 now time started now_max time_max opposite
            ],
            time_max,
          ),
    )
