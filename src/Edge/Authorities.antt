-- ===== src/Edge/Authorities.antt =====
-- Requests for a tunnel (rekaserdoba/src/h3_edge.rs).
use reka_serdoba.Common.{
  ℕ, ◌-◌, ◌≡◌, ◌∙◌, refl, sym, ap, ap₂, ◌↔◌, ◌⊎◌, inl, inr, Bool, true, ◌&&◌, ◌||◌, Option, none,
  some, Option-cases, List, [], ◌∷◌, ◌++◌, length, length-append, take, drop, take-append,
  drop-append, take-append-drop, leb, ◌==◌, bytes_eq, bytes_eq→eq, bytes_eq_refl, Bool-cases, arith,
}
use reka_serdoba.Edge.{
  to_ascii_lowercase, eq_ignore_ascii_case, strip_suffix, port, is_same, authority_matches, Method,
  connect, get, head, other, Request, is_connect, is_for, is_tunnel_request,
}

abbrev pub lower : List ℕ → List ℕ
lower [] = []
lower (b ∷ bs) = to_ascii_lowercase b ∷ lower bs

eq_ignore_ascii_case-bytes_eq :
    (a b : List ℕ) → eq_ignore_ascii_case a b ≡ bytes_eq (lower a) (lower b)
unfolding eq_ignore_ascii_case bytes_eq
eq_ignore_ascii_case-bytes_eq [] [] = refl
eq_ignore_ascii_case-bytes_eq [] (b ∷ bs) = refl
eq_ignore_ascii_case-bytes_eq (a ∷ text) [] = refl
eq_ignore_ascii_case-bytes_eq (a ∷ text) (b ∷ bs) =
    ap (λ (r : Bool). (to_ascii_lowercase a == to_ascii_lowercase b) && r)
      (eq_ignore_ascii_case-bytes_eq text bs)

eq_ignore_ascii_case_iff : (a b : List ℕ) → (eq_ignore_ascii_case a b ≡ true) ↔ (lower a ≡ lower b)
eq_ignore_ascii_case_iff a b = (
  λ e. bytes_eq→eq (lower a) (lower b) (sym (eq_ignore_ascii_case-bytes_eq a b) ∙ e),
  λ e.
      eq_ignore_ascii_case-bytes_eq a b
      ∙ ap (λ (t : List ℕ). bytes_eq t (lower b)) e
      ∙ bytes_eq_refl (lower b),
)

strip_suffix-append : (suffix v : List ℕ) → strip_suffix suffix (v ++ suffix) ≡ some v
unfolding strip_suffix
strip_suffix-append suffix v =
    let count = length-append {0} v suffix in
    let before : length (v ++ suffix) - length suffix ≡ length v = omega (arith, count) in
    let long : leb (length suffix) (length (v ++ suffix)) ≡ true = ground (arith, count) in
    rw long (
      rw before (
        rw (drop-append (length v) v suffix refl)
          (rw (bytes_eq_refl suffix) (ap some (take-append (length v) v suffix refl)))))

strip_suffix_iff :
    (suffix text v : List ℕ) → (strip_suffix suffix text ≡ some v) ↔ (text ≡ v ++ suffix)
unfolding strip_suffix
strip_suffix_iff suffix text v = (
  λ e.
      let n : ℕ = length text - length suffix in
      elim (Bool-cases (leb (length suffix) (length text) && bytes_eq (drop n text) suffix)) [
        | inr differs ↦ absurd (cc (rw differs at e))
        | inl ends ↦
            let front : take n text ≡ v = cc (rw ends at e) in
            sym (take-append-drop n text)
            ∙ ap₂ (λ (x y : List ℕ). x ++ y) front
                (bytes_eq→eq (drop n text) suffix (ground (arith, ends)))
      ],
  λ e. ap (strip_suffix suffix) e ∙ strip_suffix-append suffix v,
)

-- Equal up to case, the first one with or without the port.
abbrev pub IsWithPort : List ℕ → List ℕ → Type 0
IsWithPort long short = (front : List ℕ) × (long ≡ front ++ port) × (lower front ≡ lower short)

is_same_iff :
    (long short : List ℕ) → (is_same (strip_suffix port long) short ≡ true) ↔ IsWithPort long short
is_same_iff long short = (
  λ e. elim (Option-cases (strip_suffix port long)) [
    | inl none_left ↦ absurd (cc (rw none_left at e))
    | inr (front, left) ↦ (
      front,
      (strip_suffix_iff port long front).0 left,
      (eq_ignore_ascii_case_iff front short).0 (rw left at e),
    )
  ],
  λ (front, made, same).
      ap (λ (o : Option (List ℕ)). is_same o short) ((strip_suffix_iff port long front).1 made)
      ∙ (eq_ignore_ascii_case_iff front short).1 same,
)

-- The two name the same host: they are equal up to case, or one of them is with the port 443 added.
abbrev pub IsSameHost : List ℕ → List ℕ → Type 0
IsSameHost received expected =
    (lower received ≡ lower expected)
    ⊎ (IsWithPort received expected ⊎ IsWithPort expected received)

authority_matches_iff :
    (received expected : List ℕ)
    → (authority_matches received expected ≡ true) ↔ IsSameHost received expected
unfolding authority_matches
authority_matches_iff received expected = (
  λ e. elim (Bool-cases (eq_ignore_ascii_case received expected)) [
    | inl same ↦ inl ((eq_ignore_ascii_case_iff received expected).0 same)
    | inr differ ↦ elim (Bool-cases (is_same (strip_suffix port received) expected)) [
      | inl longer ↦ inr (inl ((is_same_iff received expected).0 longer))
      | inr other_way ↦
          inr (inr ((is_same_iff expected received).0 (ground (arith, e, differ, other_way))))
    ]
  ],
  λ h. elim h [
    | inl same ↦ rw ((eq_ignore_ascii_case_iff received expected).1 same) refl
    | inr (inl longer) ↦ either_true _ _ _ (inr (inl ((is_same_iff received expected).1 longer)))
    | inr (inr shorter) ↦ either_true _ _ _ (inr (inr ((is_same_iff expected received).1 shorter)))
  ],
)
  where
    either_true : (a b c : Bool) → (a ≡ true) ⊎ ((b ≡ true) ⊎ (c ≡ true)) → (a || (b || c)) ≡ true
    either_true a b c h = ground (arith, h)

connect_only : (m : Method) → is_connect m ≡ true → m ≡ connect
connect_only connect e = refl
connect_only get e = absurd (cc e)
connect_only head e = absurd (cc e)
connect_only other e = absurd (cc e)

is_for_iff :
    (given : Option (List ℕ)) (authority : List ℕ)
    → (is_for given authority ≡ true)
      ↔ ((received : List ℕ) × (given ≡ some received) × IsSameHost received authority)
is_for_iff none authority = (λ e. absurd (cc e), λ (received, given, h). absurd (cc given))
is_for_iff (some text) authority = (
  λ e. (text, refl, (authority_matches_iff text authority).0 e),
  λ (received, given, h).
      ap (λ (o : Option (List ℕ)). is_for o authority) given
      ∙ (authority_matches_iff received authority).1 h,
)

-- A request is for a tunnel exactly when it is a CONNECT for WebTransport, to the path, and to the
-- authority: to the same text up to the case of ASCII letters, or the one is the other with the
-- port 443 added.
pub is_tunnel_request_iff :
    (request : Request) (authority path : List ℕ)
    → (is_tunnel_request request authority path ≡ true) ↔ (
        (request.method ≡ connect)
        × (request.is_web_transport ≡ true)
        × (request.path ≡ path)
        × ((received : List ℕ) × (request.authority ≡ some received)
            × IsSameHost received authority))
unfolding is_tunnel_request
is_tunnel_request_iff request authority path = (
  λ e.
      let (a, b, c, d) =
        all_true (is_connect request.method) request.is_web_transport (bytes_eq request.path path)
          (is_for request.authority authority) e in
      (
        connect_only request.method a,
        b,
        bytes_eq→eq request.path path c,
        (is_for_iff request.authority authority).0 d,
      ),
  λ (a, b, c, d).
      all_hold (is_connect request.method) request.is_web_transport (bytes_eq request.path path)
        (is_for request.authority authority) (ap is_connect a) b
        (ap (bytes_eq request.path) (sym c) ∙ bytes_eq_refl request.path)
        ((is_for_iff request.authority authority).1 d),
)
  where
    all_true :
        (a b c d : Bool)
        → (a && (b && (c && d))) ≡ true
        → (a ≡ true) × (b ≡ true) × (c ≡ true) × (d ≡ true)
    all_true a b c d e =
        (ground (arith, e), ground (arith, e), ground (arith, e), ground (arith, e))

    all_hold :
        (a b c d : Bool) → a ≡ true → b ≡ true → c ≡ true → d ≡ true → (a && (b && (c && d))) ≡ true
    all_hold a b c d ea eb ec ed = ground (arith, ea, eb, ec, ed)
