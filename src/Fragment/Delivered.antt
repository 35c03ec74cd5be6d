-- ===== src/Fragment/Delivered.antt =====
-- A packet whose fragments arrive one after the other (rekaserdoba/src/fragment.rs).
use reka_serdoba.Common.{
  ℕ, ◌+◌, ◌-◌, ◌≤◌, ◌<◌, ◌≡◌, ◌∙◌, refl, sym, ap, true, false, none, some, Option, List, [], ◌∷◌,
  ◌++◌, append_assoc, append-nil, concat, length, length-append, ◌==◌, All, Result, ok, err, arith,
}
use reka_serdoba.Common.Words.{from_be}
use reka_serdoba.Common.Maps.{find}
use reka_serdoba.Errors.{Error}
use reka_serdoba.Fragment.{
  FragmentReassembler, expired, push, PushResult, max_reassemblies, max_reassembly_memory,
  reassembly_timeout,
}
use reka_serdoba.Fragment.Ordered.{AreOrdered, size, bytes_of}
use reka_serdoba.Fragment.InOrder.{
  fragment_body, parse-fragment_body, AreOrdered-last, size-last, bytes_of-last,
}
use reka_serdoba.Fragment.Whole.{
  holding, assembly, next, one_more, expired-insert, expire-none, push_parsed-next,
  push_parsed-first,
}

abbrev pub delivered : Result Error (Option (List ℕ)) → List (List ℕ)
delivered (ok (some packet)) = packet ∷ []
delivered (ok none) = []
delivered (err e) = []

-- The packets that come of a list of bodies; the clock is read by how many are still to come.
unfoldable pub push_each :
    (ℕ → ℕ) → List (List ℕ) → FragmentReassembler → FragmentReassembler × List (List ℕ)
push_each clock [] r = (r, [])
push_each clock (body ∷ bodies) r =
    let x : PushResult = push body (clock (length bodies)) r in
    let y : FragmentReassembler × List (List ℕ) = push_each clock bodies x.0 in
    (y.0, delivered x.1 ++ y.1)

-- The bodies of a packet's parts, one after the other.
abbrev pub bodies_from : List ℕ → ℕ → ℕ → List (List ℕ) → List (List ℕ)
bodies_from packet_id total offset [] = []
bodies_from packet_id total offset (value ∷ values) =
    fragment_body packet_id total offset value
    ∷ bodies_from packet_id total (offset + length value) values

length-bodies_from :
    (packet_id : List ℕ) (total offset : ℕ) (values : List (List ℕ))
    → length (bodies_from packet_id total offset values) ≡ length values
length-bodies_from packet_id total offset [] = refl
length-bodies_from packet_id total offset (value ∷ values) =
    omega (arith, length-bodies_from packet_id total (offset + length value) values)

-- A reassembler that has nothing of the packet, has room for it, and lets nothing expire meanwhile.
pub record HasRoom (r : FragmentReassembler) (id total : ℕ) (clock : ℕ → ℕ) : Type 0 where
  pub new : find id r.assemblies ≡ none
  pub room : r.memory + total ≤ max_reassembly_memory
  pub few : length r.assemblies < max_reassemblies
  pub live : (i : ℕ) → expired (clock i) r.assemblies ≡ []
  pub in_time : (i j : ℕ) → clock i - clock j < reassembly_timeout

abbrev pub IsPart : List ℕ → Type 0
IsPart value = 1 ≤ length value

module _ (r : FragmentReassembler) (packet_id : List ℕ) (total : ℕ) (clock : ℕ → ℕ)
    (id_len : length packet_id ≡ 4) (total_max : total < 65536)
    (h : HasRoom r (from_be packet_id) total clock) where
  push-next :
      (first now offset : ℕ) (value : List ℕ) (fragments : List (ℕ × List ℕ))
      → AreOrdered offset 0 fragments
      → size fragments ≡ offset
      → 1 ≤ length value
      → offset + length value ≤ total
      → push
          (fragment_body packet_id total offset value)
          (clock now)
          (holding r (from_be packet_id) total (clock first) h.new h.room fragments)
        ≡ next r (from_be packet_id) total (clock first) h.new h.room offset value fragments
  unfolding push
  push-next first now offset value fragments ordered filled some_bytes inside =
      rw (parse-fragment_body packet_id total offset value id_len total_max some_bytes inside, push)
        (rw
          (expire-none (clock now)
            (holding r (from_be packet_id) total (clock first) h.new h.room fragments)
            (expired-insert (clock now) (from_be packet_id)
              (assembly r (from_be packet_id) total (clock first) h.new h.room fragments)
              r.assemblies (h.live now) (h.in_time now first)))
          (push_parsed-next r (from_be packet_id) total (clock first) h.new h.room (clock now)
            offset value fragments ordered filled some_bytes inside))

  push-first :
      (first : ℕ) (value : List ℕ)
      → 1 ≤ length value
      → length value ≤ total
      → push (fragment_body packet_id total 0 value) (clock first) r
        ≡ next r (from_be packet_id) total (clock first) h.new h.room 0 value []
  unfolding push
  push-first first value some_bytes inside =
      rw
        (
          parse-fragment_body packet_id total 0 value id_len total_max some_bytes
              (omega (arith, inside)),
          push,
        )
        (rw (expire-none (clock first) r (h.live first)) (
          push_parsed-first r (from_be packet_id) total (clock first) h.new h.room value h.few
            some_bytes inside))

  -- The parts that are still to come complete the packet.
  push_each-rest :
      (first offset : ℕ) (value : List ℕ) (values : List (List ℕ)) (fragments : List (ℕ × List ℕ))
      → AreOrdered offset 0 fragments
      → size fragments ≡ offset
      → All IsPart (value ∷ values)
      → offset + length (concat (value ∷ values)) ≡ total
      → push_each clock
          (bodies_from packet_id total offset (value ∷ values))
          (holding r (from_be packet_id) total (clock first) h.new h.room fragments)
        ≡ (r, (bytes_of fragments ++ concat (value ∷ values)) ∷ [])
  unfolding push_each
  push_each-rest first offset value [] fragments ordered filled (part, parts) all =
      let last : (offset + length value == total) ≡ true =
        ground (arith, all, length-append {0} value []) in
      rw
        (push-next first 0 offset value fragments ordered filled part
          (omega (arith, all, length-append {0} value [])))
        (rw last
          (ap (λ (p : List ℕ). (r, (bytes_of fragments ++ p) ∷ [])) (sym (append-nil value))))
  push_each-rest first offset value (w ∷ ws) fragments ordered filled (part, (part', parts)) all =
      let count = length-append {0} value (concat (w ∷ ws)) in
      let count' = length-append {0} w (concat ws) in
      let more : (offset + length value == total) ≡ false =
        ground (arith, all, count, count', part') in
      let inside : offset + length value ≤ total = omega (arith, all, count) in
      rw
        (push-next first (length (bodies_from packet_id total (offset + length value) (w ∷ ws)))
          offset value fragments ordered filled part inside)
        (rw more (
          push_each-rest first (offset + length value) w ws
            (one_more r (from_be packet_id) total (clock first) h.new h.room offset value fragments)
            (AreOrdered-last (offset + length value) offset 0 value fragments ordered part
              (omega arith))
            (omega (arith, size-last offset value fragments, filled)) (part', parts)
            (omega (arith, all, count))
          ∙ ap (λ (p : List ℕ). (r, p ∷ []))
              (ap (λ (b : List ℕ). b ++ concat (w ∷ ws)) (bytes_of-last offset value fragments)
                ∙ append_assoc (bytes_of fragments) value (concat (w ∷ ws)))))

  -- The parts of a packet, one after the other, give the packet, and leave the reassembler as it was.
  pub push_each-whole :
      (value : List ℕ) (values : List (List ℕ))
      → All IsPart (value ∷ values)
      → length (concat (value ∷ values)) ≡ total
      → push_each clock (bodies_from packet_id total 0 (value ∷ values)) r
        ≡ (r, concat (value ∷ values) ∷ [])
  unfolding push_each
  push_each-whole value [] (part, parts) all =
      let last : (0 + length value == total) ≡ true =
        ground (arith, all, length-append {0} value []) in
      rw (push-first 0 value part (omega (arith, all, length-append {0} value [])))
        (rw last (ap (λ (p : List ℕ). (r, p ∷ [])) (sym (append-nil value))))
  push_each-whole value (w ∷ ws) (part, (part', parts)) all =
      let first : ℕ = length (bodies_from packet_id total (0 + length value) (w ∷ ws)) in
      let count = length-append {0} value (concat (w ∷ ws)) in
      let count' = length-append {0} w (concat ws) in
      let more : (0 + length value == total) ≡ false = ground (arith, all, count, count', part') in
      rw (push-first first value part (omega (arith, all, count))) (
        rw more (
          push_each-rest first (0 + length value) w ws ((0, value) ∷ [])
            (omega arith, part, omega arith) (omega arith) (part', parts)
            (omega (arith, all, count))
          ∙ ap (λ (p : List ℕ). (r, p ∷ [])) (append_assoc value [] (concat (w ∷ ws)))))
