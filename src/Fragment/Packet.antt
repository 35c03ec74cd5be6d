-- ===== src/Fragment/Packet.antt =====
-- What a packet that is delivered is made of.
use reka_serdoba.Common.{
  ℕ, ◌+◌, ◌≤◌, ◌≡◌, ◌∙◌, sym, ap, subst, false, Option, none, some, List, [], length, ltb, leb,
  ◌==◌, ==_iff, bytes_eq, ok, Bool-cases, Option-cases, Result-cases, inl, inr, arith,
}
use reka_serdoba.Common.Maps.{find, find-insert}
use reka_serdoba.Fragment.{
  Assembly, FragmentReassembler, ParsedFragment, parse, expire, insert_ordered, overlaps,
  with_fragment, store, add_new, add, fresh, push_parsed, push, max_reassemblies,
  max_reassembly_memory,
}
use reka_serdoba.Fragment.Ordered.{bytes_of}
use reka_serdoba.Fragment.Invariant.{IsSound, IsFragment, parse-IsFragment, expire-IsSound}
use reka_serdoba.Fragment.Storing.{finish-stored, with_fragment-AreOrdered, with_fragment-size}
use reka_serdoba.Common.{All}
use reka_serdoba.Fragment.Arrivals.{fresh-IsSound}
use reka_serdoba.Fragment.Ordered.{IsPlaced, bytes_of-IsPlaced, length-bytes_of}

-- The fragments of a packet that are there.
abbrev pub held_of : Option Assembly → List (ℕ × List ℕ)
held_of none = []
held_of (some a) = a.fragments

abbrev pub held : ℕ → FragmentReassembler → List (ℕ × List ℕ)
held packet_id r = held_of (find packet_id r.assemblies)

-- A packet of the declared length, in which each of the fragments stands at its offset.
pub record IsMadeOf (f : ParsedFragment) (fragments : List (ℕ × List ℕ)) (packet : List ℕ)
    : Type 0 where
  pub packet_len : length packet ≡ f.total_len
  pub placed : All (IsPlaced packet) (insert_ordered f.offset f.bytes fragments)

module _ (f : ParsedFragment) (a : Assembly) (r r' : FragmentReassembler) (packet : List ℕ)
    (is_fragment : IsFragment f) (there : find f.packet_id r.assemblies ≡ some a)
    (sound : IsSound r) where
  store-IsMadeOf :
      a.total_len ≡ f.total_len
      → overlaps f.offset (f.offset + length f.bytes) a.fragments ≡ false
      → r.memory + length f.bytes ≤ max_reassembly_memory
      → store f a r ≡ (r', ok (some packet))
      → IsMadeOf f a.fragments packet
  unfolding store
  store-IsMadeOf same_len apart fits e =
      elim (Bool-cases ((with_fragment f a).received == (with_fragment f a).total_len)) [
        | inr part ↦ absurd (cc (rw (part, store) at e))
        | inl full ↦
            let complete =
              (==_iff (with_fragment f a).received (with_fragment f a).total_len).0 full in
            let done = finish-stored f a r is_fragment there sound same_len apart fits complete in
            let same : packet ≡ bytes_of (with_fragment f a).fragments =
              cc (done, rw (full, store) at e) in
            record {
              packet_len =
                  ap length same
                  ∙ length-bytes_of (with_fragment f a).fragments
                  ∙ sym (with_fragment-size f a r is_fragment there sound same_len apart)
                  ∙ complete
                  ∙ unfold with_fragment in same_len;
              placed =
                  subst
                    (λ (p : List ℕ). All (IsPlaced p) (insert_ordered f.offset f.bytes a.fragments))
                    (sym same)
                    (unfold with_fragment in
                      bytes_of-IsPlaced a.total_len (with_fragment f a).fragments
                        (with_fragment-AreOrdered f a r is_fragment there sound same_len apart)
                        (sym (with_fragment-size f a r is_fragment there sound same_len apart)
                          ∙ complete));
            }
      ]

  add_new-IsMadeOf :
      a.total_len ≡ f.total_len
      → add_new f a r ≡ (r', ok (some packet))
      → IsMadeOf f a.fragments packet
  unfolding add_new
  add_new-IsMadeOf same_len e =
      elim (Bool-cases (overlaps f.offset (f.offset + length f.bytes) a.fragments)) [
        | inl over ↦ absurd (cc (rw (over, add_new) at e))
        | inr apart ↦ elim (Bool-cases (ltb max_reassembly_memory (r.memory + length f.bytes))) [
          | inl much ↦ absurd (cc (rw (apart, add_new, much) at e))
          | inr fits ↦
              store-IsMadeOf same_len apart (ground (arith, fits)) (rw (apart, add_new, fits) at e)
        ]
      ]

  add-IsMadeOf : add f a r ≡ (r', ok (some packet)) → IsMadeOf f a.fragments packet
  unfolding add
  add-IsMadeOf e = elim (Bool-cases (a.total_len == f.total_len)) [
    | inr other ↦ absurd (cc (rw (other, add) at e))
    | inl same_len ↦ elim (Option-cases (find f.offset a.fragments)) [
      | inl nothing ↦
          add_new-IsMadeOf ((==_iff a.total_len f.total_len).0 same_len)
            (rw (same_len, add, nothing) at e)
      | inr (existing, found) ↦ elim (Bool-cases (bytes_eq existing f.bytes)) [
        | inl same ↦ absurd (cc (rw (same_len, add, found, same) at e))
        | inr differ ↦ absurd (cc (rw (same_len, add, found, differ) at e))
      ]
    ]
  ]

push_parsed-IsMadeOf :
    (f : ParsedFragment) (now : ℕ) (r r' : FragmentReassembler) (packet : List ℕ)
    → IsFragment f
    → IsSound r
    → push_parsed f now r ≡ (r', ok (some packet))
    → IsMadeOf f (held f.packet_id r) packet
unfolding push_parsed
push_parsed-IsMadeOf f now r r' packet is_fragment sound e =
    elim (Option-cases (find f.packet_id r.assemblies)) [
      | inr (a, there) ↦
          subst (λ o. IsMadeOf f (held_of o) packet) (sym there)
            (add-IsMadeOf f a r r' packet is_fragment there sound (rw (there, push_parsed) at e))
      | inl nothing ↦ elim (Bool-cases (leb max_reassemblies (length r.assemblies))) [
        | inl full ↦ absurd (cc (rw (nothing, push_parsed, full) at e))
        | inr room ↦
            subst (λ o. IsMadeOf f (held_of o) packet) (sym nothing)
              (add-IsMadeOf f (fresh f now) _ r' packet is_fragment
                (find-insert f.packet_id (fresh f now) r.assemblies)
                (fresh-IsSound f now r is_fragment sound nothing (ground (arith, room)))
                (rw (nothing, push_parsed, room) at e))
      ]
    ]

-- A packet that a reassembler delivers, in a state that the invariant holds of, has the length that
-- the arriving fragment declares, and in it that fragment and all those that were held for its
-- packet stand at their offsets.
pub push-IsMadeOf :
    (body : List ℕ) (now : ℕ) (r r' : FragmentReassembler) (packet : List ℕ)
    → IsSound r
    → push body now r ≡ (r', ok (some packet))
    → (f : ParsedFragment) × (parse body ≡ ok f)
      × IsMadeOf f (held f.packet_id (expire now r)) packet
unfolding push
push-IsMadeOf body now r r' packet sound e = elim (Result-cases (parse body)) [
  | inr (x, p) ↦ absurd (cc (rw (p, push) at e))
  | inl (f, p) ↦ (
    f,
    p,
    push_parsed-IsMadeOf f now (expire now r) r' packet (parse-IsFragment body f p)
        (expire-IsSound now r sound) (rw (p, push) at e),
  )
]
