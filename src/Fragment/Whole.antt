-- ===== src/Fragment/Whole.antt =====
-- The whole of a packet's fragments, in their order (rekaserdoba/src/fragment.rs).
use reka_serdoba.Common.{
  ℕ, ◌+◌, ◌-◌, ◌≤◌, ◌<◌, ◌≡◌, ◌∙◌, refl, sym, ap, ap₂, true, false, none, some, List, [], ◌∷◌, ◌++◌,
  length, ltb, leb, ◌==◌, ==_refl, if◌then◌else◌, ok, Bool-cases, inl, inr, arith,
}
use reka_serdoba.Common.Maps.{find, insert, find-insert, insert-insert, erase-insert}
use reka_serdoba.Fragment.{
  Assembly, FragmentReassembler, ParsedFragment, remove, remove_all, expired, expire, finish,
  with_fragment, store, add_new, add, push_parsed, PushResult, max_reassemblies,
  max_reassembly_memory, reassembly_timeout,
}
use reka_serdoba.Fragment.Ordered.{AreOrdered, size, bytes_of, join-AreOrdered}
use reka_serdoba.Fragment.InOrder.{after_all, AreOrdered-last, size-last, bytes_of-last}

-- A young assembly does not expire.
pub expired-insert :
    (now k : ℕ) (a : Assembly) (assemblies : List (ℕ × Assembly))
    → expired now assemblies ≡ []
    → now - a.created_at < reassembly_timeout
    → expired now (insert k a assemblies) ≡ []
unfolding expired insert
expired-insert now k a [] none_old young = ground (arith, young)
expired-insert now k a ((j, b) ∷ assemblies) none_old young =
    elim (Bool-cases (leb reassembly_timeout (now - b.created_at))) [
      | inl old ↦ absurd (cc (rw (old, expired) at none_old))
      | inr live ↦ elim (Bool-cases (j == k)) [
        | inl e ↦ rw e (ground (arith, young, rw (live, expired) at none_old))
        | inr e ↦
            rw e
              (rw live (expired-insert now k a assemblies (rw (live, expired) at none_old) young))
      ]
    ]

pub expire-none :
    (now : ℕ) (r : FragmentReassembler) → expired now r.assemblies ≡ [] → expire now r ≡ r
unfolding expire remove_all
expire-none now r none_old = rw none_old refl

-- A reassembler `r` that has nothing of the packet `id`, and room for it.
module _ (r : FragmentReassembler) (id total created : ℕ) (new : find id r.assemblies ≡ none)
    (room : r.memory + total ≤ max_reassembly_memory) where
  abbrev pub assembly : List (ℕ × List ℕ) → Assembly
  assembly fragments = record {
    total_len = total;
    created_at = created;
    fragments = fragments;
    received = size fragments;
  }

  abbrev pub holding : List (ℕ × List ℕ) → FragmentReassembler
  holding fragments = record {
    assemblies = insert id (assembly fragments) r.assemblies;
    memory = r.memory + size fragments;
  }

  abbrev pub arriving : ℕ → List ℕ → ParsedFragment
  arriving offset value = record {
    packet_id = id;
    total_len = total;
    offset = offset;
    bytes = value;
  }

  abbrev pub one_more : ℕ → List ℕ → List (ℕ × List ℕ) → List (ℕ × List ℕ)
  one_more offset value fragments = fragments ++ ((offset, value) ∷ [])

  remove-holding : (fragments : List (ℕ × List ℕ)) → remove id (holding fragments) ≡ r
  unfolding remove
  remove-holding fragments = rw (find-insert id (assembly fragments) r.assemblies) (
      ap₂ (λ (m : List (ℕ × Assembly)) (n : ℕ). record { assemblies = m; memory = n })
        (erase-insert id (assembly fragments) r.assemblies new) (omega arith))

  with_fragment-next :
      (offset : ℕ) (value : List ℕ) (fragments : List (ℕ × List ℕ))
      → AreOrdered offset 0 fragments
      → with_fragment (arriving offset value) (assembly fragments)
        ≡ assembly (one_more offset value fragments)
  unfolding with_fragment
  with_fragment-next offset value fragments ordered =
      ap₂
        (λ (fs : List (ℕ × List ℕ)) (n : ℕ). record {
          total_len = total;
          created_at = created;
          fragments = fs;
          received = n;
        })
        (after_all offset 0 value fragments ordered).0 (sym (size-last offset value fragments))

  finish-whole :
      (offset : ℕ) (value : List ℕ) (fragments : List (ℕ × List ℕ))
      → AreOrdered total 0 fragments
      → size fragments ≡ total
      → finish (arriving offset value) (assembly fragments) (holding fragments)
        ≡ (r, ok (some (bytes_of fragments)))
  unfolding finish
  finish-whole offset value fragments ordered full =
      rw (join-AreOrdered total 0 fragments [] ordered (omega (arith, full)), finish)
        (rw (==_refl total) (rw (remove-holding fragments) refl))

  -- What follows from one more fragment.
  abbrev pub next : ℕ → List ℕ → List (ℕ × List ℕ) → PushResult
  next offset value fragments =
      if offset + length value == total
      then (r, ok (some (bytes_of fragments ++ value)))
      else (holding (one_more offset value fragments), ok none)

  add-next :
      (offset : ℕ) (value : List ℕ) (fragments : List (ℕ × List ℕ))
      → AreOrdered offset 0 fragments
      → size fragments ≡ offset
      → 1 ≤ length value
      → offset + length value ≤ total
      → add (arriving offset value) (assembly fragments) (holding fragments)
        ≡ next offset value fragments
  unfolding add add_new store
  add-next offset value fragments ordered filled some_bytes inside =
      let (placed, apart, absent) = after_all offset 0 value fragments ordered in
      let fits : ltb max_reassembly_memory (r.memory + size fragments + length value) ≡ false =
        ground (arith, room, filled, inside) in
      let held_is : insert id (assembly (one_more offset value fragments))
            (insert id (assembly fragments) r.assemblies)
          ≡ insert id (assembly (one_more offset value fragments)) r.assemblies =
        insert-insert id (assembly fragments) (assembly (one_more offset value fragments))
          r.assemblies in
      let count : r.memory + size fragments + length value
          ≡ r.memory + size (one_more offset value fragments) =
        omega (arith, size-last offset value fragments) in
      rw (==_refl total) (
        rw absent (
          rw (apart, add_new)
            (rw fits (
              unfold store in
              rw (with_fragment-next offset value fragments ordered) (
                rw held_is (
                  rw count (elim (Bool-cases (offset + length value == total)) [
                    | inl done ↦
                        let full : size (one_more offset value fragments) ≡ total =
                          ground (arith, size-last offset value fragments, filled, done) in
                        let complete =
                          AreOrdered-last total offset 0 value fragments ordered some_bytes
                            inside in
                        let stop : (size (one_more offset value fragments) == total) ≡ true =
                          ground (arith, full) in
                        rw stop (
                          rw done (
                            finish-whole offset value (one_more offset value fragments) complete
                              full
                            ∙ ap (λ (p : List ℕ). (r, ok (some p)))
                                (bytes_of-last offset value fragments)))
                    | inr part ↦
                        let on : (size (one_more offset value fragments) == total) ≡ false =
                          ground (arith, size-last offset value fragments, filled, part) in
                        rw on (rw part refl)
                  ])))))))

  -- A fragment that is not the first one.
  pub push_parsed-next :
      (now offset : ℕ) (value : List ℕ) (fragments : List (ℕ × List ℕ))
      → AreOrdered offset 0 fragments
      → size fragments ≡ offset
      → 1 ≤ length value
      → offset + length value ≤ total
      → push_parsed (arriving offset value) now (holding fragments) ≡ next offset value fragments
  unfolding push_parsed
  push_parsed-next now offset value fragments ordered filled some_bytes inside =
      rw (find-insert id (assembly fragments) r.assemblies, push_parsed)
        (add-next offset value fragments ordered filled some_bytes inside)

  pub push_parsed-first :
      (value : List ℕ)
      → length r.assemblies < max_reassemblies
      → 1 ≤ length value
      → length value ≤ total
      → push_parsed (arriving 0 value) created r ≡ next 0 value []
  unfolding push_parsed
  push_parsed-first value few some_bytes inside =
      let free : leb max_reassemblies (length r.assemblies) ≡ false = ground (arith, few) in
      rw (new, push_parsed)
        (rw free (
          ap
            (λ (n : ℕ).
              add (arriving 0 value) (assembly [])
                (record { assemblies = insert id (assembly []) r.assemblies; memory = n }))
            (omega arith)
          ∙ add-next 0 value [] (omega arith) refl some_bytes (omega (arith, inside))))
