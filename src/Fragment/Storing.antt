-- ===== src/Fragment/Storing.antt =====
-- A fragment that goes into an assembly keeps the invariant, and what it completes.
use reka_serdoba.Common.{
  ◌+◌, ◌≤◌, ◌<◌, ◌≡◌, ◌≢◌, refl, sym, ap, subst, false, some, [], length, ltb, ◌==◌, ==_refl,
  ==_iff, bytes_eq, ok, Bool-cases, Option-cases, inl, inr, arith,
}
use reka_serdoba.Common.Maps.{
  find, insert, total, measure, one_if_new, total-insert, length-insert, length-erase,
  AllValues-insert, AllValues-find, AllValues-erase-insert,
}
use reka_serdoba.Fragment.{
  Assembly, FragmentReassembler, ParsedFragment, PushResult, remove, overlaps, join, finish,
  with_fragment, store, add_new, add, max_reassemblies, max_reassembly_memory,
}
use reka_serdoba.Fragment.Ordered.{
  AreOrdered, size, bytes_of, AreOrdered-size, size-insert_ordered, insert_ordered-AreOrdered,
  join-AreOrdered,
}
use reka_serdoba.Fragment.Invariant.{IsWaiting, IsSound, IsFragment, remove-memory, remove-IsSound}

-- The assembly `a` is the one that `r` has.
module _ (f : ParsedFragment) (a : Assembly) (r : FragmentReassembler) (is_fragment : IsFragment f)
    (there : find f.packet_id r.assemblies ≡ some a) (sound : IsSound r) where
  a-IsWaiting : IsWaiting a
  a-IsWaiting = AllValues-find IsWaiting f.packet_id r.assemblies a sound.waiting there

  with_memory :
      r.memory + length f.bytes
      ≡ total (λ b. b.received) (insert f.packet_id (with_fragment f a) r.assemblies)
  with_memory =
      unfold with_fragment in
      omega (
        arith,
        sound.memory,
        total-insert (λ b. b.received) f.packet_id (with_fragment f a) r.assemblies,
        ap (measure (λ b. b.received)) there,
      )

  with_count : length (insert f.packet_id (with_fragment f a) r.assemblies) ≤ max_reassemblies
  with_count = omega (
    arith,
    sound.count,
    length-insert f.packet_id (with_fragment f a) r.assemblies,
    ap one_if_new there,
  )

  module _ (same_len : a.total_len ≡ f.total_len)
      (apart : overlaps f.offset (f.offset + length f.bytes) a.fragments ≡ false) where
    pub with_fragment-AreOrdered : AreOrdered a.total_len 0 (with_fragment f a).fragments
    with_fragment-AreOrdered =
        unfold with_fragment in
        insert_ordered-AreOrdered a.total_len 0 f.offset f.bytes a.fragments is_fragment.some_bytes
          (omega arith) (omega (arith, is_fragment.inside, same_len)) apart a-IsWaiting.ordered

    pub with_fragment-size : (with_fragment f a).received ≡ size (with_fragment f a).fragments
    with_fragment-size =
        unfold with_fragment in
        omega (
          arith,
          a-IsWaiting.received,
          size-insert_ordered f.offset f.bytes a.fragments is_fragment.some_bytes apart a.total_len
              0 a-IsWaiting.ordered,
        )

    -- The store with the fragment.
    abbrev stored : FragmentReassembler
    stored = record {
      assemblies = insert f.packet_id (with_fragment f a) r.assemblies;
      memory = r.memory + length f.bytes;
    }

    -- A fragment that completes its packet.
    module _ (fits : r.memory + length f.bytes ≤ max_reassembly_memory)
        (complete : (with_fragment f a).received ≡ (with_fragment f a).total_len) where
      joined :
          join 0 (with_fragment f a).fragments []
          ≡ some ((with_fragment f a).total_len, bytes_of (with_fragment f a).fragments)
      joined =
          join-AreOrdered (with_fragment f a).total_len 0 (with_fragment f a).fragments []
            (unfold with_fragment in with_fragment-AreOrdered)
            (omega (arith, with_fragment-size, complete))

      pub finish-stored :
          finish f (with_fragment f a) stored
          ≡ (remove f.packet_id stored, ok (some (bytes_of (with_fragment f a).fragments)))
      finish-stored =
          unfold finish in rw (joined, finish) (rw (==_refl (with_fragment f a).total_len) refl)

      completed-IsSound : IsSound (remove f.packet_id stored)
      completed-IsSound = record {
        memory = remove-memory f.packet_id stored with_memory;
        memory_bound = unfold remove in omega (arith, fits);
        count =
            unfold remove in
            omega (
              arith,
              with_count,
              length-erase f.packet_id (insert f.packet_id (with_fragment f a) r.assemblies),
            );
        waiting =
            unfold remove in
            AllValues-erase-insert IsWaiting f.packet_id (with_fragment f a) r.assemblies
              sound.waiting;
      }

    stored-IsSound :
        r.memory + length f.bytes ≤ max_reassembly_memory
        → (with_fragment f a).received ≢ (with_fragment f a).total_len
        → IsSound stored
    stored-IsSound fits more = record {
      memory = with_memory;
      memory_bound = fits;
      count = with_count;
      waiting =
          AllValues-insert IsWaiting f.packet_id (with_fragment f a) r.assemblies
            (record {
              ordered = unfold with_fragment in with_fragment-AreOrdered;
              received = with_fragment-size;
              missing = below (
                  AreOrdered-size (with_fragment f a).total_len 0 (with_fragment f a).fragments
                    (unfold with_fragment in with_fragment-AreOrdered));
            })
            sound.waiting;
    }
      where
        below :
            0 + size (with_fragment f a).fragments ≤ (with_fragment f a).total_len
            → (with_fragment f a).received < (with_fragment f a).total_len
        below h = ground (arith, h, with_fragment-size, more)

    store-IsSound : r.memory + length f.bytes ≤ max_reassembly_memory → IsSound (store f a r).0
    store-IsSound fits =
        unfold store in
        elim (Bool-cases ((with_fragment f a).received == (with_fragment f a).total_len)) [
          | inl e ↦ rw e (
              let complete =
                (==_iff (with_fragment f a).received (with_fragment f a).total_len).0 e in
              subst (λ (x : PushResult). IsSound x.0) (sym (finish-stored fits complete))
                (completed-IsSound fits complete))
          | inr e ↦ rw e (stored-IsSound fits (λ same. absurd (ground (arith, e, same))))
        ]

  add_new-IsSound : a.total_len ≡ f.total_len → IsSound (add_new f a r).0
  add_new-IsSound same_len =
      unfold add_new in
      elim (Bool-cases (overlaps f.offset (f.offset + length f.bytes) a.fragments)) [
        | inl e ↦ rw e (remove-IsSound f.packet_id r sound)
        | inr e ↦ rw e (elim (Bool-cases (ltb max_reassembly_memory (r.memory + length f.bytes))) [
          | inl g ↦ rw g sound
          | inr g ↦ rw g (store-IsSound same_len e (ground (arith, g)))
        ])
      ]

  pub add-IsSound : IsSound (add f a r).0
  add-IsSound =
      unfold add in
      elim (Bool-cases (a.total_len == f.total_len)) [
        | inr e ↦ rw e (remove-IsSound f.packet_id r sound)
        | inl e ↦ rw e (elim (Option-cases (find f.offset a.fragments)) [
          | inl nothing ↦ rw (nothing, add) (add_new-IsSound ((==_iff a.total_len f.total_len).0 e))
          | inr (existing, found) ↦
              rw (found, add)
                (elim (Bool-cases (bytes_eq existing f.bytes)) [
                  | inl same ↦ rw same sound
                  | inr other ↦ rw other (remove-IsSound f.packet_id r sound)
                ])
        ])
      ]
