-- ===== src/Fragment/Arrivals.antt =====
-- The invariant after any arrivals.
use reka_serdoba.Common.{
  ℕ, ◌<◌, ◌≡◌, refl, ap, none, List, [], ◌∷◌, length, leb, Bool-cases, Option-cases, Result-cases,
  inl, inr, arith,
}
use reka_serdoba.Common.Maps.{
  find, insert, measure, one_if_new, total-insert, length-insert, AllValues-insert, find-insert,
}
use reka_serdoba.Fragment.{
  FragmentReassembler, ParsedFragment, empty, parse, expire, fresh, push_parsed, push,
  max_reassemblies,
}
use reka_serdoba.Fragment.Invariant.{
  IsWaiting, IsSound, IsFragment, parse-IsFragment, expire-IsSound,
}
use reka_serdoba.Fragment.Storing.{add-IsSound}

-- A new entry, which has no fragments yet.
pub fresh-IsSound :
    (f : ParsedFragment) (now : ℕ) (r : FragmentReassembler)
    → IsFragment f
    → IsSound r
    → find f.packet_id r.assemblies ≡ none
    → length r.assemblies < max_reassemblies
    → IsSound (record r { assemblies = insert f.packet_id (fresh f now) r.assemblies })
fresh-IsSound f now r is_fragment h nothing room = record {
  memory = omega (
    arith,
    h.memory,
    total-insert (λ b. b.received) f.packet_id (fresh f now) r.assemblies,
    ap (measure (λ b. b.received)) nothing,
  );
  memory_bound = h.memory_bound;
  count =
      omega
        (arith, room, length-insert f.packet_id (fresh f now) r.assemblies, ap one_if_new nothing);
  waiting =
      AllValues-insert IsWaiting f.packet_id (fresh f now) r.assemblies
        (record {
          ordered = omega arith;
          received = refl;
          missing = omega (arith, is_fragment.inside, is_fragment.some_bytes);
        })
        h.waiting;
}

push_parsed-IsSound :
    (f : ParsedFragment) (now : ℕ) (r : FragmentReassembler)
    → IsFragment f
    → IsSound r
    → IsSound (push_parsed f now r).0
unfolding push_parsed
push_parsed-IsSound f now r is_fragment h = elim (Option-cases (find f.packet_id r.assemblies)) [
  | inr (a, there) ↦ rw (there, push_parsed) (add-IsSound f a r is_fragment there h)
  | inl nothing ↦
      rw (nothing, push_parsed)
        (elim (Bool-cases (leb max_reassemblies (length r.assemblies))) [
          | inl e ↦ rw e h
          | inr e ↦ rw e (
              add-IsSound f (fresh f now) _ is_fragment
                (find-insert f.packet_id (fresh f now) r.assemblies)
                (fresh-IsSound f now r is_fragment h nothing (ground (arith, e))))
        ])
]

pub push-IsSound :
    (body : List ℕ) (now : ℕ) (r : FragmentReassembler) → IsSound r → IsSound (push body now r).0
unfolding push
push-IsSound body now r h = elim (Result-cases (parse body)) [
  | inr (e, p) ↦ rw (p, push) (expire-IsSound now r h)
  | inl (f, p) ↦
      rw (p, push)
        (push_parsed-IsSound f now (expire now r) (parse-IsFragment body f p)
          (expire-IsSound now r h))
]

-- The store after a list of arrivals, each with its time, whatever their outcomes.
unfoldable pub push_all : List (List ℕ × ℕ) → FragmentReassembler → FragmentReassembler
push_all [] r = r
push_all ((body, now) ∷ arrivals) r = push_all arrivals (push body now r).0

push_all-IsSound :
    (arrivals : List (List ℕ × ℕ)) (r : FragmentReassembler)
    → IsSound r
    → IsSound (push_all arrivals r)
unfolding push_all
push_all-IsSound [] r h = h
push_all-IsSound ((body, now) ∷ arrivals) r h =
    push_all-IsSound arrivals (push body now r).0 (push-IsSound body now r h)

-- Whatever has arrived, in whatever order and whether it was accepted or not, a reassembler that
-- began empty counts exactly the bytes that it holds, at most 8 MiB of them in at most 64
-- assemblies, and the fragments of each assembly are in order, do not overlap, lie inside the
-- packet and leave something missing: a packet that is complete is never kept.
pub push_all-empty-IsSound : (arrivals : List (List ℕ × ℕ)) → IsSound (push_all arrivals empty)
push_all-empty-IsSound arrivals =
    push_all-IsSound arrivals empty
      (record { memory = refl; memory_bound = omega arith; count = omega arith; waiting = tt })
