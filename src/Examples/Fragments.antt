-- ===== src/Examples/Fragments.antt =====
-- The reassembler at concrete inputs.
use reka_serdoba.Common.{ℕ, ◌≡◌, refl, List, [], ◌∷◌, ok, err, some, slice}
use reka_serdoba.Common.Words.{from_be}
use reka_serdoba.Common.Maps.{find, insert, erase}
use reka_serdoba.Errors.{overlapping_fragment}
use reka_serdoba.Fragment
use reka_serdoba.Fragment.{FragmentReassembler, ParsedFragment, empty, parse, push, expire}
use reka_serdoba.Fragment.Invariant.{IsSound}
use reka_serdoba.Fragment.Arrivals.{push_all, push_all-empty-IsSound}
use reka_serdoba.Fragment.Packet.{IsMadeOf, held, push-IsMadeOf}

-- The second half of a packet of four bytes, the first half, and one that overlaps the second.
abbrev second_half : List ℕ
second_half = 0 ∷ 0 ∷ 0 ∷ 9 ∷ 0 ∷ 4 ∷ 0 ∷ 2 ∷ 0 ∷ 2 ∷ 30 ∷ 40 ∷ []

abbrev first_half : List ℕ
first_half = 0 ∷ 0 ∷ 0 ∷ 9 ∷ 0 ∷ 4 ∷ 0 ∷ 0 ∷ 0 ∷ 2 ∷ 10 ∷ 20 ∷ []

abbrev middle : List ℕ
middle = 0 ∷ 0 ∷ 0 ∷ 9 ∷ 0 ∷ 4 ∷ 0 ∷ 1 ∷ 0 ∷ 2 ∷ 20 ∷ 30 ∷ []

abbrev waiting : FragmentReassembler
waiting = push_all ((second_half, 5) ∷ []) empty

delivered : push first_half 6 waiting ≡ (empty, ok (some (10 ∷ 20 ∷ 30 ∷ 40 ∷ [])))
unfolding push_all push parse from_be slice Fragment.push_parsed expire Fragment.expired
    Fragment.remove_all Fragment.remove Fragment.add Fragment.add_new Fragment.overlaps
    Fragment.store Fragment.with_fragment Fragment.insert_ordered Fragment.finish Fragment.join find
    insert erase
delivered = refl

refused : (push middle 6 waiting).1 ≡ err overlapping_fragment
unfolding push_all push parse from_be slice Fragment.push_parsed expire Fragment.expired
    Fragment.remove_all Fragment.remove Fragment.add Fragment.add_new Fragment.overlaps
    Fragment.store Fragment.with_fragment Fragment.insert_ordered find insert erase
refused = refl

push_all-empty-IsSound_example : IsSound (push_all ((second_half, 5) ∷ (middle, 6) ∷ []) empty)
push_all-empty-IsSound_example = push_all-empty-IsSound ((second_half, 5) ∷ (middle, 6) ∷ [])

waiting-IsSound : IsSound waiting
waiting-IsSound = push_all-empty-IsSound ((second_half, 5) ∷ [])

push-IsMadeOf_example :
    (f : ParsedFragment) × (parse first_half ≡ ok f)
    × IsMadeOf f (held f.packet_id (expire 6 waiting)) (10 ∷ 20 ∷ 30 ∷ 40 ∷ [])
push-IsMadeOf_example =
    push-IsMadeOf first_half 6 waiting empty (10 ∷ 20 ∷ 30 ∷ 40 ∷ []) waiting-IsSound delivered
