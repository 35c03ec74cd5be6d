-- ===== src/Fragment/Invariant.antt =====
-- The invariant of `FragmentReassembler`.
use reka_serdoba.Common.{
  ℕ, ◌+◌, ◌≤◌, ◌<◌, ◌≡◌, refl, Option, none, some, List, [], ◌∷◌, length, length-drop, ok, arith,
}
use reka_serdoba.Common.Maps.{
  find, total, measure, total-erase, length-erase, AllValues, AllValues-erase,
}
use reka_serdoba.Fragment.{
  Assembly, FragmentReassembler, ParsedFragment, parse, remove, received_of, expired, remove_all,
  expire, max_reassemblies, max_reassembly_memory,
}
use reka_serdoba.Fragment.Ordered.{AreOrdered, size}

-- An assembly that waits for more: its fragments are in order, apart and inside the packet, and
-- have fewer bytes than the packet.
pub record IsWaiting (a : Assembly) : Type 0 where
  pub ordered : AreOrdered a.total_len 0 a.fragments
  pub received : a.received ≡ size a.fragments
  pub missing : a.received < a.total_len

pub record IsSound (r : FragmentReassembler) : Type 0 where
  pub memory : r.memory ≡ total (λ a. a.received) r.assemblies
  pub memory_bound : r.memory ≤ max_reassembly_memory
  pub count : length r.assemblies ≤ max_reassemblies
  pub waiting : AllValues IsWaiting r.assemblies

-- What `parse` has checked.
pub record IsFragment (f : ParsedFragment) : Type 0 where
  pub some_bytes : 1 ≤ length f.bytes
  pub inside : f.offset + length f.bytes ≤ f.total_len

pub parse-IsFragment : (body : List ℕ) (f : ParsedFragment) → parse body ≡ ok f → IsFragment f
unfolding parse
parse-IsFragment body f e = record {
  some_bytes = ground (arith, e, length-drop {0} 10 body);
  inside = ground (arith, e, length-drop {0} 10 body);
}

received-measure : (o : Option Assembly) → received_of o ≡ measure (λ a. a.received) o
received-measure none = refl
received-measure (some a) = refl

-- The store without the assembly `packet_id`.
pub remove-memory :
    (packet_id : ℕ) (r : FragmentReassembler)
    → r.memory ≡ total (λ a. a.received) r.assemblies
    → (remove packet_id r).memory ≡ total (λ a. a.received) (remove packet_id r).assemblies
unfolding remove
remove-memory packet_id r h = omega (
  arith,
  h,
  total-erase (λ a. a.received) packet_id r.assemblies,
  received-measure (find packet_id r.assemblies),
)

pub remove-IsSound :
    (packet_id : ℕ) (r : FragmentReassembler) → IsSound r → IsSound (remove packet_id r)
remove-IsSound packet_id r h = record {
  memory = remove-memory packet_id r h.memory;
  memory_bound = unfold remove in omega (arith, h.memory_bound);
  count = unfold remove in omega (arith, h.count, length-erase packet_id r.assemblies);
  waiting = unfold remove in AllValues-erase IsWaiting packet_id r.assemblies h.waiting;
}

remove_all-IsSound :
    (ids : List ℕ) (r : FragmentReassembler) → IsSound r → IsSound (remove_all ids r)
unfolding remove_all
remove_all-IsSound [] r h = h
remove_all-IsSound (packet_id ∷ ids) r h =
    remove_all-IsSound ids (remove packet_id r) (remove-IsSound packet_id r h)

pub expire-IsSound : (now : ℕ) (r : FragmentReassembler) → IsSound r → IsSound (expire now r)
unfolding expire
expire-IsSound now r h = remove_all-IsSound (expired now r.assemblies) r h
