-- ===== src/Fragment.antt =====
-- `FragmentReassembler` and `ParsedFragment` (rekaserdoba/src/fragment.rs). The `HashMap` and the
-- `BTreeMap` are lists of pairs, the second one in the order of the offsets; a time is a number of
-- nanoseconds. `offset + len` of two 16-bit numbers does not overflow.
pub mod Ordered
pub mod InOrder
pub mod Whole
pub mod Delivered
pub mod Invariant
pub mod Storing
pub mod Arrivals
pub mod Packet
use reka_serdoba.Common.{
  ℕ, ◌+◌, ◌-◌, ◌*◌, Bool, true, false, not, ◌&&◌, ◌||◌, Option, none, some, List, [], ◌∷◌, ◌++◌,
  length, drop, slice, ltb, leb, ◌==◌, bytes_eq, if◌then◌else◌, Result, ok, err, ◌>>=◌, ◌>>◌,
  bail_if,
}
use reka_serdoba.Common.Words.{from_be}
use reka_serdoba.Common.Maps.{find, insert, erase}
use reka_serdoba.Errors.{
  Error, fragment_reassembly_limit_reached, fragment_total_length_changed,
  conflicting_duplicate_fragment, overlapping_fragment, fragment_memory_limit_reached,
  truncated_fragment, invalid_fragment_length, fragment_exceeds_packet,
}

abbrev pub max_reassemblies : ℕ
max_reassemblies = 64

abbrev pub max_reassembly_memory : ℕ
max_reassembly_memory = 8 * 1024 * 1024

abbrev pub reassembly_timeout : ℕ
reassembly_timeout = 3000000000

pub record Assembly : Type 0 where
  pub total_len : ℕ
  pub created_at : ℕ
  pub fragments : List (ℕ × List ℕ)
  pub received : ℕ

pub record FragmentReassembler : Type 0 where
  pub assemblies : List (ℕ × Assembly)
  pub memory : ℕ

pub record ParsedFragment : Type 0 where
  pub packet_id : ℕ
  pub total_len : ℕ
  pub offset : ℕ
  pub bytes : List ℕ

-- `ParsedFragment::parse`
unfoldable pub parse : List ℕ → Result Error ParsedFragment
parse body = do
  bail_if (ltb (length body) 10) truncated_fragment
  let total_len = from_be (slice 4 6 body)
  let offset = from_be (slice 6 8 body)
  let fragment_len = from_be (slice 8 10 body)
  bail_if (total_len == 0 || fragment_len == 0 || not (length body == 10 + fragment_len))
      invalid_fragment_length
  bail_if (ltb total_len (offset + fragment_len)) fragment_exceeds_packet
  ok (record {
    packet_id = from_be (slice 0 4 body);
    total_len = total_len;
    offset = offset;
    bytes = drop 10 body;
  })

-- `FragmentReassembler::new`
abbrev pub empty : FragmentReassembler
empty = record { assemblies = []; memory = 0 }

abbrev pub received_of : Option Assembly → ℕ
received_of none = 0
received_of (some a) = a.received

-- `remove`
unfoldable pub remove : ℕ → FragmentReassembler → FragmentReassembler
remove packet_id r = record r {
  assemblies = erase packet_id r.assemblies;
  memory = r.memory - received_of (find packet_id r.assemblies);
}

-- The ids of the assemblies that have timed out.
unfoldable pub expired : ℕ → List (ℕ × Assembly) → List ℕ
expired now [] = []
expired now ((packet_id, a) ∷ assemblies) =
    if leb reassembly_timeout (now - a.created_at)
    then packet_id ∷ expired now assemblies
    else expired now assemblies

unfoldable pub remove_all : List ℕ → FragmentReassembler → FragmentReassembler
remove_all [] r = r
remove_all (packet_id ∷ ids) r = remove_all ids (remove packet_id r)

-- `expire`
unfoldable pub expire : ℕ → FragmentReassembler → FragmentReassembler
expire now r = remove_all (expired now r.assemblies) r

-- `BTreeMap::insert`
unfoldable pub insert_ordered : ℕ → List ℕ → List (ℕ × List ℕ) → List (ℕ × List ℕ)
insert_ordered offset bytes [] = (offset, bytes) ∷ []
insert_ordered offset bytes ((o, d) ∷ fragments) =
    if ltb offset o
    then (offset, bytes) ∷ (o, d) ∷ fragments
    else if offset == o
    then (offset, bytes) ∷ fragments
    else (o, d) ∷ insert_ordered offset bytes fragments

-- The `any` over the fragments that are there.
unfoldable pub overlaps : ℕ → ℕ → List (ℕ × List ℕ) → Bool
overlaps start end [] = false
overlaps start end ((o, d) ∷ fragments) =
    (ltb start (o + length d) && ltb o end) || overlaps start end fragments

-- The loop that joins the fragments: `none` when one does not start where the last one ended.
unfoldable pub join : ℕ → List (ℕ × List ℕ) → List ℕ → Option (ℕ × List ℕ)
join expected [] packet = some (expected, packet)
join expected ((o, d) ∷ fragments) packet =
    if not (o == expected) then none else join (expected + length d) fragments (packet ++ d)

abbrev pub PushResult : Type 0
PushResult = FragmentReassembler × Result Error (Option (List ℕ))

-- The end of `push`, for an assembly that has received its length.
unfoldable pub finish : ParsedFragment → Assembly → FragmentReassembler → PushResult
finish f a r = elim (join 0 a.fragments []) [
  | none ↦ (r, ok none)
  | some x ↦
      if not (x.0 == a.total_len) then (r, ok none) else (remove f.packet_id r, ok (some x.1))
]

-- The assembly with the fragment.
unfoldable pub with_fragment : ParsedFragment → Assembly → Assembly
with_fragment f a = record a {
  received = a.received + length f.bytes;
  fragments = insert_ordered f.offset f.bytes a.fragments;
}

unfoldable pub store : ParsedFragment → Assembly → FragmentReassembler → PushResult
store f a r =
    let a' : Assembly = with_fragment f a in
    let r' : FragmentReassembler = record {
      assemblies = insert f.packet_id a' r.assemblies;
      memory = r.memory + length f.bytes;
    } in
    if not (a'.received == a'.total_len) then (r', ok none) else finish f a' r'

-- A fragment at an offset that is not there yet.
unfoldable pub add_new : ParsedFragment → Assembly → FragmentReassembler → PushResult
add_new f a r =
    if overlaps f.offset (f.offset + length f.bytes) a.fragments
    then (remove f.packet_id r, err overlapping_fragment)
    else if ltb max_reassembly_memory (r.memory + length f.bytes)
    then (r, err fragment_memory_limit_reached)
    else store f a r

-- A fragment of the assembly `a`, which `r` has.
unfoldable pub add : ParsedFragment → Assembly → FragmentReassembler → PushResult
add f a r =
    if not (a.total_len == f.total_len)
    then (remove f.packet_id r, err fragment_total_length_changed)
    else elim (find f.offset a.fragments) [
      | none ↦ add_new f a r
      | some existing ↦
          if bytes_eq existing f.bytes
          then (r, ok none)
          else (remove f.packet_id r, err conflicting_duplicate_fragment)
    ]

abbrev pub fresh : ParsedFragment → ℕ → Assembly
fresh f now = record { total_len = f.total_len; created_at = now; fragments = []; received = 0 }

-- `push` once the fragment is parsed: the entry is looked up, or put in with no fragments.
unfoldable pub push_parsed : ParsedFragment → ℕ → FragmentReassembler → PushResult
push_parsed f now r = elim (find f.packet_id r.assemblies) [
  | some a ↦ add f a r
  | none ↦
      if leb max_reassemblies (length r.assemblies)
      then (r, err fragment_reassembly_limit_reached)
      else add f (fresh f now)
          (record r { assemblies = insert f.packet_id (fresh f now) r.assemblies })
]

-- `push`
unfoldable pub push : List ℕ → ℕ → FragmentReassembler → PushResult
push body now r = elim (parse body) [
  | err e ↦ (expire now r, err e)
  | ok f ↦ push_parsed f now (expire now r)
]
