-- ===== src/Edge.antt =====
-- The H3 endpoint (rekaserdoba/src/h3_edge.rs): which requests are for a tunnel, and what the others
-- are answered. A path of the file system is the list of its components; the file system is a record
-- of functions, and does not change during a request.
pub mod Authorities
pub mod Decoys
pub mod Confined
pub mod Answered
use reka_serdoba.Common.{
  ℕ, ◌+◌, ◌-◌, ◌*◌, Bool, true, false, not, ◌&&◌, ◌||◌, Option, none, some, List, [], ◌∷◌, ◌++◌,
  length, take, drop, ltb, leb, ◌==◌, bytes_eq, if◌then◌else◌, Result, ok, err, ◌>>=◌,
}
use reka_serdoba.Record.Keys.{codes}

-- `eq_ignore_ascii_case`
abbrev pub to_ascii_lowercase : ℕ → ℕ
to_ascii_lowercase b = if leb 65 b && leb b 90 then b + 32 else b

unfoldable pub eq_ignore_ascii_case : List ℕ → List ℕ → Bool
eq_ignore_ascii_case [] [] = true
eq_ignore_ascii_case [] (b ∷ bs) = false
eq_ignore_ascii_case (a ∷ as') [] = false
eq_ignore_ascii_case (a ∷ as') (b ∷ bs) =
    (to_ascii_lowercase a == to_ascii_lowercase b) && eq_ignore_ascii_case as' bs

-- `strip_suffix`
unfoldable pub strip_suffix : List ℕ → List ℕ → Option (List ℕ)
strip_suffix suffix text =
    let n : ℕ = length text - length suffix in
    if leb (length suffix) (length text) && bytes_eq (drop n text) suffix
    then some (take n text)
    else none

abbrev pub port : List ℕ
port = codes ":443"

-- `is_some_and`
abbrev pub is_same : Option (List ℕ) → List ℕ → Bool
is_same none other = false
is_same (some value) other = eq_ignore_ascii_case value other

-- `authority_matches`
unfoldable pub authority_matches : List ℕ → List ℕ → Bool
authority_matches received expected =
    eq_ignore_ascii_case received expected
    || (is_same (strip_suffix port received) expected
        || is_same (strip_suffix port expected) received)

pub data Method : Type 0 where
  get head connect other : Method

-- What is read of a request.
pub record Request : Type 0 where
  pub method : Method
  pub is_web_transport : Bool
  pub path : List ℕ
  pub authority : Option (List ℕ)

abbrev pub is_connect : Method → Bool
is_connect connect = true
is_connect get = false
is_connect head = false
is_connect other = false

abbrev pub is_for : Option (List ℕ) → List ℕ → Bool
is_for none authority = false
is_for (some received) authority = authority_matches received authority

-- `is_tunnel_request`
unfoldable pub is_tunnel_request : Request → List ℕ → List ℕ → Bool
is_tunnel_request request authority path =
    is_connect request.method
    && (request.is_web_transport
        && (bytes_eq request.path path && is_for request.authority authority))

-- `Component`, of a path that does not start with a slash.
pub data Component : Type 0 where
  normal : List ℕ → Component
  parent_dir cur_dir : Component

-- The segments between slashes.
unfoldable pub split_segments : List ℕ → List ℕ → List (List ℕ)
split_segments segment [] = segment ∷ []
split_segments segment (b ∷ bs) =
    if b == 47 then segment ∷ split_segments [] bs else split_segments (segment ++ (b ∷ [])) bs

-- An empty segment is no component, and neither is a dot, unless it comes first.
unfoldable pub component_of : Bool → List ℕ → List Component
component_of is_first segment =
    if length segment == 0
    then []
    else if bytes_eq segment (codes ".")
    then (if is_first then cur_dir ∷ [] else [])
    else if bytes_eq segment (codes "..")
    then parent_dir ∷ []
    else normal segment ∷ []

unfoldable pub components_of : Bool → List (List ℕ) → List Component
components_of is_first [] = []
components_of is_first (segment ∷ segments) =
    component_of is_first segment ++ components_of false segments

-- `trim_start_matches('/')`
unfoldable pub trim_slashes : List ℕ → List ℕ
trim_slashes [] = []
trim_slashes (b ∷ bs) = if b == 47 then trim_slashes bs else b ∷ bs

abbrev pub index_html : List ℕ
index_html = codes "index.html"

-- The path that a request names below the root.
unfoldable pub relative_of : List ℕ → List Component
relative_of request_path =
    let relative : List ℕ = trim_slashes request_path in
    components_of true (split_segments [] (if length relative == 0 then index_html else relative))

-- The names, if every component is a normal one.
unfoldable pub names_of : List Component → Option (List (List ℕ))
names_of [] = some []
names_of (normal name ∷ components) = elim (names_of components) [
  | none ↦ none
  | some names ↦ some (name ∷ names)
]
names_of (parent_dir ∷ components) = none
names_of (cur_dir ∷ components) = none

-- `starts_with`
unfoldable pub starts_with : List (List ℕ) → List (List ℕ) → Bool
starts_with path [] = true
starts_with [] (r ∷ root) = false
starts_with (p ∷ path) (r ∷ root) = bytes_eq p r && starts_with path root
