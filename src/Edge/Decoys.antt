-- ===== src/Edge/Decoys.antt =====
-- `read_decoy_file` and `serve_decoy_request` (rekaserdoba/src/h3_edge.rs): what a request is answered
-- that is for no tunnel.
use reka_serdoba.Common.{
  ℕ, ◌*◌, Bool, true, false, not, ◌||◌, Option, none, some, List, [], ◌∷◌, ◌++◌, length, ltb, ◌==◌,
  bytes_eq, if◌then◌else◌, Result, ok, err, ◌>>=◌, ok_or,
}
use reka_serdoba.Errors.{Error, decoy_metadata_failed, decoy_read_failed}
use reka_serdoba.Record.Keys.{codes}
use reka_serdoba.Edge.{
  Request, Method, get, head, connect, other, index_html, relative_of, names_of, starts_with,
}

abbrev pub FilePath : Type 0
FilePath = List (List ℕ)

pub record FileInfo : Type 0 where
  pub is_file : Bool
  pub is_dir : Bool
  pub len : ℕ

pub data FileRead : Type 0 where
  contents : List ℕ → FileRead
  not_found failed : FileRead

pub record FileSystem : Type 0 where
  pub canonicalize : FilePath → Option FilePath
  pub metadata : FilePath → Option FileInfo
  pub read : FilePath → FileRead

-- What follows the last dot.
unfoldable pub after_dot : List ℕ → Option (List ℕ)
after_dot [] = none
after_dot (b ∷ bs) = elim (after_dot bs) [
  | some rest ↦ some rest
  | none ↦ if b == 46 then some bs else none
]

-- `extension`: a dot at the start is part of the name.
unfoldable pub extension : FilePath → Option (List ℕ)
extension [] = none
extension ([] ∷ []) = none
extension ((b ∷ name) ∷ []) = after_dot name
extension (parent ∷ name ∷ path) = extension (name ∷ path)

abbrev type_of : List ℕ → List ℕ
type_of e =
    if bytes_eq e (codes "html")
    then codes "text/html; charset=utf-8"
    else if bytes_eq e (codes "css")
    then codes "text/css; charset=utf-8"
    else if bytes_eq e (codes "js")
    then codes "application/javascript; charset=utf-8"
    else if bytes_eq e (codes "json")
    then codes "application/json; charset=utf-8"
    else if bytes_eq e (codes "cbor")
    then codes "application/cose"
    else if bytes_eq e (codes "svg")
    then codes "image/svg+xml"
    else if bytes_eq e (codes "png")
    then codes "image/png"
    else if bytes_eq e (codes "jpg") || bytes_eq e (codes "jpeg")
    then codes "image/jpeg"
    else if bytes_eq e (codes "ico")
    then codes "image/x-icon"
    else if bytes_eq e (codes "txt")
    then codes "text/plain; charset=utf-8"
    else codes "application/octet-stream"

-- `content_type`
unfoldable pub content_type : FilePath → List ℕ
content_type path = elim (extension path) [
  | none ↦ codes "application/octet-stream"
  | some e ↦ type_of e
]

abbrev pub max_decoy_file_size : ℕ
max_decoy_file_size = 1024 * 1024

-- What comes of the reading; a file that has gone is not there.
abbrev pub what_was_read : FilePath → FileRead → Result Error (Option (List ℕ × List ℕ))
what_was_read path (contents body) = ok (some (body, content_type path))
what_was_read path not_found = ok none
what_was_read path failed = err decoy_read_failed

-- The response, with the body that is sent after it.
pub record Response : Type 0 where
  pub status : ℕ
  pub content_type : List ℕ
  pub content_length : ℕ
  pub sent : List ℕ

abbrev pub has_file : Method → Bool
has_file get = true
has_file head = true
has_file connect = false
has_file other = false

abbrev pub is_head : Method → Bool
is_head head = true
is_head get = false
is_head connect = false
is_head other = false

abbrev pub status_of : Method → Option (List ℕ × List ℕ) → ℕ
status_of method none = if has_file method then 404 else 405
status_of method (some file) = if has_file method then 200 else 405

abbrev pub body_of : Option (List ℕ × List ℕ) → List ℕ
body_of none = []
body_of (some file) = file.0

abbrev pub type_or_plain : Option (List ℕ × List ℕ) → List ℕ
type_or_plain none = codes "text/plain; charset=utf-8"
type_or_plain (some file) = file.1

abbrev pub response : Method → Option (List ℕ × List ℕ) → Response
response method file = record {
  status = status_of method file;
  content_type = type_or_plain file;
  content_length = length (body_of file);
  sent = if is_head method then [] else body_of file;
}

module _ (fs : FileSystem) (root : FilePath) where
  -- The path that is meant, if it is inside of the root.
  unfoldable pub inside : FilePath → Option FilePath
  inside path = elim (fs.canonicalize path) [
    | none ↦ none
    | some canonical ↦ if starts_with canonical root then some canonical else none
  ]

  -- A directory stands for its index.
  abbrev pub file_of : FilePath → FileInfo → FilePath
  file_of path info = if info.is_dir then path ++ (index_html ∷ []) else path

  -- The end of the function, on the path of a file.
  unfoldable pub read_file : FilePath → Result Error (Option (List ℕ × List ℕ))
  read_file path = do
    info ← ok_or (fs.metadata path) decoy_metadata_failed
    (if not info.is_file || ltb max_decoy_file_size info.len
        then ok none
        else what_was_read path (fs.read path))

  unfoldable pub read_inside : Option FilePath → Result Error (Option (List ℕ × List ℕ))
  read_inside none = ok none
  read_inside (some path) = read_file path

  -- From the first path on.
  unfoldable pub read_path : Option FilePath → Result Error (Option (List ℕ × List ℕ))
  read_path none = ok none
  read_path (some path) = do
    info ← ok_or (fs.metadata path) decoy_metadata_failed
    read_inside (inside (file_of path info))

  -- `read_decoy_file`
  unfoldable pub read_decoy_file : List ℕ → Result Error (Option (List ℕ × List ℕ))
  read_decoy_file request_path = elim (names_of (relative_of request_path)) [
    | none ↦ ok none
    | some names ↦ read_path (inside (root ++ names))
  ]

  -- `serve_decoy_request`
  unfoldable pub serve_decoy_request : Request → Result Error Response
  serve_decoy_request request = do
    file ← if has_file request.method then read_decoy_file request.path else ok none
    ok (response request.method file)
