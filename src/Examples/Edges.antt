-- ===== src/Examples/Edges.antt =====
-- Requests to the H3 endpoint at concrete inputs.
use reka_serdoba.Common.{
  ℕ, ◌≡◌, ◌↔◌, refl, true, false, Option, none, some, List, [], ◌∷◌, length, ok, bytes_eq, ◌==◌,
  if◌then◌else◌,
}
use reka_serdoba.Record.Keys.{codes}
use reka_serdoba.Edge
use reka_serdoba.Edge.{
  Request, Method, get, head, connect, is_tunnel_request, index_html, relative_of, names_of,
  starts_with,
}
use reka_serdoba.Edge.Authorities.{IsSameHost, is_tunnel_request_iff}
use reka_serdoba.Edge.Decoys.{
  FilePath, FileInfo, FileRead, contents, FileSystem, Response, serve_decoy_request,
  read_decoy_file,
}
use reka_serdoba.Edge.Decoys

abbrev root : FilePath
root = codes "srv" ∷ []

-- `/srv/leak` is a symbolic link out of the root, and every other path is what it says.
abbrev resolve : FilePath → Option FilePath
resolve path =
    if starts_with (codes "srv" ∷ codes "leak" ∷ []) path
    then some (codes "etc" ∷ codes "passwd" ∷ [])
    else some path

-- The root is a directory, and what is below it are files of two bytes.
abbrev info_of : FilePath → Option FileInfo
info_of path =
    if length path == 1
    then some (record { is_file = false; is_dir = true; len = 0 })
    else some (record { is_file = true; is_dir = false; len = 2 })

abbrev files : FileSystem
files = record { canonicalize = resolve; metadata = info_of; read = λ path. contents (7 ∷ 8 ∷ []) }

abbrev request : Method → List ℕ → Request
request method path = record {
  method = method;
  is_web_transport = true;
  path = path;
  authority = some (codes "River.example");
}

abbrev index : Response
index = record {
  status = 200;
  content_type = codes "text/html; charset=utf-8";
  content_length = 2;
  sent = 7 ∷ 8 ∷ [];
}

index_served : serve_decoy_request files root (request get (codes "//")) ≡ ok index
unfolding serve_decoy_request read_decoy_file Edge.trim_slashes relative_of Edge.components_of
    Edge.split_segments Edge.component_of names_of Decoys.inside Decoys.read_path Decoys.read_inside
    Decoys.read_file Decoys.content_type Decoys.extension Decoys.after_dot starts_with bytes_eq
index_served = refl

-- What a link leads to outside of the root is not there, and no path leads up.
leak_refused : read_decoy_file files root (codes "/leak") ≡ ok none
unfolding read_decoy_file Edge.trim_slashes relative_of Edge.components_of Edge.split_segments
    Edge.component_of names_of Decoys.inside Decoys.read_path Decoys.read_inside Decoys.read_file
    Decoys.content_type Decoys.extension Decoys.after_dot starts_with bytes_eq
leak_refused = refl

up_refused : read_decoy_file files root (codes "/a/../../etc/passwd") ≡ ok none
unfolding read_decoy_file Edge.trim_slashes relative_of Edge.components_of Edge.split_segments
    Edge.component_of names_of bytes_eq
up_refused = refl

is_tunnel_request_iff_example :
    (is_tunnel_request
        (request connect (codes "/library"))
        (codes "river.example:443")
        (codes "/library")
      ≡ true)
    ↔ ((connect ≡ connect)
        × (true ≡ true)
        × (codes "/library" ≡ codes "/library")
        × ((received : List ℕ) × (some (codes "River.example") ≡ some received)
            × IsSameHost received (codes "river.example:443")))
is_tunnel_request_iff_example =
    is_tunnel_request_iff (request connect (codes "/library")) (codes "river.example:443")
      (codes "/library")

-- The port may be left out.
let_in :
    is_tunnel_request
      (request connect (codes "/library"))
      (codes "river.example:443")
      (codes "/library")
    ≡ true
unfolding is_tunnel_request Edge.authority_matches Edge.eq_ignore_ascii_case Edge.strip_suffix
    bytes_eq
let_in = refl
