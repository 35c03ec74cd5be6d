-- ===== src/Edge/Confined.antt =====
-- Which files are served (rekaserdoba/src/h3_edge.rs).
use reka_serdoba.Common.{
  ℕ, ◌≤◌, ◌≡◌, ◌≢◌, ◌∙◌, refl, sym, ap, ap₂, subst, true, false, not, ◌||◌, Option, none, some,
  Option-cases, List, [], ◌∷◌, ◌++◌, length, ltb, bytes_eq→eq, if◌then◌else◌, Bool-cases, ◌⊎◌, inl,
  inr, ok, ok_or, bind_ok, ok_or_ok, ok_injective, arith,
}
use reka_serdoba.Edge.{
  Request, Method, get, head, connect, other, relative_of, names_of, starts_with,
}
use reka_serdoba.Edge.Decoys.{
  FilePath, FileInfo, FileRead, contents, not_found, failed, FileSystem, content_type,
  max_decoy_file_size, inside, file_of, what_was_read, read_file, read_inside, read_path,
  read_decoy_file, Response, has_file, response, serve_decoy_request,
}

starts_with-append :
    (path root : FilePath)
    → starts_with path root ≡ true
    → (rest : FilePath) × (path ≡ root ++ rest)
unfolding starts_with
starts_with-append path [] e = (path, refl)
starts_with-append [] (r ∷ root) e = absurd (cc e)
starts_with-append (p ∷ path) (r ∷ root) e =
    let (rest, same) = starts_with-append path root (ground (arith, e)) in
    (rest, ap₂ (λ (q : List ℕ) (t : FilePath). q ∷ t) (bytes_eq→eq p r (ground (arith, e))) same)

module _ (fs : FileSystem) (root : FilePath) where
  -- A regular file of at most a mebibyte below the root, which no symbolic link leads out of.
  pub record IsServed (path : FilePath) (body : List ℕ) : Type 0 where
    pub asked : FilePath
    pub resolved : fs.canonicalize asked ≡ some path
    pub below : FilePath
    pub in_root : path ≡ root ++ below
    pub info : FileInfo
    pub info_found : fs.metadata path ≡ some info
    pub regular : info.is_file ≡ true
    pub small : info.len ≤ max_decoy_file_size
    pub read : fs.read path ≡ contents body

  abbrev File : Type 0
  File = List ℕ × List ℕ

  pub inside-root :
      (asked path : FilePath)
      → inside fs root asked ≡ some path
      → (fs.canonicalize asked ≡ some path) × ((below : FilePath) × (path ≡ root ++ below))
  unfolding inside
  inside-root asked path e = elim (Option-cases (fs.canonicalize asked)) [
    | inl missing ↦ absurd (cc (rw (missing, inside) at e))
    | inr (canonical, found) ↦ elim (Bool-cases (starts_with canonical root)) [
      | inr out ↦ absurd (cc (rw (found, inside, out) at e))
      | inl within ↦
          let same : canonical ≡ path = cc (rw (found, inside, within) at e) in
          (
            found ∙ ap some same,
            subst (λ (p : FilePath). (below : FilePath) × (p ≡ root ++ below)) same
                (starts_with-append canonical root within),
          )
    ]
  ]

  read_file-IsServed :
      (asked path : FilePath) (file : File)
      → inside fs root asked ≡ some path
      → read_file fs root path ≡ ok (some file)
      → IsServed path file.0 × (file.1 ≡ content_type path)
  unfolding read_file
  read_file-IsServed asked path file within =
      bind_ok _ (ok_or (fs.metadata path) _) _ (λ info found e.
        elim (Bool-cases (not info.is_file || ltb max_decoy_file_size info.len)) [
          | inl unfit ↦ absurd (cc (rw unfit at e))
          | inr fit ↦
              let (resolved, (below, in_root)) = inside-root asked path within in
              let (was_read, type_is) =
                what_was_read-contents path (fs.read path) file (rw fit at e) in
              (
                record {
                  asked = asked;
                  resolved = resolved;
                  below = below;
                  in_root = in_root;
                  info = info;
                  info_found = ok_or_ok (fs.metadata path) _ found;
                  regular = ground (arith, fit);
                  small = ground (arith, fit);
                  read = was_read;
                },
                type_is,
              )
        ])
    where
      what_was_read-contents :
          (p : FilePath) (r : FileRead) (f : File)
          → what_was_read p r ≡ ok (some f)
          → (r ≡ contents f.0) × (f.1 ≡ content_type p)
      what_was_read-contents p (contents body) f e = (cc e, cc e)
      what_was_read-contents p not_found f e = absurd (cc e)
      what_was_read-contents p failed f e = absurd (cc e)

  -- A file that is read is one that may be served.
  abbrev Found : File → Type 0
  Found file = (path : FilePath) × IsServed path file.0 × (file.1 ≡ content_type path)

  read_inside-Found :
      (asked : FilePath) (file : File)
      → read_inside fs root (inside fs root asked) ≡ ok (some file)
      → Found file
  unfolding read_inside
  read_inside-Found asked file e = elim (Option-cases (inside fs root asked)) [
    | inl out ↦ absurd (cc (rw (out, read_inside) at e))
    | inr (path, within) ↦
        let (served, typed) =
          read_file-IsServed asked path file within (rw (within, read_inside) at e) in
        (path, served, typed)
  ]

  read_path-Found :
      (start : Option FilePath) (file : File)
      → read_path fs root start ≡ ok (some file)
      → Found file
  unfolding read_path
  read_path-Found none file = λ e. absurd (cc e)
  read_path-Found (some path) file =
      bind_ok _ (ok_or (fs.metadata path) _) _
        (λ info found e. read_inside-Found (file_of fs root path info) file e)

  read_decoy_file-Found :
      (request_path : List ℕ) (file : File)
      → read_decoy_file fs root request_path ≡ ok (some file)
      → Found file
  unfolding read_decoy_file
  read_decoy_file-Found request_path file e =
      elim (Option-cases (names_of (relative_of request_path))) [
        | inl odd ↦ absurd (cc (rw (odd, read_decoy_file) at e))
        | inr (names, plain) ↦
            read_path-Found (inside fs root (root ++ names)) file (rw (plain, read_decoy_file) at e)
      ]

  -- How a request is answered that is for no tunnel.
  pub data Answer (method : Method) (r : Response) : Type 0 where
    refused : has_file method ≡ false → r.status ≡ 405 → r.sent ≡ [] → Answer method r
    missing : has_file method ≡ true → r.status ≡ 404 → r.sent ≡ [] → Answer method r
    found :
        (path : FilePath) (body : List ℕ)
        → IsServed path body
        → r.status ≡ 200
        → r.content_type ≡ content_type path
        → r.content_length ≡ length body
        → ((method ≡ get) × (r.sent ≡ body)) ⊎ ((method ≡ head) × (r.sent ≡ []))
        → Answer method r

  answered :
      (method : Method) (file : Option File)
      → (has_file method ≡ false → file ≡ none)
      → ((f : File) → file ≡ some f → Found f)
      → Answer method (response method file)
  answered get none nothing is_found = missing refl refl refl
  answered head none nothing is_found = missing refl refl refl
  answered connect none nothing is_found = refused refl refl refl
  answered other none nothing is_found = refused refl refl refl
  answered get (some f) nothing is_found =
      let (path, served, typed) = is_found f refl in
      found path f.0 served refl typed refl (inl (refl, refl))
  answered head (some f) nothing is_found =
      let (path, served, typed) = is_found f refl in
      found path f.0 served refl typed refl (inr (refl, refl))
  answered connect (some f) nothing is_found = absurd (cc (nothing refl))
  answered other (some f) nothing is_found = absurd (cc (nothing refl))

  -- What is sent is one of the three answers.
  pub serve_decoy_request-Answer :
      (request : Request) (r : Response)
      → serve_decoy_request fs root request ≡ ok r
      → Answer request.method r
  unfolding serve_decoy_request
  serve_decoy_request-Answer request r =
      bind_ok _ (if has_file request.method then read_decoy_file fs root request.path else ok none)
        _
        (λ file read e.
          let nothing : has_file request.method ≡ false → file ≡ none =
            λ unread. sym (ok_injective (rw unread at read)) in
          subst (Answer request.method) (ok_injective e) (
            answered request.method file nothing (λ f is_file.
              elim (Bool-cases (has_file request.method)) [
                | inl has ↦ read_decoy_file-Found request.path f (rw has at read ∙ ap ok is_file)
                | inr unread ↦ absurd (none_ne_some f (sym (nothing unread) ∙ is_file))
              ])))
    where
      none_ne_some : (f : File) → none ≢ some f
      none_ne_some f e = cc e
