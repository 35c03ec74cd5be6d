-- ===== src/Edge/Answered.antt =====
-- When a request for no tunnel is answered (rekaserdoba/src/h3_edge.rs).
use reka_serdoba.Common.{◌≡◌, true, none, some, Result, ok, err}
use reka_serdoba.Errors.{Error}
use reka_serdoba.Edge.{Request}
use reka_serdoba.Edge.Decoys.{FilePath, failed, FileSystem, Response, has_file}
use reka_serdoba.Edge.Confined.{Answer}

module _ (fs : FileSystem) (root : FilePath) where
  -- Why a request gets no answer: the file system does not tell about a path that was resolved, or
  -- fails to read a regular file.
  pub data Broken : Type 0 where
    no_metadata :
        (asked path : FilePath)
        → fs.canonicalize asked ≡ some path
        → fs.metadata path ≡ none
        → Broken
    unreadable : (path : FilePath) → fs.read path ≡ failed → Broken

  -- A call that fails for one of these reasons.
  abbrev IsExcused {ℓ} : {A : Type ℓ} → Result Error A → Type 0
  IsExcused (ok a) = Unit {0}
  IsExcused (err e) = Broken

  -- How a request is met that is for no tunnel: by an answer, or by none for a reason.
  abbrev pub Met : Request → Result Error Response → Type 0
  Met request (ok r) = Answer fs root request.method r
  Met request (err e) = (has_file request.method ≡ true) × Broken
