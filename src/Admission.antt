-- ===== src/Admission.antt =====
-- `Runtime::check_admission_rate` (rekaserdoba/src/main.rs): how often a source may knock. An
-- `IpAddr` is a number, an `Instant` one of nanoseconds; the `HashMap` is a list of pairs and a
-- `VecDeque` a list, oldest first. The lock is held for the whole function.
pub mod Window
pub mod Counting
pub mod Limit
use reka_serdoba.Common.{
  ℕ, ◌-◌, ◌*◌, Bool, true, false, not, ◌&&◌, Option, none, some, List, [], ◌∷◌, ◌++◌, length, ltb,
  leb, if◌then◌else◌, Result, ok, err,
}
use reka_serdoba.Common.Maps.{find, insert}
use reka_serdoba.Errors.{Error, admission_rate_table_full, admission_rate_exceeded}

-- 60 seconds.
abbrev pub admission_window : ℕ
admission_window = 60 * 1000000000

abbrev pub max_sources : ℕ
max_sources = 8192

abbrev pub max_attempts : ℕ
max_attempts = 60

abbrev pub AdmissionRate : Type 0
AdmissionRate = List (ℕ × List ℕ)

-- `attempts.back().is_some_and(|seen| *seen >= cutoff)`
unfoldable pub is_recent : ℕ → List ℕ → Bool
is_recent cutoff [] = false
is_recent cutoff (seen ∷ []) = leb cutoff seen
is_recent cutoff (first ∷ seen ∷ attempts) = is_recent cutoff (seen ∷ attempts)

-- `rates.retain(...)`
unfoldable pub retain : ℕ → AdmissionRate → AdmissionRate
retain cutoff [] = []
retain cutoff ((source, attempts) ∷ rates) =
    if is_recent cutoff attempts
    then (source, attempts) ∷ retain cutoff rates
    else retain cutoff rates

-- The loop that pops the front.
unfoldable pub pop_before : ℕ → List ℕ → List ℕ
pop_before cutoff [] = []
pop_before cutoff (seen ∷ attempts) =
    if ltb seen cutoff then pop_before cutoff attempts else seen ∷ attempts

abbrev pub is_there : Option (List ℕ) → Bool
is_there none = false
is_there (some attempts) = true

-- `or_default()`
abbrev pub or_default : Option (List ℕ) → List ℕ
or_default none = []
or_default (some attempts) = attempts

-- The end of the function, on the attempts of the source that are left; the entry is there by then.
unfoldable pub admit : ℕ → ℕ → List ℕ → AdmissionRate → AdmissionRate × Result Error (Unit {0})
admit source now attempts rates =
    if leb max_attempts (length attempts)
    then (insert source attempts rates, err admission_rate_exceeded)
    else (insert source (attempts ++ (now ∷ [])) rates, ok tt)

-- `check_admission_rate`. The cutoff stops at 0, before which there are no times.
unfoldable pub check_admission_rate :
    ℕ → ℕ → AdmissionRate → AdmissionRate × Result Error (Unit {0})
check_admission_rate source now rates =
    let cutoff : ℕ = now - admission_window in
    let kept : AdmissionRate = retain cutoff rates in
    if leb max_sources (length kept) && not (is_there (find source kept))
    then (kept, err admission_rate_table_full)
    else admit source now (pop_before cutoff (or_default (find source kept))) kept
