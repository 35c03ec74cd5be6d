-- ===== src/Examples/Admissions.antt =====
-- The admission rate at concrete inputs.
use reka_serdoba.Common.{ℕ, ◌≡◌, refl, List, [], ◌∷◌}
use reka_serdoba.Common.Maps.{find, insert}
use reka_serdoba.Admission
use reka_serdoba.Admission.{AdmissionRate, check_admission_rate}
use reka_serdoba.Admission.Counting.{admitted}

-- Two knocks of the source 7, and one more a minute and a half later.
abbrev knocks : List (ℕ × ℕ)
knocks = (7, 1000) ∷ (7, 2000) ∷ (7, 90000000000) ∷ []

abbrev seen : AdmissionRate
seen = (7, 1000 ∷ 2000 ∷ []) ∷ []

let_through : admitted 7 knocks [] ≡ 1000 ∷ 2000 ∷ 90000000000 ∷ []
unfolding admitted check_admission_rate Admission.retain Admission.is_recent Admission.pop_before
    Admission.admit find insert
let_through = refl

-- The attempts of a minute ago are forgotten.
forgotten : (check_admission_rate 7 90000000000 seen).0 ≡ (7, 90000000000 ∷ []) ∷ []
unfolding check_admission_rate Admission.retain Admission.is_recent Admission.pop_before
    Admission.admit find insert
forgotten = refl
