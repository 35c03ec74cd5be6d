-- ===== src/Tunnels/Rate.antt =====
-- How many requests of one source get past the three doors (rekaserdoba/src/main.rs).
use reka_serdoba.Common.{
  ℕ, ◌≤◌, ◌≡◌, ◌≢◌, refl, sym, subst, length, Bool, true, false, ◌&&◌, Option, List, [], ◌∷◌, ◌++◌,
  ◌==◌, if◌then◌else◌, Bool-cases, Result, ok, err, inl, inr, arith,
}
use reka_serdoba.Errors.{Error}
use reka_serdoba.Crypto.{Crypto}
use reka_serdoba.Admission.{AdmissionRate, check_admission_rate, max_attempts, max_sources}
use reka_serdoba.Admission.Window.{IsBounded, Kept_later, check_admission_rate-IsBounded}
use reka_serdoba.Admission.Counting.{count_in, let_through, admitted, Forward}
use reka_serdoba.Admission.Limit.{admitted_at_most, count_in-join}
use reka_serdoba.Tunnels.{AppState, Admission, Refusal, Times, Arrival, arrive}
use reka_serdoba.Tunnels.Passage.{source_of, unseen, seen}
use reka_serdoba.Tunnels.Doors.{arrive-Passage}
use reka_serdoba.Tunnels.Once.{arrive_all}

abbrev pub is_let_in : Result Refusal Admission → Bool
is_let_in (ok admission) = true
is_let_in (err refusal) = false

-- The clock of the rate does not run backwards.
abbrev pub ClockForward : ℕ → List (Arrival × Times) → Type 0
ClockForward t [] = Unit {0}
ClockForward t ((a, times) ∷ arrivals) = (t ≤ times.rate) × ClockForward times.rate arrivals

Forward-sooner :
    (t now : ℕ) (knocks : List (ℕ × ℕ)) → t ≤ now → Forward now knocks → Forward t knocks
Forward-sooner t now [] h k = tt
Forward-sooner t now ((source, next) ∷ knocks) h (k, ks) = (omega (arith, h, k), ks)

head : Bool → ℕ → Result Refusal Admission → List ℕ
head same now r = if same && is_let_in r then now ∷ [] else []

head-refused :
    (from now : ℕ) (same : Bool) (r : Result Refusal Admission)
    → ((a : Admission) → r ≢ ok a)
    → count_in from (head same now r) ≡ 0
unfolding head
head-refused from now same (ok a) refused = absurd (refused a refl)
head-refused from now false (err refusal) refused = refl
head-refused from now true (err refusal) refused = refl

head-passed :
    (from now by source : ℕ) (r : Result Refusal Admission) (k : Result Error (Unit {0}))
    → ((a : Admission) → r ≡ ok a → k ≡ ok tt)
    → count_in from (head (by == source) now r) ≤ count_in from (let_through source by now k)
unfolding head
head-passed from now by source (ok a) k passed = rw (passed a refl) (omega arith)
head-passed from now by source (err refusal) k passed = elim (Bool-cases (by == source)) [
  | inl e ↦ rw e (omega arith)
  | inr e ↦ rw e (omega arith)
]

module _ (c : Crypto) (decode : List ℕ → Option (List ℕ)) (is_loopback : ℕ → Bool)
    (parse_ip : List ℕ → Option ℕ) (is_text : List ℕ → Bool) where
  -- When the requests of `source` came that were let in, in a run of requests at the doors.
  unfoldable pub let_in : ℕ → List (Arrival × Times) → AppState → List ℕ
  let_in source [] s = []
  let_in source ((a, times) ∷ arrivals) s =
      let x = arrive c decode is_loopback parse_ip is_text a times s in
      (if (source_of is_loopback parse_ip a == source) && is_let_in x.1
        then times.rate ∷ []
        else [])
      ++ let_in source arrivals x.0

  let_in-admitted :
      (from source t : ℕ) (arrivals : List (Arrival × Times)) (s : AppState)
      → ClockForward t arrivals
      → (knocks : List (ℕ × ℕ)) × Forward t knocks
        × (count_in from (let_in source arrivals s)
            ≤ count_in from (admitted source knocks s.runtime.admission_rate))
  unfolding let_in admitted head
  let_in-admitted from source t [] s h = ([], tt, omega arith)
  let_in-admitted from source t ((a, times) ∷ arrivals) s (h, hs) =
      let x = arrive c decode is_loopback parse_ip is_text a times s in
      let by : ℕ = source_of is_loopback parse_ip a in
      let (knocks, forward, few) = let_in-admitted from source times.rate arrivals x.0 hs in
      elim (arrive-Passage c decode is_loopback parse_ip is_text a times s).knock [
        | unseen same refused ↦ (
          knocks,
          Forward-sooner t times.rate knocks h forward,
          omega (
            arith,
            count_in-join from (head (by == source) times.rate x.1) (let_in source arrivals x.0),
            head-refused from times.rate (by == source) x.1 refused,
            subst
                (λ (r : AdmissionRate).
                  count_in from (let_in source arrivals x.0)
                  ≤ count_in from (admitted source knocks r))
                same few,
          ),
        )
        | seen rates passed ↦
            let r = check_admission_rate by times.rate s.runtime.admission_rate in
            (
              (by, times.rate) ∷ knocks,
              (h, forward),
              omega (
                arith,
                count_in-join from (head (by == source) times.rate x.1)
                    (let_in source arrivals x.0),
                head-passed from times.rate by source x.1 r.1 passed,
                count_in-join from (let_through source by times.rate r.1)
                    (admitted source knocks r.0),
                subst
                    (λ (r : AdmissionRate).
                      count_in from (let_in source arrivals x.0)
                      ≤ count_in from (admitted source knocks r))
                    rates few,
              ),
            )
      ]

  arrive_all-bounded :
      (t : ℕ) (arrivals : List (Arrival × Times)) (s : AppState)
      → ClockForward t arrivals
      → IsBounded t s.runtime.admission_rate
      → length (arrive_all c decode is_loopback parse_ip is_text arrivals s).runtime.admission_rate
        ≤ max_sources
  unfolding arrive_all
  arrive_all-bounded t [] s h b = b.sources
  arrive_all-bounded t ((a, times) ∷ arrivals) s (h, hs) b =
      let x = arrive c decode is_loopback parse_ip is_text a times s in
      arrive_all-bounded times.rate arrivals x.0 hs
        (elim (arrive-Passage c decode is_loopback parse_ip is_text a times s).knock [
          | unseen same refused ↦ subst (IsBounded times.rate) (sym same) (record {
            sources = b.sources;
            attempts = Kept_later t times.rate s.runtime.admission_rate h b.attempts;
          })
          | seen rates passed ↦ subst (IsBounded times.rate) (sym rates) (
              check_admission_rate-IsBounded (source_of is_loopback parse_ip a) t times.rate
                s.runtime.admission_rate h b)
        ])

  -- Whatever requests come at the three doors, whenever, with a clock that does not run backwards,
  -- at a server that has seen none: of one source at most 60 are let in within any 60 seconds, both
  -- ends included, as clients and for migrations, at all doors together; and the server keeps the
  -- attempts of at most 8192 sources.
  pub let_in_at_most :
      (from source t : ℕ) (arrivals : List (Arrival × Times)) (s : AppState)
      → s.runtime.admission_rate ≡ []
      → ClockForward t arrivals
      → (count_in from (let_in source arrivals s) ≤ max_attempts)
        × (length
              (arrive_all c decode is_loopback parse_ip is_text arrivals s).runtime.admission_rate
            ≤ max_sources)
  let_in_at_most from source t arrivals s fresh forward =
      let (knocks, knocks_forward, few) = let_in-admitted from source t arrivals s forward in
      (
        omega (
          arith,
          subst
              (λ (r : AdmissionRate).
                count_in from (let_in source arrivals s) ≤ count_in from (admitted source knocks r))
              fresh few,
          admitted_at_most from source t knocks knocks_forward,
        ),
        arrive_all-bounded t arrivals s forward
            (subst (IsBounded t) (sym fresh) (record { sources = omega arith; attempts = tt })),
      )
