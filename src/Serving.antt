-- ===== src/Serving.antt =====
-- An established session at work (rekaserdoba/src/main.rs): its state with what goes to the carrier
-- and to the kernel, and the calls of the parts that it is made of. `Instant::now()` reads the next
-- entry of a clock, a random value is the next one of a source, and a packet that the network
-- refuses is one of those that `accepts` does not hold of: these are arguments. Waiting has no
-- other effect than that the clock goes on.
pub mod Records
pub mod Loop
pub mod Invariant
use reka_serdoba.Common.{
  ℕ, ◌+◌, ◌-◌, ◌/◌, ◌%◌, ◌^◌, min, Bool, true, false, Option, none, some, List, [], ◌∷◌, ◌++◌,
  length, ◌==◌, if◌then◌else◌, Result, ok, err,
}
use reka_serdoba.Common.Steps.{Step, continue, ◌>>=◌, ◌>>◌, modify, pure}
use reka_serdoba.Errors.{Error, kernel_write_failed}
use reka_serdoba.Crypto.{Crypto}
use reka_serdoba.Rekey.Session.{SessionStep}
use reka_serdoba.Fragment
use reka_serdoba.Policy
use reka_serdoba.Carrier.Events.{Link, LinkStep}
use reka_serdoba.Handshake.Exchange.{EstablishedSession}

-- The counters that a session raises.
pub record Metrics : Type 0 where
  pub shaping_delay_micros_total : ℕ
  pub routine_rekeys_total : ℕ
  pub full_rekeys_total : ℕ
  pub rekey_failed_total : ℕ
  pub migrations_total : ℕ
  pub migration_failed_total : ℕ

-- The session, the carrier in use, the packets that went to the kernel, oldest first, and how far the
-- clock and the source of random values have been read.
pub record Serving : Type 0 where
  pub session : EstablishedSession
  pub link : Link
  pub kernel : List (List ℕ)
  pub metrics : Metrics
  pub ticks : ℕ
  pub draws : ℕ

abbrev pub ServingStep : Type 0 → Type 0
ServingStep A = Step Serving Error A

-- `fetch_add`, which wraps.
abbrev pub raised : ℕ → ℕ → ℕ
raised counter n = (counter + n) % 2 ^ 64

-- What the session runs in.
pub record World : Type 0 where
  pub clock : ℕ → ℕ
  pub random : ℕ → List ℕ
  pub accepts : List ℕ → Bool

-- A call on the session's keys, its fragments or its policy, or on the carrier.
unfoldable pub on_crypto : {A : Type 0} → SessionStep A → ServingStep A
on_crypto m s =
    let (crypto, r) = m s.session.crypto in
    (record s { session = record s.session { crypto = crypto } }, r)

unfoldable pub on_link : {A : Type 0} → LinkStep A → ServingStep A
on_link m s = let (link, r) = m s.link in (record s { link = link }, r)

unfoldable pub push_fragment : List ℕ → ℕ → ServingStep (Option (List ℕ))
push_fragment body now s =
    let (fragments, r) = Fragment.push body now s.session.fragments in
    (record s { session = record s.session { fragments = fragments } }, r)

unfoldable pub reserve_bytes : ℕ → ℕ → ServingStep ℕ
reserve_bytes bytes now s =
    let (policy, r) = Policy.reserve s.session.policy bytes now in
    (record s { session = record s.session { policy = policy } }, r)

abbrev pub count_delay : ℕ → Metrics → Metrics
count_delay delay metrics = record metrics {
  shaping_delay_micros_total =
      raised metrics.shaping_delay_micros_total (min (delay / 1000) (2 ^ 64 - 1));
}

-- The metric of a call that failed.
unfoldable pub count_failed : {A : Type 0} → ServingStep A → ServingStep A
count_failed m s = elim (m s).1 [
  | ok a ↦ ((m s).0, ok a)
  | err e ↦
      let t : Serving = (m s).0 in
      (
        record t {
          metrics = record t.metrics { rekey_failed_total = raised t.metrics.rekey_failed_total 1 };
        },
        err e,
      )
]

module _ (w : World) where
  -- `Instant::now()`
  unfoldable pub read_clock : ServingStep ℕ
  read_clock s = (record s { ticks = s.ticks + 1 }, ok (w.clock s.ticks))

  unfoldable pub draw : ServingStep (List ℕ)
  draw s = (record s { draws = s.draws + 1 }, ok (w.random s.draws))

  -- `shape_traffic`
  unfoldable pub shape_traffic : ℕ → ServingStep (Unit {0})
  shape_traffic bytes = do
    now ← read_clock
    delay ← reserve_bytes bytes now
    modify (λ (s : Serving).
        if delay == 0 then s else record s { metrics = count_delay delay s.metrics })

  -- `Network::send_to_kernel`
  unfoldable pub send_to_kernel : List ℕ → ServingStep (Unit {0})
  send_to_kernel packet s =
      if w.accepts packet
      then (record s { kernel = s.kernel ++ (packet ∷ []) }, ok tt)
      else (s, err kernel_write_failed)
