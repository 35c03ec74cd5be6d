-- ===== src/Serving/Invariant/Shaping.antt =====
-- Bytes are granted before they go to the kernel.
use reka_serdoba.Common.{
  ℕ, ◌+◌, ◌≤◌, ◌≡◌, ◌∙◌, sym, subst, inl, inr, Option, List, [], ◌∷◌, length, All-append, ◌==◌,
  if◌then◌else◌, Bool-cases, Result, ok, Result-cases, arith,
}
use reka_serdoba.Common.Steps.{continue}
use reka_serdoba.Errors.{Error}
use reka_serdoba.Packets.{validate_ipv4_packet}
use reka_serdoba.Policy.{SessionPolicy}
use reka_serdoba.Policy
use reka_serdoba.Policy.Reserve.{
  Within, granted, reserve-quota, reserve-transferred, reserve-Within,
}
use reka_serdoba.Serving.{
  Serving, World, reserve_bytes, count_delay, read_clock, shape_traffic, send_to_kernel,
}
use reka_serdoba.Serving.Invariant.{
  IsServed, total_len, total_len-append, read_clock-IsServed, unrelated-IsServed,
}

module _ (address : List ℕ) (quota : Option ℕ) where
  -- So many more bytes were granted than went to the kernel.
  abbrev pub HasRoom : ℕ → Serving → Type 0
  HasRoom bytes s =
      IsServed address quota s × (total_len s.kernel + bytes ≤ s.session.policy.transferred)

  reserved :
      (bytes now : ℕ) (s : Serving)
      → IsServed address quota s
      → IsServed address quota (reserve_bytes bytes now s).0
        × (total_len (reserve_bytes bytes now s).0.kernel
              + granted bytes (reserve_bytes bytes now s).1
            ≤ (reserve_bytes bytes now s).0.session.policy.transferred)
  unfolding reserve_bytes
  reserved bytes now s h =
      let p : SessionPolicy = s.session.policy in
      let more = reserve-transferred p bytes now in
      (
        record {
          crypto = h.crypto;
          fragments = h.fragments;
          packets = h.packets;
          granted_bytes = omega (arith, h.granted_bytes, more);
          same_quota = reserve-quota p bytes now ∙ h.same_quota;
          within =
              subst (λ (q : Option ℕ). Within q (Policy.reserve p bytes now).0.transferred)
                h.same_quota
                (reserve-Within p bytes now
                  (subst (λ (q : Option ℕ). Within q p.transferred) (sym h.same_quota) h.within));
        },
        omega (arith, h.granted_bytes, more),
      )

  module _ (w : World) where
    -- What shaping leaves: on success, room for the bytes.
    abbrev pub Shaped : ℕ → Serving × Result Error (Unit {0}) → Type 0
    Shaped bytes x = IsServed address quota x.0 × ((u : Unit {0}) → x.1 ≡ ok u → HasRoom bytes x.0)

    delay_counted :
        (bytes delay : ℕ) (s : Serving)
        → HasRoom bytes s
        → HasRoom bytes
            (if delay == 0 then s else record s { metrics = count_delay delay s.metrics })
    delay_counted bytes delay s (h, room) = elim (Bool-cases (delay == 0)) [
      | inl e ↦ rw e (h, room)
      | inr e ↦ rw e (
        unrelated-IsServed address quota s s.link (count_delay delay s.metrics) s.ticks s.draws h,
        room,
      )
    ]

    pub shape_traffic-Shaped :
        (bytes : ℕ) (s : Serving)
        → IsServed address quota s
        → Shaped bytes (shape_traffic w bytes s)
    unfolding shape_traffic read_clock continue
    shape_traffic-Shaped bytes s h =
        let t : Serving = record s { ticks = s.ticks + 1 } in
        let done = reserved bytes (w.clock s.ticks) t (read_clock-IsServed address quota w s h) in
        elim (Result-cases (reserve_bytes bytes (w.clock s.ticks) t).1) [
          | inr (f, e) ↦ rw (e, shape_traffic, read_clock, continue) (done.0, λ u p. absurd (cc p))
          | inl (delay, e) ↦
              let room =
                delay_counted bytes delay (reserve_bytes bytes (w.clock s.ticks) t).0
                  (done.0, rw e at done.1) in
              rw (e, shape_traffic, read_clock, continue) (room.0, λ u p. room)
        ]

    pub send_to_kernel-IsServed :
        (packet : List ℕ) (s : Serving)
        → validate_ipv4_packet packet address ≡ ok tt
        → HasRoom (length packet) s
        → IsServed address quota (send_to_kernel w packet s).0
    unfolding send_to_kernel
    send_to_kernel-IsServed packet s valid (h, room) = elim (Bool-cases (w.accepts packet)) [
      | inr e ↦ rw e h
      | inl e ↦ rw e (record {
        crypto = h.crypto;
        fragments = h.fragments;
        packets = All-append _ s.kernel (packet ∷ []) h.packets (valid, tt);
        granted_bytes = omega (arith, room, total_len-append s.kernel packet);
        same_quota = h.same_quota;
        within = h.within;
      })
    ]
