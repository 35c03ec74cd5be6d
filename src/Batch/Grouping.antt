-- ===== src/Batch/Grouping.antt =====
-- The frames that each record of a batch holds (rekaserdoba/src/packet_batch.rs).
use reka_serdoba.Common.{
  ℕ, ◌+◌, ◌≤◌, ◌≡◌, ◌∙◌, refl, sym, ap, ap₂, subst, not, ◌&&◌, List, [], ◌∷◌, ◌++◌, map,
  append_assoc, append-nil, concat, concat-append, length, All, ltb, Bool-cases, ok, inl, inr,
}
use reka_serdoba.Record.Frames.{Frame, wire}
use reka_serdoba.Record.Frames.Taking.{wires}
use reka_serdoba.Batch.{is_empty, pack, pack_packets, close_last, batch_packets}
use reka_serdoba.Batch.Parts.{frames_of, encode_packet-frames}

wires-append : (fs gs : List Frame) → wires (fs ++ gs) ≡ wires fs ++ wires gs
wires-append [] gs = refl
wires-append (f ∷ fs) gs =
    ap (λ (t : List ℕ). wire f ++ t) (wires-append fs gs)
    ∙ sym (append_assoc (wire f) (wires fs) (wires gs))

map-wires_last :
    (groups : List (List Frame)) (g : List Frame)
    → map wires (groups ++ (g ∷ [])) ≡ map wires groups ++ (wires g ∷ [])
map-wires_last [] g = refl
map-wires_last (h ∷ groups) g = ap (λ (t : List (List ℕ)). wires h ∷ t) (map-wires_last groups g)

concat_last :
    (groups : List (List Frame)) (g : List Frame) → concat (groups ++ (g ∷ [])) ≡ concat groups ++ g
concat_last groups g =
    concat-append groups (g ∷ []) ∙ ap (λ (t : List Frame). concat groups ++ t) (append-nil g)

-- Whole frames: `groups` in the records that are closed, and `held` in the open one.
record Grouped (frames : List Frame) (p : List (List ℕ) × List ℕ) : Type 0 where
  groups : List (List Frame)
  held : List Frame
  closed : p.0 ≡ map wires groups
  open_bytes : p.1 ≡ wires held
  in_order : concat groups ++ held ≡ frames

pack-Grouped :
    (capacity : ℕ) (fs : List Frame) (records : List (List ℕ)) (plaintext : List ℕ)
    (before : List Frame)
    → Grouped before (records, plaintext)
    → Grouped (before ++ fs) (pack capacity (map wire fs) records plaintext)
unfolding pack
pack-Grouped capacity [] records plaintext before h = record {
  groups = h.groups;
  held = h.held;
  closed = h.closed;
  open_bytes = h.open_bytes;
  in_order = h.in_order ∙ sym (append-nil before);
}
pack-Grouped capacity (f ∷ fs) records plaintext before h =
    elim (Bool-cases
      (not (is_empty plaintext) && ltb capacity (length plaintext + length (wire f)))) [
        | inl e ↦
            rw (e, pack, map)
              (subst
                (λ (b : List Frame).
                  Grouped b (pack capacity (map wire fs) (records ++ (plaintext ∷ [])) (wire f)))
                (append_assoc before (f ∷ []) fs)
                (pack-Grouped capacity fs (records ++ (plaintext ∷ [])) (wire f)
                  (before ++ (f ∷ []))
                  (record {
                    groups = h.groups ++ (h.held ∷ []);
                    held = f ∷ [];
                    closed =
                        ap₂ (λ (r : List (List ℕ)) (p : List ℕ). r ++ (p ∷ [])) h.closed
                          h.open_bytes
                        ∙ sym (map-wires_last h.groups h.held);
                    open_bytes = sym (append-nil (wire f));
                    in_order =
                        ap (λ (t : List Frame). t ++ (f ∷ []))
                          (concat_last h.groups h.held ∙ h.in_order);
                  })))
        | inr e ↦
            rw (e, pack, map)
              (subst
                (λ (b : List Frame).
                  Grouped b (pack capacity (map wire fs) records (plaintext ++ wire f)))
                (append_assoc before (f ∷ []) fs)
                (pack-Grouped capacity fs records (plaintext ++ wire f) (before ++ (f ∷ []))
                  (record {
                    groups = h.groups;
                    held = h.held ++ (f ∷ []);
                    closed = h.closed;
                    open_bytes =
                        ap₂ (λ (p q : List ℕ). p ++ q) h.open_bytes (sym (append-nil (wire f)))
                        ∙ sym (wires-append h.held (f ∷ []));
                    in_order =
                        sym (append_assoc (concat h.groups) h.held (f ∷ []))
                        ∙ ap (λ (t : List Frame). t ++ (f ∷ [])) h.in_order;
                  })))
      ]

-- A packet with an id of four bytes, whose length fits its fields.
abbrev pub IsSendable : List ℕ × List ℕ → Type 0
IsSendable (packet_id, packet) = (length packet_id ≡ 4) × (length packet ≤ 65535)

-- The frames of all packets, in order.
abbrev pub all_frames : ℕ → List (List ℕ × List ℕ) → List Frame
all_frames capacity [] = []
all_frames capacity ((packet_id, packet) ∷ packets) =
    frames_of packet_id packet capacity ++ all_frames capacity packets

module _ (capacity : ℕ) (capacity_min : 15 ≤ capacity) (capacity_max : capacity ≤ 65535) where
  pack_packets-Grouped :
      (packets : List (List ℕ × List ℕ)) (records : List (List ℕ)) (plaintext : List ℕ)
      (before : List Frame)
      → All IsSendable packets
      → Grouped before (records, plaintext)
      → (x : List (List ℕ) × List ℕ) × (pack_packets capacity packets records plaintext ≡ ok x)
        × Grouped (before ++ all_frames capacity packets) x
  unfolding pack_packets
  pack_packets-Grouped [] records plaintext before sendable h = (
    (records, plaintext),
    refl,
    subst (λ (b : List Frame). Grouped b (records, plaintext)) (sym (append-nil before)) h,
  )
  pack_packets-Grouped ((packet_id, packet) ∷ packets) records plaintext before
        ((id_len, packet_max), sendable) h =
      let frames = frames_of packet_id packet capacity in
      let packed = pack capacity (map wire frames) records plaintext in
      let (x, e, more) =
        pack_packets-Grouped packets packed.0 packed.1 (before ++ frames) sendable
          (pack-Grouped capacity frames records plaintext before h) in
      (
        x,
        rw
            (encode_packet-frames packet_id packet capacity id_len packet_max capacity_min
              capacity_max)
            e,
        subst (λ (b : List Frame). Grouped b x)
            (append_assoc before frames (all_frames capacity packets)) more,
      )

  close_last-Grouped :
      (frames : List Frame) (records : List (List ℕ)) (plaintext : List ℕ)
      → Grouped frames (records, plaintext)
      → (groups : List (List Frame)) × (close_last records plaintext ≡ map wires groups)
        × (concat groups ≡ frames)
  close_last-Grouped frames records [] h = (
    h.groups,
    h.closed,
    sym (append-nil (concat h.groups))
        ∙ ap (λ (t : List Frame). concat h.groups ++ t) (sym (nothing h.held h.open_bytes))
        ∙ h.in_order,
  )
    where
      nothing : (held : List Frame) → [] ≡ wires held → held ≡ []
      nothing [] e = refl
      nothing (f ∷ fs) e = unfold wire in absurd (cc e)
  close_last-Grouped frames records (b ∷ bs) h = (
    h.groups ++ (h.held ∷ []),
    ap₂ (λ (r : List (List ℕ)) (p : List ℕ). r ++ (p ∷ [])) h.closed h.open_bytes
        ∙ sym (map-wires_last h.groups h.held),
    concat_last h.groups h.held ∙ h.in_order,
  )

  -- Batching succeeds, and each record is made up of whole frames.
  pub batch_packets-groups :
      (packets : List (List ℕ × List ℕ))
      → All IsSendable packets
      → (groups : List (List Frame)) × (batch_packets packets capacity ≡ ok (map wires groups))
        × (concat groups ≡ all_frames capacity packets)
  unfolding batch_packets
  batch_packets-groups packets sendable =
      let (x, e, grouped) =
        pack_packets-Grouped packets [] [] [] sendable
          (record { groups = []; held = []; closed = refl; open_bytes = refl; in_order = refl }) in
      let (groups, made, in_order) =
        close_last-Grouped (all_frames capacity packets) x.0 x.1 grouped in
      (groups, rw e (ap ok made), in_order)
