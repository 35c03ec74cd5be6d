-- ===== src/Packets/DataFrames.antt =====
-- The answers to data frames.
use reka_serdoba.Common.{
  ℕ, ◌≤◌, ◌≡◌, ◌⊎◌, some, List, [], length, ok, Result-cases, inl, inr, arith,
}
use reka_serdoba.Record.Frames.{Frame}
use reka_serdoba.Packets.{validate_data_frame, validate_ipv4_packet}

-- What is sent back for `f`: an echo of at most 64 bytes.
pub record IsEcho (f reply : Frame) : Type 0 where
  pub kind :
      ((f.frame_type ≡ 0x04) × (reply.frame_type ≡ 0x04) × (f.body ≡ []))
      ⊎ ((f.frame_type ≡ 0x05) × (reply.frame_type ≡ 0x06))
  pub flags : reply.flags ≡ 0
  pub body : reply.body ≡ f.body
  pub short : length f.body ≤ 64

-- The server answers a data frame only if it is an empty keepalive or a path probe of at most 64
-- bytes, and then with the same body: it sends no more than it was sent.
pub validate_data_frame-IsEcho :
    (f reply : Frame) (tunnel_ipv4 : List ℕ)
    → validate_data_frame f tunnel_ipv4 ≡ ok (some reply)
    → IsEcho f reply
unfolding validate_data_frame
validate_data_frame-IsEcho f reply tunnel_ipv4 e =
    elim (Result-cases (validate_ipv4_packet f.body tunnel_ipv4)) [
      | inl (x, p) ↦ record {
        kind = ground (arith, e, p);
        flags = ground (arith, e, p);
        body = ground (arith, e, p);
        short = ground (arith, e, p);
      }
      | inr (x, p) ↦ record {
        kind = ground (arith, e, p);
        flags = ground (arith, e, p);
        body = ground (arith, e, p);
        short = ground (arith, e, p);
      }
    ]
