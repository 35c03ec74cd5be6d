-- ===== src/Carrier/Messages.antt =====
-- Whole streams of messages over an H2 carrier (`Carrier::recv` in rekaserdoba/src/main.rs).
use reka_serdoba.Common.{
  ℕ, zero, suc, ◌≤◌, ◌≡◌, refl, sym, ◌∙◌, ap, Option, none, some, List, [], ◌∷◌, ◌++◌, length, map,
  All, Result, ok,
}
use reka_serdoba.Errors.{Error}
use reka_serdoba.Carrier.{max_carrier_message, take_carrier_message}
use reka_serdoba.Carrier.Streams.{
  H2Carrier, recv_h2, bytes_of, chunks_of, written, IsChunk, recv_h2-message,
}

-- The results of so many calls of `recv`.
abbrev pub recv_times : ℕ → H2Carrier → List (Result Error (Option (List ℕ)))
recv_times zero c = []
recv_times (suc n) c = let (next, result) = recv_h2 c.buffered c.input in result ∷ recv_times n next

-- The stream of some messages.
abbrev pub stream_of : List (List ℕ) → List ℕ
stream_of [] = []
stream_of (message ∷ messages) = written message ++ stream_of messages

abbrev pub IsMessage : List ℕ → Type 0
IsMessage message = (1 ≤ length message) × (length message ≤ max_carrier_message)

nothing_left : (xs ys : List ℕ) → xs ++ ys ≡ [] → (xs ≡ []) × (ys ≡ [])
nothing_left [] ys e = (refl, e)
nothing_left (x ∷ xs) ys e = absurd (cc e)

-- At the end of the stream the carrier is closed, also after empty chunks.
recv_h2-closed :
    (chunks : List (List ℕ)) (buffered : List ℕ)
    → buffered ++ bytes_of chunks ≡ []
    → (recv_h2 buffered (chunks_of chunks)).1 ≡ ok none
unfolding recv_h2 take_carrier_message
recv_h2-closed [] [] e = refl
recv_h2-closed [] (b ∷ buffered) e = absurd (cc e)
recv_h2-closed ([] ∷ chunks) [] e = recv_h2-closed chunks [] e
recv_h2-closed ((b ∷ chunk) ∷ chunks) [] e = absurd (cc e)
recv_h2-closed (chunk ∷ chunks) (b ∷ buffered) e = absurd (cc e)

-- Messages of 1 to 4368 bytes, each written with its length in front, are received as they are and
-- in their order, however their stream is cut into chunks, empty ones included, as long as a chunk
-- has at most 2^20 - 4372 bytes; then the carrier is closed.
pub recv_times-stream_of :
    (messages chunks : List (List ℕ)) (buffered : List ℕ)
    → All IsMessage messages
    → All IsChunk chunks
    → stream_of messages ≡ buffered ++ bytes_of chunks
    → recv_times (suc (length messages)) (record { buffered = buffered; input = chunks_of chunks })
      ≡ map (λ message. ok (some message)) messages ++ (ok none ∷ [])
recv_times-stream_of [] chunks buffered all fit same =
    ap (λ r. r ∷ []) (recv_h2-closed chunks buffered (sym same))
recv_times-stream_of (message ∷ messages) chunks buffered ((some_bytes, bounded), all) fit same =
    let (left, unread, got, tail, fit') =
      recv_h2-message message some_bytes bounded chunks (stream_of messages) buffered fit same in
    let later = recv_times-stream_of messages unread left all fit' (sym tail) in
    ap (λ x. x.1 ∷ recv_times (suc (length messages)) x.0) got
    ∙ ap (λ results. ok (some message) ∷ results) later
