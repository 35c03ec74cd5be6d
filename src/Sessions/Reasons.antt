-- ===== src/Sessions/Reasons.antt =====
-- `disconnect_reason` (rekaserdoba/src/main.rs).
use reka_serdoba.Common.{
  ℕ, ◌+◌, Bool, true, false, ◌&&◌, ◌||◌, List, [], ◌∷◌, leb, ◌==◌, if◌then◌else◌,
}
use reka_serdoba.Record.Keys.{codes}

-- `to_ascii_lowercase`
unfoldable pub to_ascii_lowercase : List ℕ → List ℕ
to_ascii_lowercase [] = []
to_ascii_lowercase (b ∷ bs) = (if leb 65 b && leb b 90 then b + 32 else b) ∷ to_ascii_lowercase bs

unfoldable pub is_prefix : List ℕ → List ℕ → Bool
is_prefix [] text = true
is_prefix (p ∷ ps) [] = false
is_prefix (p ∷ ps) (b ∷ bs) = p == b && is_prefix ps bs

-- `contains`
unfoldable pub contains : List ℕ → List ℕ → Bool
contains [] part = is_prefix part []
contains (b ∷ bs) part = is_prefix part (b ∷ bs) || contains bs part

-- `disconnect_reason`: the code, and whether it is expected.
unfoldable pub disconnect_reason : List ℕ → List ℕ × Bool
disconnect_reason error =
    let reason : List ℕ = to_ascii_lowercase error in
    if contains reason (codes "lifetime expired")
    then (codes "session_lifetime", true)
    else if contains reason (codes "quota exceeded")
    then (codes "session_quota", true)
    else if contains reason (codes "carrier closed")
        || (contains reason (codes "connection reset")
            || (contains reason (codes "broken pipe")
                || contains reason (codes "error reading a body from connection")))
    then (codes "peer_closed", true)
    else if contains reason (codes "already has an active session")
    then (codes "duplicate_session", true)
    else if contains reason (codes "timed out") || contains reason (codes "timeout")
    then (codes "transport_timeout", true)
    else (codes "protocol_error", false)
