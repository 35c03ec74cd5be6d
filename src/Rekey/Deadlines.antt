-- ===== src/Rekey/Deadlines.antt =====
-- When `RekeySession` asks for an update, and that the timer of `next_update_check` is not late.
use reka_serdoba.Common.{ℕ, ◌+◌, ◌*◌, ◌≤◌, ◌≡◌, true, Option, some, List, Result, ok, err}
use reka_serdoba.Errors.{Error, key_update_timed_out}
use reka_serdoba.Crypto.{Crypto}
use reka_serdoba.Record.Keys.{nonce}
use reka_serdoba.Record.Frames
use reka_serdoba.Record.Sender
use reka_serdoba.Rekey.Session.{RekeySession}

-- A cipher that encrypts what it is given.
abbrev pub Encrypts : Crypto → Type 0
Encrypts c =
    (key nonce aad message : List ℕ)
    → (out : List ℕ) × (c.aead_encrypt key nonce aad message ≡ some out)

-- A request is sent: it is in the result, and the session notes that it is on its way and by when.
abbrev pub IsRequested : ℕ → RekeySession × Result Error (Option (List ℕ)) → Type 0
IsRequested later x =
    ((request : List ℕ) × (x.1 ≡ ok (some request)))
    × (x.0.update_requested ≡ true)
    × (x.0.update_deadline ≡ some (later + 10 * 1000000000))

-- The deadline of the request before has passed.
abbrev pub HasTimedOut : RekeySession → ℕ → RekeySession × Result Error (Option (List ℕ)) → Type 0
HasTimedOut s later x =
    (x ≡ (s, err key_update_timed_out))
    × ((deadline : ℕ) × (s.update_deadline ≡ some deadline) × (deadline ≤ later))
