-- ===== src/Rekey/Keeping.antt =====
-- What sealing a control frame and extending the transcript leave as it was.
use reka_serdoba.Common.{ℕ, ◌≡◌, ◌∙◌, refl, ap, Bool, false, List, arith}
use reka_serdoba.Common.Steps.{Keeps, through-lift}
use reka_serdoba.Crypto.{Crypto}
use reka_serdoba.Record.Sender
use reka_serdoba.Record.Layer.{SessionRecordLayer}
use reka_serdoba.Rekey.Session.{RekeySession, seal_control, seal_frame, extend, seal_current_data}

-- The epochs of the four directions of a layer.
abbrev pub directions : SessionRecordLayer → ℕ × ℕ × ℕ × ℕ
directions l = (l.c2s_data.epoch, l.s2c_data.epoch, l.c2s_control.epoch, l.s2c_control.epoch)

-- All but the transcript and the state of the record layer.
pub record Kept (s t : RekeySession) : Type 0 where
  pub epoch : t.current.epoch ≡ s.current.epoch
  pub layer : directions t.current.records ≡ directions s.current.records
  pub pending : t.pending ≡ s.pending
  pub previous : t.previous ≡ s.previous
  pub update_requested : t.update_requested ≡ s.update_requested
  pub update_deadline : t.update_deadline ≡ s.update_deadline

pub Kept-refl : (s : RekeySession) → Kept s s
Kept-refl s = record {
  epoch = refl;
  layer = refl;
  pending = refl;
  previous = refl;
  update_requested = refl;
  update_deadline = refl;
}

seal-epoch :
    (c : Crypto) (s : Sender.RecordSender) (plaintext : List ℕ) (padded : Bool)
    → (Sender.seal c s plaintext padded).0.epoch ≡ s.epoch
unfolding Sender.seal
seal-epoch c s plaintext padded = ground arith

module _ (c : Crypto) (s : RekeySession) where
  pub seal_control-Kept :
      (plaintext : List ℕ) (padded : Bool) → Keeps (Kept s) (seal_control c plaintext padded)
  unfolding seal_control
  seal_control-Kept plaintext padded t k = record {
    epoch = k.epoch;
    layer =
        ap
          (λ (e : ℕ). (
            t.current.records.c2s_data.epoch, t.current.records.s2c_data.epoch,
            t.current.records.c2s_control.epoch, e,
          ))
          (seal-epoch c t.current.records.s2c_control plaintext padded)
        ∙ k.layer;
    pending = k.pending;
    previous = k.previous;
    update_requested = k.update_requested;
    update_deadline = k.update_deadline;
  }

  pub seal_current_data-Kept :
      (plaintext : List ℕ) (padded : Bool) → Keeps (Kept s) (seal_current_data c plaintext padded)
  unfolding seal_current_data
  seal_current_data-Kept plaintext padded t k = record {
    epoch = k.epoch;
    layer =
        ap
          (λ (e : ℕ). (
            t.current.records.c2s_data.epoch, e, t.current.records.c2s_control.epoch,
            t.current.records.s2c_control.epoch,
          ))
          (seal-epoch c t.current.records.s2c_data plaintext padded)
        ∙ k.layer;
    pending = k.pending;
    previous = k.previous;
    update_requested = k.update_requested;
    update_deadline = k.update_deadline;
  }

  pub extend-Kept : (encoded : List ℕ) → Keeps (Kept s) (extend c encoded)
  unfolding extend
  extend-Kept encoded t k = record {
    epoch = k.epoch;
    layer = k.layer;
    pending = k.pending;
    previous = k.previous;
    update_requested = k.update_requested;
    update_deadline = k.update_deadline;
  }

  pub seal_frame-Kept :
      (frame_type : ℕ) (body : List ℕ) → Keeps (Kept s) (seal_frame c frame_type body)
  unfolding seal_frame
  seal_frame-Kept frame_type body t k =
      through-lift (Kept s) t _ _ k (λ encoded made. seal_control-Kept encoded false t k)
