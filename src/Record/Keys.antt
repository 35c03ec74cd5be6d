-- ===== src/Record/Keys.antt =====
-- `TrafficKey`, `EpochKeys`, `ApplicationSecrets`, `expand`, `fixed` and `nonce`
-- (rekaserdoba/src/record.rs). Keys are wiped on drop, which has no effect on later values.
pub mod Nonce
pub mod Separation
use Prim.Native.String.{String}
use Prim.Native.Char.{code}
use reka_serdoba.Common.{
  ℕ, ◌≡◌, bit_xor, ◌||◌, List, [], ◌∷◌, ◌++◌, length, take, drop, ltb, leb, ◌==◌, if◌then◌else◌,
  Result, ok, err, ◌>>=◌, ◌>>◌, bail_if, ok_or,
}
use reka_serdoba.Common.Words.{to_be}
use reka_serdoba.Errors.{
  Error, invalid_master_secret, invalid_epoch_secret, hkdf_label_context_or_output_too_large,
  hkdf_expand_failed, invalid_fixed_size_value, record_encryption_failed,
  record_authentication_failed,
}
use reka_serdoba.Crypto.{Crypto}

-- The bytes of an ASCII text, as in `b"..."`.
abbrev pub codes : String → List ℕ
codes String.[] = []
codes (String.◌∷◌ c s) = code c ∷ codes s

pub record TrafficKey : Type 0 where
  pub key : List ℕ
  pub iv : List ℕ

pub record EpochKeys : Type 0 where
  pub c2s_data : TrafficKey
  pub s2c_data : TrafficKey
  pub c2s_control : TrafficKey
  pub s2c_control : TrafficKey

pub record ApplicationSecrets : Type 0 where
  pub epoch_secret : List ℕ
  pub migration : List ℕ
  pub resumption : List ℕ
  pub exporter : List ℕ
  pub epoch : EpochKeys

-- `format!("RekaSerdoba/1 {label}")`
unfoldable pub full_label : List ℕ → List ℕ
full_label label = codes "RekaSerdoba/1 " ++ label

-- The `info` string of `expand`; both lengths are cast to their widths.
unfoldable pub hkdf_info : List ℕ → List ℕ → ℕ → List ℕ
hkdf_info full context len =
    to_be 2 len ++ (to_be 1 (length full) ++ (full ++ (to_be 2 (length context) ++ context)))

unfoldable pub expand : Crypto → List ℕ → List ℕ → List ℕ → ℕ → Result Error (List ℕ)
expand c kdf label context len = do
  bail_if (ltb 65535 len || ltb 255 (length (full_label label)) || ltb 65535 (length context))
      hkdf_label_context_or_output_too_large
  ok_or (c.hkdf_expand kdf (hkdf_info (full_label label) context len) len) hkdf_expand_failed

-- `fixed::<N>`
unfoldable pub fixed : ℕ → List ℕ → Result Error (List ℕ)
fixed n value = if length value == n then ok value else err invalid_fixed_size_value

-- `^=` of each slot with each byte, as far as both go.
unfoldable pub zip_xor : List ℕ → List ℕ → List ℕ
zip_xor [] bytes = []
zip_xor (slot ∷ slots) [] = slot ∷ slots
zip_xor (slot ∷ slots) (byte ∷ bytes) = bit_xor slot byte ∷ zip_xor slots bytes

-- `nonce`: the number is added into the last eight bytes.
unfoldable pub nonce : List ℕ → ℕ → List ℕ
unfolding zip_xor
nonce iv number = take 4 iv ++ zip_xor (drop 4 iv) (to_be 8 number)

module _ (c : Crypto) where
  -- `TrafficKey::derive`
  unfoldable pub derive_traffic_key : List ℕ → List ℕ → List ℕ → Result Error TrafficKey
  unfolding expand fixed
  derive_traffic_key kdf purpose context = do
    key ← expand c kdf (purpose ++ codes " key") context 32
    key' ← fixed 32 key
    iv ← expand c kdf (purpose ++ codes " iv") context 12
    iv' ← fixed 12 iv
    ok (record { key = key'; iv = iv' })

  -- `EpochKeys::derive`
  unfoldable pub derive_epoch_keys : List ℕ → List ℕ → ℕ → Result Error EpochKeys
  derive_epoch_keys epoch_secret session_id epoch = do
    kdf ← ok_or (c.hkdf_from_prk epoch_secret) invalid_epoch_secret
    let context = session_id ++ to_be 4 epoch
    c2s_data ← derive_traffic_key kdf (codes "data c2s") context
    s2c_data ← derive_traffic_key kdf (codes "data s2c") context
    c2s_control ← derive_traffic_key kdf (codes "control c2s") context
    s2c_control ← derive_traffic_key kdf (codes "control s2c") context
    ok (record {
      c2s_data = c2s_data;
      s2c_data = s2c_data;
      c2s_control = c2s_control;
      s2c_control = s2c_control;
    })

  -- `ApplicationSecrets::derive`; the handshake's HKDF is given by its key.
  unfoldable pub derive_application_secrets :
      List ℕ → List ℕ → List ℕ → Result Error ApplicationSecrets
  unfolding expand fixed
  derive_application_secrets handshake_kdf transcript session_id = do
    master ← expand c handshake_kdf (codes "master secret") transcript 32
    master_kdf ← ok_or (c.hkdf_from_prk master) invalid_master_secret
    epoch_root ← expand c master_kdf (codes "epoch root") transcript 32
    epoch_secret ← fixed 32 epoch_root
    migration ← expand c master_kdf (codes "migration") transcript 32
    migration' ← fixed 32 migration
    resumption ← expand c master_kdf (codes "resumption") transcript 32
    resumption' ← fixed 32 resumption
    exporter ← expand c master_kdf (codes "exporter") transcript 32
    exporter' ← fixed 32 exporter
    epoch ← derive_epoch_keys epoch_secret session_id 0
    ok (record {
      epoch_secret = epoch_secret;
      migration = migration';
      resumption = resumption';
      exporter = exporter';
      epoch = epoch;
    })

  -- `TrafficKey::seal`
  unfoldable pub seal_with : TrafficKey → ℕ → List ℕ → List ℕ → Result Error (List ℕ)
  seal_with k number header plaintext =
      ok_or (c.aead_encrypt k.key (nonce k.iv number) header plaintext) record_encryption_failed

  -- `TrafficKey::open`
  unfoldable pub open_with : TrafficKey → ℕ → List ℕ → List ℕ → Result Error (List ℕ)
  open_with k number header ciphertext =
      ok_or (c.aead_decrypt k.key (nonce k.iv number) header ciphertext)
        record_authentication_failed
