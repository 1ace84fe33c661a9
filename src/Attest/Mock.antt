-- ===== src/Attest/Mock.antt =====
-- poc/crates/sifir-attest/src/mock.rs: the mock signer.
pub mod Stages
pub mod Signed
pub mod Tests
use sifir.Base.{◌+◌, [], ◌∷◌, Outcome, ok, ◌>>=◌, expect, length}
use sifir.Base.Slices.{range, copy_from_slice}
use sifir.Base.Text.{Bytes, to_le_bytes}
use sifir.Crates.{Crates}
use sifir.Attest.Report.{Report, new, as_bytes, default, measurement_size, signed_region_size}

-- The bytes 1 to 48.
unfoldable pub mock_private_key_scalar : Bytes
mock_private_key_scalar =
    0x01 ∷ 0x02 ∷ 0x03 ∷ 0x04 ∷ 0x05 ∷ 0x06 ∷ 0x07 ∷ 0x08 ∷ 0x09 ∷ 0x0a ∷ 0x0b ∷ 0x0c ∷ 0x0d ∷ 0x0e
    ∷ 0x0f ∷ 0x10 ∷ 0x11 ∷ 0x12 ∷ 0x13 ∷ 0x14 ∷ 0x15 ∷ 0x16 ∷ 0x17 ∷ 0x18 ∷ 0x19 ∷ 0x1a ∷ 0x1b
    ∷ 0x1c ∷ 0x1d ∷ 0x1e ∷ 0x1f ∷ 0x20 ∷ 0x21 ∷ 0x22 ∷ 0x23 ∷ 0x24 ∷ 0x25 ∷ 0x26 ∷ 0x27 ∷ 0x28
    ∷ 0x29 ∷ 0x2a ∷ 0x2b ∷ 0x2c ∷ 0x2d ∷ 0x2e ∷ 0x2f ∷ 0x30 ∷ []

module _ (c : Crates) where
  module _ {ℓ} {E : Type ℓ} where
    unfoldable pub mock_signing_key : Outcome E c.SigningKey
    mock_signing_key = expect (c.signing_key_from_slice mock_private_key_scalar)

    unfoldable pub mock_verifying_key_sec1 : Outcome E Bytes
    mock_verifying_key_sec1 = do key ← mock_signing_key; ok (c.key_to_sec1 (c.verifying_key key))

    -- The writes in front of the signature.
    unfoldable pub write_fields : Bytes → Bytes → Bytes → Outcome E Bytes
    write_fields raw tls_pubkey_hash measurement = do
      raw ← copy_from_slice raw 0 4 (to_le_bytes 2)
      raw ← copy_from_slice raw 0x034 0x038 (to_le_bytes 1)
      raw ← copy_from_slice raw 0x050 (0x050 + 32) tls_pubkey_hash
      copy_from_slice raw 0x090 (0x090 + measurement_size) measurement

    -- The signature of the region, and the writes of its two halves.
    unfoldable pub write_signature : c.SigningKey → Bytes → Outcome E Bytes
    write_signature signing_key raw = do
      signed_region ← range raw 0 signed_region_size
      let sig_bytes = c.signature_to_bytes (c.sign signing_key signed_region)
      r ← range sig_bytes 0 48
      s ← range sig_bytes 48 (length sig_bytes)
      raw ← copy_from_slice raw 0x2a0 (0x2a0 + 48) r
      copy_from_slice raw 0x2e8 (0x2e8 + 48) s

    unfoldable pub sign_mock_report : Bytes → Bytes → Outcome E Report
    sign_mock_report tls_pubkey_hash measurement = do
      raw ← write_fields (as_bytes default) tls_pubkey_hash measurement
      signing_key ← mock_signing_key
      raw ← write_signature signing_key raw
      ok (new raw)

  unfoldable pub tls_pubkey_hash : Bytes → Bytes
  tls_pubkey_hash pubkey_der = c.sha256 pubkey_der
