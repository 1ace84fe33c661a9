-- ===== src/Attest/Mock/Tests.antt =====
-- The unit tests of poc/crates/sifir-attest/src/mock.rs.
use sifir.Base.{
  ◌≡◌, ◌∙◌, ok, ◌>>=◌, ◌>>◌, ◌==◌, ◌===◌, ===_self, replicate, length, length-replicate, Test,
  assert, arith, ◌∷◌,
}
use sifir.Base.Slices.{range, range_lem, part, part-part, length-part, index}
use sifir.Base.Text.{Bytes, text, from_le_bytes-to_le_bytes}
use sifir.Crates.{Crates}
use sifir.Crates.Laws.{IsP384}
use sifir.Attest.Report.{measurement_size, report_data, measurement, version}
use sifir.Attest.Report.Fields.{report_data_lem, measurement_lem, field_lem}
use sifir.Attest.Mock.{mock_signing_key, mock_verifying_key_sec1, sign_mock_report, tls_pubkey_hash}
use sifir.Attest.Mock.Signed.{mock_signing_key_total, sign_mock_report_lem}

module _ (c : Crates) where
  unfoldable signing_key_constructs_without_panic : Test
  signing_key_constructs_without_panic = do _ ← mock_signing_key c; ok tt

  unfoldable mock_verifying_key_is_97_bytes : Test
  mock_verifying_key_is_97_bytes = do
    pk ← mock_verifying_key_sec1 c
    assert (length pk == 97)
    prefix ← index pk 0
    assert (prefix == 0x04)

  unfoldable sign_produces_report_with_correct_fields : Test
  sign_produces_report_with_correct_fields = do
    let hash : Bytes = replicate 32 0x42
    let expected : Bytes = replicate measurement_size 0xde
    report ← sign_mock_report c hash expected
    field ← report_data report
    in_report ← range field 0 32
    assert (in_report === hash)
    m ← measurement report
    assert (m === expected)
    v ← version report
    assert (v == 2)

  unfoldable tls_pubkey_hash_is_deterministic : Test
  tls_pubkey_hash_is_deterministic =
      let der = text "fake der bytes" in assert (tls_pubkey_hash c der === tls_pubkey_hash c der)

  hash_test_passes : tls_pubkey_hash_is_deterministic ≡ ok tt
  unfolding tls_pubkey_hash_is_deterministic
  hash_test_passes = let h : Bytes = tls_pubkey_hash c (text "fake der bytes") in rw (===_self h)

  module _ (p : IsP384 c) where
    key_test_passes : signing_key_constructs_without_panic ≡ ok tt
    unfolding signing_key_constructs_without_panic mock_signing_key
    key_test_passes = let (k, e) = mock_signing_key_total c p in rw e

    -- The encoded key has the length and the prefix of an uncompressed point, if the package writes
    -- one.
    sec1_test_passes :
        ((k : c.VerifyingKey)
          → (point : Bytes) × (c.key_to_sec1 k ≡ 0x04 ∷ point) × (length point ≡ 96))
        → mock_verifying_key_is_97_bytes ≡ ok tt
    unfolding mock_verifying_key_is_97_bytes mock_verifying_key_sec1 mock_signing_key index
    sec1_test_passes uncompressed =
        let (k, e) = mock_signing_key_total c p in
        let (point, w, l) = uncompressed (c.verifying_key k) in rw (e, w, l)

    fields_test_passes : sign_produces_report_with_correct_fields ≡ ok tt
    unfolding sign_produces_report_with_correct_fields version
    fields_test_passes =
        let hash : Bytes = replicate 32 0x42 in
        let expected : Bytes = replicate 48 0xde in
        let lh : length hash ≡ 32 = length-replicate 32 0x42 in
        let lm : length expected ≡ 48 = length-replicate 48 0xde in
        let (r, e, m) = sign_mock_report_lem {E = Unit {0}} c p hash expected lh lm in
        let field : Bytes = part 80 64 r.raw in
        let ld : length field ≡ 64 = length-part 80 64 r.raw (omega (arith, m.size)) in
        let h : part 0 32 field ≡ hash = part-part 0 32 80 64 r.raw (omega arith) ∙ m.hashed in
        rw (
          e,
          report_data_lem {E = Unit {0}} r m.size,
          range_lem {E = Unit {0}} field 0 32 (omega arith) (omega arith),
          h,
          ===_self hash,
          measurement_lem {E = Unit {0}} r m.size,
          m.measured,
          ===_self expected,
          field_lem {E = Unit {0}} r m.size 0 4 (omega arith),
          m.version,
          from_le_bytes-to_le_bytes 2 (omega arith),
        )
