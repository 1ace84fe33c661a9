-- ===== src/Attest/Verify/Tests.antt =====
-- The unit tests of poc/crates/sifir-attest/src/verify.rs.
use sifir.Base.{
  ℕ, ◌≡◌, ◌≢◌, refl, sym, ◌∙◌, ap, inl, inr, ok, err, ◌≤◌, ◌>>=◌, ◌%◌, ◌+◌, ◌-◌, ◌==◌, Bool, true,
  false, if◌then◌else◌, [], ◌∷◌, replicate, length, length-replicate, arith, get_or, Test, assert,
  unwrap, unwrap_err, ===_self,
}
use sifir.Base.Slices.{
  part, patch, index, index_lem, copy_from_slice, copy_from_slice_lem, part-patch_before,
  part-patch_after, length-patch,
}
use sifir.Base.Text.{Bytes, text}
use sifir.Crates.{Crates}
use sifir.Crates.Laws.{IsP384, IsSha2}
use sifir.Attest.Report.{Report, measurement_size, as_bytes, new}
use sifir.Attest.Error.{
  VerifyError, bad_signature, key_binding_mismatch, measurement_mismatch, mock,
}
use sifir.Attest.Mock.{sign_mock_report, tls_pubkey_hash}
use sifir.Attest.Mock.Signed.{IsMockReport, sign_mock_report_lem}
use sifir.Attest.Verify.{verify}
use sifir.Attest.Verify.Accept.{verify_key_binding_lem, verify_signature_lem, verify_iff}
use sifir.Attest.Verify.Errors.{verify_unbound, verify_wrong_measurement}
use sifir.Attest.Verify.Mock.{anchor_key-mock, verify-IsMockReport}

-- `matches!(err, VerifyError::MeasurementMismatch { .. })`, and so on
abbrev is_measurement_mismatch : VerifyError → Bool
is_measurement_mismatch (measurement_mismatch e a) = true
is_measurement_mismatch _ = false

abbrev is_key_binding_mismatch : VerifyError → Bool
is_key_binding_mismatch (key_binding_mismatch r s) = true
is_key_binding_mismatch _ = false

abbrev is_bad_signature : VerifyError → Bool
is_bad_signature bad_signature = true
is_bad_signature _ = false

-- `b ^ 0x01`
abbrev xor_one : ℕ → ℕ
xor_one b = if b % 2 == 0 then b + 1 else b - 1

-- The measurement of each test.
abbrev aa : Bytes
aa = replicate 48 0xaa

zeros_ne : replicate {A = ℕ} 48 0xbb ≢ replicate 48 0
unfolding replicate
zeros_ne e = cc e

aa_ne : aa ≢ replicate 48 0xbb
unfolding replicate
aa_ne e = let d : ◌≡◌ {A = ℕ} 170 187 = ap (λ (xs : Bytes). get_or xs 0 0) e in omega (arith, d)

module _ (c : Crates) where
  unfoldable valid_mock_report_passes : Test
  valid_mock_report_passes = do
    let pubkey = text "fake-tls-pubkey-der-bytes"
    let measurement : Bytes = replicate measurement_size 0xaa
    let hash = tls_pubkey_hash c pubkey
    report ← sign_mock_report c hash measurement
    unwrap (verify c (as_bytes report) mock measurement pubkey)

  unfoldable wrong_measurement_rejected : Test
  wrong_measurement_rejected = do
    let pubkey = text "fake-tls-pubkey-der-bytes"
    let measurement : Bytes = replicate measurement_size 0xaa
    let hash = tls_pubkey_hash c pubkey
    report ← sign_mock_report c hash measurement
    let wrong : Bytes = replicate measurement_size 0xbb
    e ← unwrap_err (verify c (as_bytes report) mock wrong pubkey)
    assert (is_measurement_mismatch e)

  unfoldable zero_measurement_skips_check : Test
  zero_measurement_skips_check = do
    let pubkey = text "fake-tls-pubkey-der-bytes"
    let measurement : Bytes = replicate measurement_size 0xaa
    let hash = tls_pubkey_hash c pubkey
    report ← sign_mock_report c hash measurement
    unwrap (verify c (as_bytes report) mock (replicate measurement_size 0) pubkey)

  unfoldable wrong_tls_key_rejected : Test
  wrong_tls_key_rejected = do
    let pubkey = text "correct-pubkey"
    let measurement : Bytes = replicate measurement_size 0xaa
    let hash = tls_pubkey_hash c pubkey
    report ← sign_mock_report c hash measurement
    e ← unwrap_err (verify c (as_bytes report) mock measurement (text "wrong-pubkey"))
    assert (is_key_binding_mismatch e)

  unfoldable tampered_signed_region_rejected : Test
  tampered_signed_region_rejected = do
    let pubkey = text "fake-tls-pubkey-der-bytes"
    let measurement : Bytes = replicate measurement_size 0xaa
    let hash = tls_pubkey_hash c pubkey
    report ← sign_mock_report c hash measurement
    byte ← index (as_bytes report) 0x090
    raw ← copy_from_slice (as_bytes report) 0x090 0x091 (xor_one byte ∷ [])
    e ← unwrap_err (verify c raw mock (replicate measurement_size 0) pubkey)
    assert (is_bad_signature e)

  module _ (p : IsP384 c) (h : IsSha2 c) where
    -- The report of a test, for the key that it uses.
    signed_report :
        (pubkey : Bytes)
        → (r : Report) × (sign_mock_report c {E = Unit {0}} (tls_pubkey_hash c pubkey) aa ≡ ok r)
          × IsMockReport c (c.sha256 pubkey) aa r
    unfolding tls_pubkey_hash
    signed_report pubkey =
        sign_mock_report_lem {E = Unit {0}} c p (c.sha256 pubkey) aa (h.length-sha256 pubkey)
          (length-replicate 48 0xaa)

    valid_test_passes : valid_mock_report_passes ≡ ok tt
    unfolding valid_mock_report_passes as_bytes
    valid_test_passes =
        let pubkey = text "fake-tls-pubkey-der-bytes" in
        let (r, e, m) = signed_report pubkey in
        rw (e, verify-IsMockReport c p r pubkey aa aa m (inr refl))

    measurement_test_passes : wrong_measurement_rejected ≡ ok tt
    unfolding wrong_measurement_rejected as_bytes
    measurement_test_passes =
        let pubkey = text "fake-tls-pubkey-der-bytes" in
        let bb : Bytes = replicate 48 0xbb in
        let (r, e, m) = signed_report pubkey in
        let accepted =
          (verify_iff c r m.size mock aa pubkey).0
            (verify-IsMockReport c p r pubkey aa aa m (inr refl)) in
        let other : part 144 48 r.raw ≢ bb = λ d. aa_ne (sym m.measured ∙ d) in
        rw (e, verify_wrong_measurement c r m.size mock bb pubkey aa accepted zeros_ne other)

    zero_test_passes : zero_measurement_skips_check ≡ ok tt
    unfolding zero_measurement_skips_check as_bytes
    zero_test_passes =
        let pubkey = text "fake-tls-pubkey-der-bytes" in
        let (r, e, m) = signed_report pubkey in
        rw (e, verify-IsMockReport c p r pubkey aa (replicate 48 0) m (inl refl))

    -- Another key is rejected if its hash is another one.
    key_test_passes :
        c.sha256 (text "correct-pubkey") ≢ c.sha256 (text "wrong-pubkey")
        → wrong_tls_key_rejected ≡ ok tt
    unfolding wrong_tls_key_rejected as_bytes
    key_test_passes ne =
        let pubkey = text "correct-pubkey" in
        let wrong = text "wrong-pubkey" in
        let (r, e, m) = signed_report pubkey in
        rw (e, verify_unbound c r m.size mock aa wrong (λ d. ne (sym m.hashed ∙ d)))

    -- The report with a bit of the byte 144 flipped.
    abbrev flipped : Bytes → Bytes
    flipped raw = patch 144 (xor_one (get_or raw 144 0) ∷ []) raw

    module _
        (binding : (k : c.SigningKey) (raw : Bytes)
          → c.verify (c.verifying_key k) (part 0 672 (flipped raw)) (c.sign k (part 0 672 raw))
            ≡ false) where
      verify-flipped :
          (pubkey : Bytes) (r : Report)
          → IsMockReport c (c.sha256 pubkey) aa r
          → verify c (flipped r.raw) mock (replicate 48 0) pubkey ≡ err bad_signature
      unfolding verify new
      verify-flipped pubkey r m =
          let byte : Bytes = xor_one (get_or r.raw 144 0) ∷ [] in
          let t : Report = record { raw = flipped r.raw } in
          let size : length t.raw ≡ 1184 = omega (arith, length-patch 144 byte r.raw, m.size) in
          let there : 144 ≤ length r.raw = omega (arith, m.size) in
          let hash : Bytes = c.sha256 pubkey in
          rw (
            verify_key_binding_lem c t size pubkey,
            part-patch_before 80 32 144 byte r.raw (omega arith) there,
            m.hashed,
            ===_self hash,
            verify_signature_lem c t size mock,
            part-patch_after 672 48 144 byte r.raw (omega arith) there,
            part-patch_after 744 48 144 byte r.raw (omega arith) there,
            m.signature,
            p.signature_try_from-signature_to_bytes (c.sign m.key (part 0 672 r.raw)),
            anchor_key-mock c p m.key m.mock_key,
            binding m.key r.raw,
          )

      -- A tampered report is rejected if the signature of a region is not one of the region with
      -- the bit flipped.
      tampered_test_passes : tampered_signed_region_rejected ≡ ok tt
      unfolding tampered_signed_region_rejected as_bytes
      tampered_test_passes =
          let pubkey = text "fake-tls-pubkey-der-bytes" in
          let (r, e, m) = signed_report pubkey in
          let byte : Bytes = xor_one (get_or r.raw 144 0) ∷ [] in
          rw (
            e,
            index_lem {E = Unit {0}} r.raw 144 0 (omega (arith, m.size)),
            copy_from_slice_lem {E = Unit {0}} r.raw 144 145 byte (omega arith)
                (omega (arith, m.size)) (omega arith),
            verify-flipped pubkey r m,
          )
