-- ===== src/Attest/Verify.antt =====
-- poc/crates/sifir-attest/src/verify.rs: the checks of a report.
pub mod Accept
pub mod Errors
pub mod Mock
pub mod Tests
use sifir.Base.{◌===◌, Outcome, ok, err, ◌>>=◌, ◌>>◌, attempt, guard, replicate, if◌then◌else◌}
use sifir.Base.Slices.{range, copy_from_slice}
use sifir.Base.Text.{Bytes}
use sifir.Crates.{Crates}
use sifir.Attest.Report.{
  Report, new, report_data, measurement, sig_r, sig_s, signed_region, measurement_size,
}
use sifir.Attest.Error.{
  AttestationKey, mock, amd, VerifyError, bad_signature, key_binding_mismatch, measurement_mismatch,
  internal,
}
use sifir.Attest.Mock.{mock_verifying_key_sec1}
use sifir.Attest.AmdCerts.{vcek_verifying_key}

module _ (c : Crates) where
  open c use {VerifyingKey}

  unfoldable pub verify_key_binding : Report → Bytes → Outcome VerifyError (Unit {0})
  verify_key_binding report tls_pubkey_der = do
    let computed = c.sha256 tls_pubkey_der
    d ← report_data report
    in_report ← range d 0 32
    if in_report === computed
        then ok tt
        else err (key_binding_mismatch (c.hex_encode in_report) (c.hex_encode computed))

  -- The 96 bytes of the signature, R and S.
  unfoldable pub signature_bytes : Report → Outcome VerifyError Bytes
  signature_bytes report = do
    r ← sig_r report
    sig_bytes ← copy_from_slice (replicate 96 0) 0 48 r
    s ← sig_s report
    copy_from_slice sig_bytes 48 96 s

  unfoldable pub anchor_key : AttestationKey → Outcome VerifyError VerifyingKey
  anchor_key mock = do sec1 ← mock_verifying_key_sec1 c; attempt internal (c.key_from_sec1 sec1)
  anchor_key (amd vcek_chain) = vcek_verifying_key c vcek_chain

  unfoldable pub verify_signature : Report → AttestationKey → Outcome VerifyError (Unit {0})
  verify_signature report key = do
    sig_bytes ← signature_bytes report
    sig ← attempt (λ _. bad_signature) (c.signature_try_from sig_bytes)
    verifying_key ← anchor_key key
    region ← signed_region report
    guard bad_signature (c.verify verifying_key region sig)

  unfoldable pub verify_measurement : Report → Bytes → Outcome VerifyError (Unit {0})
  verify_measurement report expected =
      if expected === replicate measurement_size 0 then ok tt else do
        m ← measurement report
        if m === expected
            then ok tt
            else err (measurement_mismatch (c.hex_encode expected) (c.hex_encode m))

  unfoldable pub verify : Bytes → AttestationKey → Bytes → Bytes → Outcome VerifyError (Unit {0})
  verify report_bytes key expected_measurement tls_pubkey_der = do
    let report = new report_bytes
    verify_key_binding report tls_pubkey_der
    verify_signature report key
    verify_measurement report expected_measurement
    ok tt
