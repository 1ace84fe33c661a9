-- ===== src/Examples/Attestation.antt =====
-- The theorems on reports, extensions and chains, applied.
use sifir.Base.{
  ◌≡◌, ◌≢◌, ◌↔◌, refl, sym, ◌∙◌, inr, [], ◌∷◌, some, ok, err, panic, ◌>>=◌, length, replicate,
  length-replicate, arith, take,
}
use sifir.Base.Slices.{part, part-replicate}
use sifir.Base.Text.{Str, Bytes, text}
use sifir.Attest.Report.{Report}
use sifir.Attest.Payload.{AttestationExtension, AttestationMode}
use sifir.Attest.Extension.{
  new_amd, with_gpu_jwt, report_bytes, vcek_chain_der, to_bytes, from_bytes,
}
use sifir.Attest.Extension.RoundTrip.{extension_roundtrip}
use sifir.Attest.Error.{AttestationKey, VerifyError, key_binding_mismatch, measurement_mismatch}
use sifir.Attest.Mock.{sign_mock_report, tls_pubkey_hash}
use sifir.Attest.Mock.Signed.{IsMockReport, sign_mock_report_lem}
use sifir.Attest.AmdCerts.{vcek_verifying_key}
use sifir.Attest.AmdCerts.Chain.{IsChain, vcek_verifying_key_iff}
use sifir.Attest.AmdCerts.Errors.{FailsByChain, vcek_verifying_key-FailsByChain}
use sifir.Attest.Verify.{verify}
use sifir.Attest.Verify.Accept.{IsAccepted, verify_iff}
use sifir.Attest.Verify.Errors.{verify_unbound, verify_wrong_measurement, verify-ne-panic}
use sifir.Attest.Verify.Mock.{verify-IsMockReport, verify-sign_mock_report}
use sifir.Examples.Packages.{toy, toy_sha256, toy-IsP384, toy-IsSha2, toy-IsBase64}
use sifir.Examples.Payload.{toy_serde, toy_serde-IsSerde}
use sifir.Examples.Hardware.{toy_chain, toy_vcek, toy_ask, toy_ark}
use sifir.Examples.Setups.{toy_raw, toy_spki, length-toy_raw}

abbrev zero_report : Report
zero_report = record { raw = replicate 1184 0 }

length-zero_report : length zero_report.raw ≡ 1184
length-zero_report = length-replicate 1184 0

abbrev zeros : Bytes
zeros = replicate 48 0

abbrev ones : Bytes
ones = replicate 48 1

length-ones : length ones ≡ 48
length-ones = length-replicate 48 1

ones-ne-zeros : ones ≢ zeros
unfolding replicate
ones-ne-zeros e = cc e

zero_report-unbound : part 80 32 zero_report.raw ≢ toy.sha256 toy_spki
unfolding toy_sha256 take replicate
zero_report-unbound e =
    let d : replicate 32 0 ≡ take 32 (7 ∷ replicate 32 0) =
      sym (part-replicate 80 32 1184 0 (omega arith)) ∙ e in
    cc d

mock_run :
    (r : Report) × (sign_mock_report toy {E = Str} (toy.sha256 toy_spki) ones ≡ ok r)
    × IsMockReport toy (toy.sha256 toy_spki) ones r
mock_run =
    sign_mock_report_lem {E = Str} toy toy-IsP384 (toy.sha256 toy_spki) ones
      (toy-IsSha2.length-sha256 toy_spki) length-ones

abbrev mock_report : Report
mock_report = mock_run.0

mock_report-IsAccepted : IsAccepted toy mock_report AttestationKey.mock ones toy_spki
mock_report-IsAccepted =
    (verify_iff toy mock_report mock_run.2.size AttestationKey.mock ones toy_spki).0
      (verify-IsMockReport toy toy-IsP384 mock_report toy_spki ones ones mock_run.2 (inr refl))

abbrev twos : Bytes
twos = replicate 48 2

twos-ne-zeros : twos ≢ zeros
unfolding replicate
twos-ne-zeros e = cc e

measured-ne-twos : part 144 48 mock_report.raw ≢ twos
unfolding replicate
measured-ne-twos e = let d : ones ≡ twos = sym mock_run.2.measured ∙ e in cc d

verify_iff_example :
    (verify toy toy_raw (AttestationKey.amd toy_chain) zeros toy_spki ≡ ok tt)
    ↔ IsAccepted toy (record { raw = toy_raw }) (AttestationKey.amd toy_chain) zeros toy_spki
verify_iff_example =
    verify_iff toy (record { raw = toy_raw }) length-toy_raw (AttestationKey.amd toy_chain) zeros
      toy_spki

verify_unbound_example :
    verify toy zero_report.raw (AttestationKey.amd toy_chain) zeros toy_spki
    ≡ err (
        key_binding_mismatch
          (toy.hex_encode (part 80 32 zero_report.raw))
          (toy.hex_encode (toy.sha256 toy_spki)))
verify_unbound_example =
    verify_unbound toy zero_report length-zero_report (AttestationKey.amd toy_chain) zeros toy_spki
      zero_report-unbound

verify_wrong_measurement_example :
    verify toy mock_report.raw AttestationKey.mock twos toy_spki
    ≡ err
        (measurement_mismatch (toy.hex_encode twos) (toy.hex_encode (part 144 48 mock_report.raw)))
verify_wrong_measurement_example =
    verify_wrong_measurement toy mock_report mock_run.2.size AttestationKey.mock twos toy_spki ones
      mock_report-IsAccepted twos-ne-zeros measured-ne-twos

verify-ne-panic_example : verify toy toy_raw (AttestationKey.amd toy_chain) zeros toy_spki ≢ panic
verify-ne-panic_example =
    verify-ne-panic toy toy-IsP384 (record { raw = toy_raw }) length-toy_raw
      (AttestationKey.amd toy_chain) zeros toy_spki

verify-sign_mock_report_example :
    (do
      r ← sign_mock_report toy (tls_pubkey_hash toy toy_spki) ones
      verify toy r.raw AttestationKey.mock ones toy_spki)
    ≡ ok tt
verify-sign_mock_report_example =
    verify-sign_mock_report toy toy-IsP384 toy-IsSha2 toy_spki ones length-ones

sign_mock_report_lem_example :
    (r : Report) × (sign_mock_report toy {E = VerifyError} (toy.sha256 toy_spki) ones ≡ ok r)
    × IsMockReport toy (toy.sha256 toy_spki) ones r
sign_mock_report_lem_example =
    sign_mock_report_lem {E = VerifyError} toy toy-IsP384 (toy.sha256 toy_spki) ones
      (toy-IsSha2.length-sha256 toy_spki) length-ones

vcek_verifying_key_iff_example :
    (vcek_verifying_key toy (toy_vcek ∷ toy_ask ∷ toy_ark ∷ []) ≡ ok 9)
    ↔ IsChain toy toy_vcek toy_ask toy_ark 9
vcek_verifying_key_iff_example = vcek_verifying_key_iff toy toy_vcek toy_ask toy_ark [] 9

vcek_verifying_key-FailsByChain_example : FailsByChain (vcek_verifying_key toy (toy_ask ∷ []))
vcek_verifying_key-FailsByChain_example = vcek_verifying_key-FailsByChain toy (toy_ask ∷ [])

abbrev jwt : Str
jwt = text "header.payload.signature"

extension_roundtrip_example :
    (e : AttestationExtension) × (from_bytes toy_serde
        (to_bytes toy_serde (with_gpu_jwt jwt (new_amd toy toy_raw toy_chain)))
      ≡ inr e)
    × (report_bytes toy e ≡ ok toy_raw)
    × (vcek_chain_der toy e ≡ ok toy_chain)
    × (e.mode ≡ AttestationMode.amd_sev_snp)
    × (e.gpu_jwt ≡ some jwt)
extension_roundtrip_example =
    extension_roundtrip toy toy-IsBase64 toy_serde toy_raw toy_chain jwt toy_serde-IsSerde
      length-toy_raw
