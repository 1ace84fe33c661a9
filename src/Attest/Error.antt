-- ===== src/Attest/Error.antt =====
-- `AttestationKey` and `VerifyError` of poc/crates/sifir-attest/src/verify.rs.
use sifir.Base.{ℕ, List, ◌++◌}
use sifir.Base.Text.{Str, Bytes, text}
use sifir.Base.Text.Decimal.{decimal}
use sifir.Attest.Report.{report_size}

pub data AttestationKey : Type 0 where
  mock : AttestationKey
  amd : List Bytes → AttestationKey

pub data VerifyError : Type 0 where
  wrong_length : ℕ → VerifyError
  bad_signature : VerifyError
  key_binding_mismatch : (report computed : Str) → VerifyError
  measurement_mismatch : (expected actual : Str) → VerifyError
  cert_chain : Str → VerifyError
  internal : Str → VerifyError

-- The `#[error]` texts.
unfoldable pub display : VerifyError → Str
display (wrong_length got) =
    text "attestation report length is " ++ decimal got ++ text ", expected " ++ decimal report_size
display bad_signature = text "signature verification failed"
display (key_binding_mismatch report computed) =
    text "TLS key binding mismatch: report_data[0..32]="
    ++ report
    ++ text ", SHA-256(pubkey)="
    ++ computed
display (measurement_mismatch expected actual) =
    text "measurement mismatch: expected=" ++ expected ++ text ", got=" ++ actual
display (cert_chain e) = text "AMD certificate chain error: " ++ e
display (internal e) = text "internal error: " ++ e
