-- ===== src/Client/GpuVerify.antt =====
-- poc/crates/sifir-client/src/gpu_verify.rs: the GPU attestation token.
pub mod Laws
pub mod Tests
use sifir.Base.{
  ℕ, List, ◌++◌, Option, ◌⊎◌, ◌===◌, ◌==◌, if◌then◌else◌, Outcome, ok, err, ◌>>=◌, attempt, ok_or,
  length,
}
use sifir.Base.Slices.{index}
use sifir.Base.Text.{Str, Bytes, text, split, to_lowercase}
use sifir.Base.Text.Decimal.{decimal}
use sifir.Crates.{Crates}

pub record GpuClaims : Type 0 where
  pub gpu_model : Str
  pub cc_mode : Str

pub data GpuVerifyError : Type 0 where
  malformed_jwt : Str → GpuVerifyError
  nonce_mismatch : (expected got : Str) → GpuVerifyError
  cc_mode_not_on : (got : Str) → GpuVerifyError
  missing_claim : Str → GpuVerifyError

unfoldable pub display : GpuVerifyError → Str
display (malformed_jwt e) = text "malformed JWT: " ++ e
display (nonce_mismatch expected got) =
    text "GPU JWT nonce mismatch: expected=" ++ expected ++ text ", got=" ++ got
display (cc_mode_not_on got) = text "GPU CC mode is not ON (got '" ++ got ++ text "')"
display (missing_claim claim) = text "GPU JWT missing claim '" ++ claim ++ text "'"

-- The claims `x-nvidia-attestation-nonce`, `x-nvidia-cc-mode` and `x-nvidia-gpu-model`.
pub record NvidiaClaims : Type 0 where
  pub nonce : Option Str
  pub cc_mode : Option Str
  pub gpu_model : Option Str

module _ (c : Crates) where
  unfoldable pub base64_url_decode : Str → Str ⊎ Bytes
  base64_url_decode s = c.b64_url_decode s

  -- The checks of the decoded claims.
  unfoldable pub check_claims : NvidiaClaims → Bytes → Outcome GpuVerifyError GpuClaims
  check_claims claims tls_pubkey_der = do
    let expected_nonce = c.hex_encode (c.sha256 tls_pubkey_der)
    got_nonce ← ok_or (missing_claim (text "x-nvidia-attestation-nonce")) claims.nonce
    if got_nonce === expected_nonce
        then (do
          cc_mode ← ok_or (missing_claim (text "x-nvidia-cc-mode")) claims.cc_mode
          if to_lowercase cc_mode === text "on"
              then (do
                gpu_model ← ok_or (missing_claim (text "x-nvidia-gpu-model")) claims.gpu_model
                ok (record { gpu_model = gpu_model; cc_mode = cc_mode }))
              else err (cc_mode_not_on cc_mode))
        else err (nonce_mismatch expected_nonce got_nonce)

  -- `from_slice` is the deserialiser that serde derives for the claims.
  module _ (from_slice : Bytes → Str ⊎ NvidiaClaims) where
    unfoldable pub verify_gpu_jwt : Str → Bytes → Outcome GpuVerifyError GpuClaims
    verify_gpu_jwt jwt tls_pubkey_der =
        let parts = split b'.' jwt in
        if length parts == 3
        then (do
          payload ← index parts 1
          payload_bytes ←
              attempt (λ e. malformed_jwt (text "payload decode: " ++ e))
                (base64_url_decode payload)
          claims ←
              attempt (λ e. malformed_jwt (text "payload JSON: " ++ e)) (from_slice payload_bytes)
          check_claims claims tls_pubkey_der)
        else err (malformed_jwt (text "expected 3 parts, got " ++ decimal (length parts)))
