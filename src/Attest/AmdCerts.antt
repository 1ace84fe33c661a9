-- ===== src/Attest/AmdCerts.antt =====
-- poc/crates/sifir-attest/src/amd_certs.rs: the certificate chain of a chip.
pub mod Chain
pub mod Errors
pub mod Tests
use sifir.Base.{
  List, ◌++◌, Outcome, err, ◌>>=◌, ◌>>◌, attempt, map_err, ok_or, guard, length, ltb, if◌then◌else◌,
  String,
}
use sifir.Base.Slices.{index}
use sifir.Base.Text.{Str, Bytes, text}
use sifir.Base.Text.Decimal.{decimal}
use sifir.Crates.{Crates}
use sifir.Attest.Error.{VerifyError, cert_chain, display}

-- `CertChain(format!("{what}{e}"))`
abbrev pub chain_error : String → Str → VerifyError
chain_error what e = cert_chain (text what ++ e)

module _ (c : Crates) where
  open c use {Certificate, VerifyingKey}

  unfoldable pub parse_cert : Bytes → Outcome VerifyError Certificate
  parse_cert der = attempt (chain_error "DER parse error: ") (c.certificate_from_der der)

  unfoldable pub extract_p384_key : Certificate → Outcome VerifyError VerifyingKey
  extract_p384_key cert = do
    raw_key ← ok_or (cert_chain (text "empty public key bits")) (c.public_key_bits cert)
    attempt (chain_error "P-384 key parse error: ") (c.key_from_sec1 raw_key)

  unfoldable pub verify_cert_signature : Certificate → VerifyingKey → Outcome VerifyError (Unit {0})
  verify_cert_signature cert issuer_key = do
    tbs_der ← attempt (chain_error "TBSCertificate encode error: ") (c.tbs_to_der cert)
    sig_bytes ← ok_or (cert_chain (text "empty signature bits")) (c.signature_bits cert)
    der_sig ←
        attempt (chain_error "DER signature parse error: ") (c.der_signature_try_from sig_bytes)
    guard (cert_chain (text "signature verification failed"))
        (c.verify_der issuer_key tbs_der der_sig)

  -- The checks behind the length test.
  unfoldable pub verify_chain : List Bytes → Outcome VerifyError VerifyingKey
  verify_chain chain = do
    d0 ← index chain 0
    vcek ← parse_cert d0
    d1 ← index chain 1
    ask ← parse_cert d1
    d2 ← index chain 2
    ark ← parse_cert d2
    ark_vk ← extract_p384_key ark
    map_err (λ e. chain_error "ARK self-signature invalid: " (display e))
        (verify_cert_signature ark ark_vk)
    map_err (λ e. chain_error "ASK signature invalid (ARK): " (display e))
        (verify_cert_signature ask ark_vk)
    ask_vk ← extract_p384_key ask
    map_err (λ e. chain_error "VCEK signature invalid (ASK): " (display e))
        (verify_cert_signature vcek ask_vk)
    extract_p384_key vcek

  unfoldable pub vcek_verifying_key : List Bytes → Outcome VerifyError VerifyingKey
  vcek_verifying_key chain =
      if ltb (length chain) 3
      then err
          (cert_chain (text "expected [VCEK, ASK, ARK] (3 certs), got " ++ decimal (length chain)))
      else verify_chain chain
