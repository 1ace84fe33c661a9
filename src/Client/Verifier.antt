-- ===== src/Client/Verifier.antt =====
-- poc/crates/sifir-client/src/verifier.rs: the check of the server's certificate in the handshake.
-- rustls calls the methods of the verifier.
pub mod Trust
pub mod NoPanic
use sifir.Base.{
  ℕ, List, [], ◌∷◌, ◌++◌, Option, none, some, Bool, true, false, ◌⊎◌, ◌===◌, String, Outcome, ok,
  err, ◌>>=◌, ◌>>◌, attempt, map_err, ok_or, if◌then◌else◌,
}
use sifir.Base.Text.{Str, Bytes, text}
use sifir.Crates.{Crates, Serde, Extension, Oid}
use sifir.Attest.Payload.{AttestationExtension, AttestationMode, attest_oid_str}
use sifir.Attest.Extension.{report_bytes, vcek_chain_der, from_bytes}
use sifir.Attest.Error.{AttestationKey, display}
use sifir.Attest.Verify.{verify}
use sifir.Client.GpuVerify
use sifir.Client.GpuVerify.{NvidiaClaims, GpuClaims, verify_gpu_jwt}

pub data VerifierMode : Type 0 where
  mock amd_sev_snp : VerifierMode

-- `rustls::Error`, of which the program builds `General` only.
pub data TlsError : Type 0 where
  general : Str → TlsError

-- A signature of the handshake with its scheme, by the number that the protocol gives it.
pub record DigitallySignedStruct : Type 0 where
  pub scheme : ℕ
  pub sig : Bytes

-- `WebPkiSupportedAlgorithms`: its schemes, and what `rustls::crypto::verify_tls12_signature` and
-- `verify_tls13_signature` return for it, a message, a certificate and a signature.
pub record WebPkiSupportedAlgorithms : Type 0 where
  pub supported_schemes : List ℕ
  pub verify_tls12_signature : Bytes → Bytes → DigitallySignedStruct → TlsError ⊎ Unit {0}
  pub verify_tls13_signature : Bytes → Bytes → DigitallySignedStruct → TlsError ⊎ Unit {0}

pub record CryptoProvider : Type 0 where
  pub signature_verification_algorithms : WebPkiSupportedAlgorithms

pub record AttestationVerifier : Type 0 where
  pub expected_measurement : Bytes
  pub mode : VerifierMode
  pub verify_gpu_cc : Bool
  pub crypto_provider : CryptoProvider

unfoldable pub new : Bytes → VerifierMode → Bool → CryptoProvider → AttestationVerifier
new expected_measurement mode verify_gpu_cc crypto_provider = record {
  expected_measurement = expected_measurement;
  mode = mode;
  verify_gpu_cc = verify_gpu_cc;
  crypto_provider = crypto_provider;
}

-- `TlsError::General(format!("{what}{e}"))`
abbrev pub tls_error : String → Str → TlsError
tls_error what e = general (text what ++ e)

-- The methods that hand the signatures of the handshake to the crypto provider.
module _ (self : AttestationVerifier) where
  unfoldable pub verify_tls12_signature :
      Bytes → Bytes → DigitallySignedStruct → TlsError ⊎ Unit {0}
  verify_tls12_signature =
      self.crypto_provider.signature_verification_algorithms.verify_tls12_signature

  unfoldable pub verify_tls13_signature :
      Bytes → Bytes → DigitallySignedStruct → TlsError ⊎ Unit {0}
  verify_tls13_signature =
      self.crypto_provider.signature_verification_algorithms.verify_tls13_signature

  unfoldable pub supported_verify_schemes : List ℕ
  supported_verify_schemes =
      self.crypto_provider.signature_verification_algorithms.supported_schemes

-- `{:?}` of the two modes
debug_client : VerifierMode → Str
debug_client mock = text "Mock"
debug_client amd_sev_snp = text "AmdSevSnp"

debug_server : AttestationMode → Str
debug_server AttestationMode.mock = text "Mock"
debug_server AttestationMode.amd_sev_snp = text "AmdSevSnp"

-- `iter().find(|e| e.extn_id == oid)`
unfoldable pub find_extension : Oid → List Extension → Option Extension
find_extension oid [] = none
find_extension oid (e ∷ es) = if e.extn_id === oid then some e else find_extension oid es

-- `as_deref().unwrap_or(&[])`
abbrev pub or_empty : Option (List Extension) → List Extension
or_empty none = []
or_empty (some es) = es

module _ (c : Crates) where
  -- The trust anchor, from the client's mode and the extension's.
  unfoldable pub choose_key :
      VerifierMode → AttestationMode → AttestationExtension → Outcome TlsError AttestationKey
  unfolding debug_client debug_server
  choose_key mock AttestationMode.mock e = ok AttestationKey.mock
  choose_key amd_sev_snp AttestationMode.amd_sev_snp e = do
    chain ← map_err (tls_error "cert chain decode: ") (vcek_chain_der c e)
    ok (AttestationKey.amd chain)
  choose_key client server e = err (
      general (
        text "mode mismatch: client="
        ++ debug_client client
        ++ text ", server="
        ++ debug_server server))

  module _ (s : Serde AttestationExtension) where
    unfoldable pub extract_attest_extension : c.Certificate → Outcome TlsError AttestationExtension
    extract_attest_extension cert = do
      oid ← attempt (tls_error "OID parse error: ") (c.oid_parse attest_oid_str)
      ext ←
          ok_or (general (text "no Sifir attestation extension in server cert"))
            (find_extension oid (or_empty (c.extensions cert)))
      attempt (tls_error "attestation extension parse error: ") (from_bytes s ext.extn_value)

    module _ (from_slice : Bytes → Str ⊎ NvidiaClaims) where
      unfoldable pub check_gpu : Bool → Option Str → Bytes → Outcome TlsError (Unit {0})
      check_gpu false jwt spki_der = ok tt
      check_gpu true none spki_der =
          err (general (text "--gpu-cc set but server cert has no GPU JWT"))
      check_gpu true (some jwt) spki_der = do
        map_err (λ e. tls_error "GPU JWT failed: " (GpuVerify.display e))
            (verify_gpu_jwt c from_slice jwt spki_der)
        ok tt

      -- The log lines are left out.
      unfoldable pub verify_server_cert : AttestationVerifier → Bytes → Outcome TlsError (Unit {0})
      verify_server_cert self end_entity = do
        cert ← attempt (tls_error "cert parse error: ") (c.certificate_from_der end_entity)
        spki_der ← attempt (tls_error "SPKI encode error: ") (c.spki_to_der cert)
        attest_ext ← extract_attest_extension cert
        report_raw ← map_err (tls_error "report decode error: ") (report_bytes c attest_ext)
        attest_key ← choose_key self.mode attest_ext.mode attest_ext
        map_err (λ e. tls_error "attestation failed: " (display e))
            (verify c report_raw attest_key self.expected_measurement spki_der)
        check_gpu self.verify_gpu_cc attest_ext.gpu_jwt spki_der
        ok tt
