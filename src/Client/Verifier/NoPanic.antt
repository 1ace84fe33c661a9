-- ===== src/Client/Verifier/NoPanic.antt =====
-- The check of a certificate never panics.
use sifir.Base.{
  List, [], ◌∷◌, Option, none, some, Bool, true, false, ◌⊎◌, ◌≡◌, ◌≢◌, refl, arith, panic, attempt,
  map_err, ok_or, map_err-eq-ok, >>=-ne-panic, attempt-ne-panic, map_err-ne-panic, ok_or-ne-panic,
}
use sifir.Base.Slices.{index}
use sifir.Base.Text.{Str, Bytes, split}
use sifir.Crates.{Crates, Serde}
use sifir.Crates.Laws.{IsP384}
use sifir.Attest.Payload.{AttestationExtension, AttestationMode}
use sifir.Attest.Extension.{report_bytes, decode_all, vcek_chain_der}
use sifir.Attest.Extension.RoundTrip.{length-report_bytes}
use sifir.Attest.Verify.{verify}
use sifir.Attest.Verify.Errors.{verify-ne-panic}
use sifir.Client.GpuVerify.{NvidiaClaims, check_claims, verify_gpu_jwt, base64_url_decode}
use sifir.Client.Verifier.{
  AttestationVerifier, VerifierMode, mock, amd_sev_snp, choose_key, extract_attest_extension,
  check_gpu, verify_server_cert, find_extension, or_empty,
}

module _ (c : Crates) where
  claims-ne-panic :
      (n m g : Option Str) (pubkey : Bytes)
      → check_claims c (record { nonce = n; cc_mode = m; gpu_model = g }) pubkey ≢ panic
  unfolding check_claims
  claims-ne-panic none m g pubkey p = cc p
  claims-ne-panic (some n) none g pubkey p = ground arith
  claims-ne-panic (some n) (some m) none pubkey p = ground arith
  claims-ne-panic (some n) (some m) (some g) pubkey p = ground arith

  of_parts :
      (from_slice : Bytes → Str ⊎ NvidiaClaims) (jwt : Str) (pubkey : Bytes) (parts : List Str)
      → split b'.' jwt ≡ parts
      → verify_gpu_jwt c from_slice jwt pubkey ≢ panic
  unfolding verify_gpu_jwt index
  of_parts from_slice jwt pubkey [] e = rw e (λ p. cc p)
  of_parts from_slice jwt pubkey (a ∷ []) e = rw e (λ p. cc p)
  of_parts from_slice jwt pubkey (a ∷ b ∷ []) e = rw e (λ p. cc p)
  of_parts from_slice jwt pubkey (a ∷ b ∷ d ∷ []) e = rw e (
      >>=-ne-panic (attempt _ (base64_url_decode c b)) _ (attempt-ne-panic _ _) λ bytes _.
        >>=-ne-panic (attempt _ (from_slice bytes)) _ (attempt-ne-panic _ _)
          λ claims _. claims-ne-panic claims.nonce claims.cc_mode claims.gpu_model pubkey)
  of_parts from_slice jwt pubkey (a ∷ b ∷ d ∷ f ∷ r) e = λ p. ground (arith, e)

  verify_gpu_jwt-ne-panic :
      (from_slice : Bytes → Str ⊎ NvidiaClaims) (jwt : Str) (pubkey : Bytes)
      → verify_gpu_jwt c from_slice jwt pubkey ≢ panic
  verify_gpu_jwt-ne-panic from_slice jwt pubkey =
      of_parts from_slice jwt pubkey (split b'.' jwt) refl

  report_bytes-ne-panic : (e : AttestationExtension) → report_bytes c e ≢ panic
  unfolding report_bytes
  report_bytes-ne-panic e =
      >>=-ne-panic (attempt _ (c.b64_decode e.report_b64)) _ (attempt-ne-panic _ _)
        λ raw _. λ p. ground arith

  decode_all-ne-panic : (ts : List Str) → decode_all c ts ≢ panic
  unfolding decode_all
  decode_all-ne-panic [] = λ p. cc p
  decode_all-ne-panic (t ∷ ts) =
      >>=-ne-panic (attempt _ (c.b64_decode t)) _ (attempt-ne-panic _ _)
        λ der _. >>=-ne-panic (decode_all c ts) _ (decode_all-ne-panic ts) λ ders _. λ p. cc p

  choose_key-ne-panic :
      (client : VerifierMode) (server : AttestationMode) (e : AttestationExtension)
      → choose_key c client server e ≢ panic
  unfolding choose_key vcek_chain_der
  choose_key-ne-panic mock AttestationMode.mock e = λ p. cc p
  choose_key-ne-panic mock AttestationMode.amd_sev_snp e = λ p. cc p
  choose_key-ne-panic amd_sev_snp AttestationMode.mock e = λ p. cc p
  choose_key-ne-panic amd_sev_snp AttestationMode.amd_sev_snp e =
      >>=-ne-panic (map_err _ (decode_all c e.vcek_chain_b64)) _
        (map_err-ne-panic _ _ (decode_all-ne-panic e.vcek_chain_b64)) λ chain _. λ p. cc p

  module _ (s : Serde AttestationExtension) (from_slice : Bytes → Str ⊎ NvidiaClaims) where
    check_gpu-ne-panic :
        (asked : Bool) (jwt : Option Str) (spki : Bytes)
        → check_gpu c s from_slice asked jwt spki ≢ panic
    unfolding check_gpu
    check_gpu-ne-panic false jwt spki = λ p. cc p
    check_gpu-ne-panic true none spki = λ p. cc p
    check_gpu-ne-panic true (some jwt) spki =
        >>=-ne-panic (map_err _ (verify_gpu_jwt c from_slice jwt spki)) _
          (map_err-ne-panic _ _ (verify_gpu_jwt-ne-panic from_slice jwt spki)) λ _ _. λ p. cc p

    extract-ne-panic : (cert : c.Certificate) → extract_attest_extension c s cert ≢ panic
    unfolding extract_attest_extension
    extract-ne-panic cert =
        >>=-ne-panic (attempt _ (c.oid_parse _)) _ (attempt-ne-panic _ _) λ oid _.
          >>=-ne-panic (ok_or _ (find_extension oid (or_empty (c.extensions cert)))) _
            (ok_or-ne-panic _ _) λ ext _. attempt-ne-panic _ _

    -- Whatever bytes the server presents as its certificate, the client's check of them ends with
    -- acceptance or with an error: it never panics, in either mode, if the P-384 package keeps
    -- its laws.
    pub verify_server_cert-ne-panic :
        IsP384 c
        → (self : AttestationVerifier) (der : Bytes)
        → verify_server_cert c s from_slice self der ≢ panic
    unfolding verify_server_cert
    verify_server_cert-ne-panic p self der =
        >>=-ne-panic (attempt _ (c.certificate_from_der der)) _ (attempt-ne-panic _ _) λ cert _.
          >>=-ne-panic (attempt _ (c.spki_to_der cert)) _ (attempt-ne-panic _ _) λ spki _.
            >>=-ne-panic (extract_attest_extension c s cert) _ (extract-ne-panic cert) λ ext _.
              >>=-ne-panic (map_err _ (report_bytes c ext)) _
                (map_err-ne-panic _ _ (report_bytes-ne-panic ext))
                λ raw decoded.
                  let (_, size) = length-report_bytes c ext raw (map_err-eq-ok _ _ decoded) in
                  >>=-ne-panic (choose_key c self.mode ext.mode ext) _
                    (choose_key-ne-panic self.mode ext.mode ext)
                    λ key _.
                      >>=-ne-panic (map_err _ (verify c raw key self.expected_measurement spki)) _
                        (map_err-ne-panic _ _ (
                          verify-ne-panic c p (record { raw = raw }) size key
                            self.expected_measurement spki))
                        λ _ _.
                          >>=-ne-panic
                            (check_gpu c s from_slice self.verify_gpu_cc ext.gpu_jwt spki) _
                            (check_gpu-ne-panic self.verify_gpu_cc ext.gpu_jwt spki)
                            λ _ _. λ q. cc q
