-- ===== src/System/Handshake.antt =====
-- A certificate that carries an extension, in the client's hands.
use sifir.Base.{◌≡◌, refl, inr, arith, length, ok, ◌⊎◌, ◌>>=◌, ◌>>◌, map_err}
use sifir.Base.Text.{Str, Bytes}
use sifir.Base.Text.Decimal.{decimal}
use sifir.Crates.{Crates, Serde}
use sifir.Crates.Laws.{IsConstOid, IsSerde, dotted, IsOid}
use sifir.Attest.Report.{report_size}
use sifir.Attest.Payload.{AttestationExtension, attest_oid_str, attest_oid_arcs}
use sifir.Attest.Extension.{to_bytes, from_bytes}
use sifir.Attest.Extension.RoundTrip.{report_bytes_of_decoding}
use sifir.Attest.Verify.{verify}
use sifir.Attest.Error.{AttestationKey, display}
use sifir.Attest.Verify.Accept.{IsAccepted}
use sifir.Client.GpuVerify.{NvidiaClaims}
use sifir.Client.Verifier.{
  AttestationVerifier, verify_server_cert, choose_key, check_gpu, tls_error,
  extract_attest_extension,
}
use sifir.Client.Verifier.Trust.{Anchors, GpuIsTrusted, find_extension_iff, verify_server_cert_iff}
use sifir.Server.Tls.Served.{Carries}

-- The two forms of the object identifier are one.
pub dotted-attest_oid_arcs : dotted attest_oid_arcs ≡ attest_oid_str
unfolding dotted decimal attest_oid_str
dotted-attest_oid_arcs = refl

attest_oid_arcs-IsOid : IsOid attest_oid_arcs
attest_oid_arcs-IsOid = omega arith

pub oid_parse-attest_oid_str :
    (c : Crates) → IsConstOid c → c.oid_parse attest_oid_str ≡ inr attest_oid_arcs
oid_parse-attest_oid_str c o =
    rw (← dotted-attest_oid_arcs) (o.oid_parse-dotted attest_oid_arcs attest_oid_arcs-IsOid)

module _ (c : Crates) (s : Serde AttestationExtension) (from_slice : Bytes → Str ⊎ NvidiaClaims)
    (o : IsConstOid c) (j : IsSerde s) (self : AttestationVerifier) where
  -- The client accepts a certificate that carries an extension with an acceptable report, for the
  -- client's mode, and with an acceptable token.
  pub verify_server_cert-Carries :
      (der spki raw : Bytes) (ext : AttestationExtension) (key : AttestationKey)
      → Carries c s der spki ext
      → c.b64_decode ext.report_b64 ≡ inr raw
      → length raw ≡ report_size
      → Anchors c self.mode ext key
      → IsAccepted c (record { raw = raw }) key self.expected_measurement spki
      → GpuIsTrusted c s from_slice self.verify_gpu_cc ext.gpu_jwt spki
      → verify_server_cert c s from_slice self der ≡ ok tt
  unfolding to_bytes
  verify_server_cert-Carries der spki raw ext key w d l a acc gpu =
      (verify_server_cert_iff c s from_slice self der).1 (record {
        cert = w.cert;
        cert_parses = w.parses;
        spki = spki;
        spki_encodes = w.key;
        oid = attest_oid_arcs;
        oid_parses = oid_parse-attest_oid_str c o;
        ext = record { extn_id = attest_oid_arcs; extn_value = s.to_vec ext };
        is_first = w.is_first;
        payload = ext;
        payload_parses = j.from_slice-to_vec ext;
        raw = raw;
        raw_decodes = d;
        raw_size = l;
        key = key;
        anchors = a;
        accepted = acc;
        gpu = gpu;
      })

  -- What is left of the check once the certificate is taken apart.
  pub verify_server_cert_lem :
      (der spki raw : Bytes) (ext : AttestationExtension)
      → Carries c s der spki ext
      → c.b64_decode ext.report_b64 ≡ inr raw
      → length raw ≡ report_size
      → verify_server_cert c s from_slice self der ≡ (do
        key ← choose_key c self.mode ext.mode ext
        map_err
            (λ e. tls_error "attestation failed: " (display e))
            (verify c raw key self.expected_measurement spki)
        check_gpu c s from_slice self.verify_gpu_cc ext.gpu_jwt spki
        ok tt)
  unfolding verify_server_cert extract_attest_extension from_bytes to_bytes
  verify_server_cert_lem der spki raw ext w d l = rw (
    w.parses,
    w.key,
    oid_parse-attest_oid_str c o,
    (find_extension_iff attest_oid_arcs _ _).1 w.is_first,
    j.from_slice-to_vec ext,
    report_bytes_of_decoding c ext raw d l,
  )
