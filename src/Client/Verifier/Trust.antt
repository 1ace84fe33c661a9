-- ===== src/Client/Verifier/Trust.antt =====
-- Which server certificates the client trusts, from the certificate's bytes down to the report's.
use sifir.Base.{
  List, [], ◌∷◌, Option, none, some, Bool, true, false, ◌⊎◌, inr, ◌≡◌, ◌≢◌, ◌↔◌, refl, ===_iff,
  arith, length, ok, attempt, map_err, ok_or, >>=-ok_elim, attempt-eq-ok, map_err-eq-ok,
  ok_or-eq-ok,
}
use sifir.Base.Text.{Str, Bytes}
use sifir.Crates.{Crates, Serde, Extension, Oid}
use sifir.Attest.Payload.{AttestationExtension, AttestationMode, attest_oid_str}
use sifir.Attest.Report.{report_size}
use sifir.Attest.Extension.{report_bytes, decode_all, vcek_chain_der, from_bytes}
use sifir.Attest.Extension.RoundTrip.{length-report_bytes, report_bytes_of_decoding}
use sifir.Attest.Error.{AttestationKey}
use sifir.Attest.Verify.{verify}
use sifir.Attest.Verify.Accept.{IsAccepted, verify_iff}
use sifir.Client.GpuVerify.{NvidiaClaims, GpuClaims, verify_gpu_jwt}
use sifir.Client.GpuVerify.Laws.{IsValidJwt, verify_gpu_jwt_iff}
use sifir.Client.Verifier.{
  AttestationVerifier, VerifierMode, mock, amd_sev_snp, find_extension, or_empty, choose_key,
  extract_attest_extension, check_gpu, verify_server_cert,
}

-- `e` is the first of the extensions with the identifier.
abbrev pub IsFirst : Oid → Extension → List Extension → Type 0
IsFirst oid e [] = ⊥
IsFirst oid e (x ∷ xs) = ((x.extn_id ≡ oid) × (x ≡ e)) ⊎ ((x.extn_id ≢ oid) × IsFirst oid e xs)

pub find_extension_iff :
    (oid : Oid) (e : Extension) (xs : List Extension)
    → (find_extension oid xs ≡ some e) ↔ IsFirst oid e xs
unfolding find_extension
find_extension_iff oid e [] = (λ h. cc, λ h. elim h [ ])
find_extension_iff oid e (x ∷ xs) =
    ground (arith, ===_iff x.extn_id oid, find_extension_iff oid e xs)

module _ (c : Crates) where
  -- The base64 texts decode to the certificates, one by one.
  abbrev pub Decodes : List Str → List Bytes → Type 0
  Decodes [] [] = Unit
  Decodes (t ∷ ts) (b ∷ bs) = (c.b64_decode t ≡ inr b) × Decodes ts bs
  Decodes _ _ = ⊥

  pub decode_all-Decodes :
      (ts : List Str) (bs : List Bytes) → decode_all c ts ≡ ok bs → Decodes ts bs
  unfolding decode_all
  decode_all-Decodes [] [] h = tt
  decode_all-Decodes [] (b ∷ bs) h = cc
  decode_all-Decodes (t ∷ ts) bs h = >>=-ok_elim (attempt _ (c.b64_decode t)) _ h λ b a h1.
      >>=-ok_elim (decode_all c ts) _ h1 λ bs' d h2.
        let e : bs ≡ b ∷ bs' = cc h2 in rw e (attempt-eq-ok _ _ a, decode_all-Decodes ts bs' d)

  Decodes-decode_all : (ts : List Str) (bs : List Bytes) → Decodes ts bs → decode_all c ts ≡ ok bs
  unfolding decode_all
  Decodes-decode_all [] [] h = refl
  Decodes-decode_all [] (b ∷ bs) h = elim h [ ]
  Decodes-decode_all (t ∷ ts) [] h = elim h [ ]
  Decodes-decode_all (t ∷ ts) (b ∷ bs) (h, hs) = rw (h, Decodes-decode_all ts bs hs)

  -- The trust anchor that a client in this mode takes from the extension.
  abbrev pub Anchors : VerifierMode → AttestationExtension → AttestationKey → Type 0
  Anchors mock e key = (e.mode ≡ AttestationMode.mock) × (key ≡ AttestationKey.mock)
  Anchors amd_sev_snp e key =
      (chain : List Bytes) × (e.mode ≡ AttestationMode.amd_sev_snp)
      × Decodes e.vcek_chain_b64 chain
      × (key ≡ AttestationKey.amd chain)

  choose_key_iff :
      (client : VerifierMode) (server : AttestationMode) (e : AttestationExtension)
      (key : AttestationKey)
      → e.mode ≡ server
      → (choose_key c client server e ≡ ok key) ↔ Anchors client e key
  unfolding choose_key vcek_chain_der
  choose_key_iff mock AttestationMode.mock e key m = ground arith
  choose_key_iff mock AttestationMode.amd_sev_snp e key m = ground arith
  choose_key_iff amd_sev_snp AttestationMode.mock e key m = (λ h. cc, λ (_, w, _, _). cc)
  choose_key_iff amd_sev_snp AttestationMode.amd_sev_snp e key m = (
    λ h. >>=-ok_elim (map_err _ (decode_all c e.vcek_chain_b64)) _ h λ chain a h1.
        (chain, m, decode_all-Decodes e.vcek_chain_b64 chain (map_err-eq-ok _ _ a), cc h1),
    λ (chain, _, d, k). rw (Decodes-decode_all e.vcek_chain_b64 chain d, k),
  )

  module _ (s : Serde AttestationExtension) (from_slice : Bytes → Str ⊎ NvidiaClaims) where
    -- The GPU token that the client asks for, if it asks for one.
    abbrev pub GpuIsTrusted : Bool → Option Str → Bytes → Type 0
    GpuIsTrusted false jwt spki = Unit
    GpuIsTrusted true none spki = ⊥
    GpuIsTrusted true (some jwt) spki =
        (claims : GpuClaims) × IsValidJwt c from_slice jwt spki claims

    check_gpu_iff :
        (asked : Bool) (jwt : Option Str) (spki : Bytes)
        → (check_gpu c s from_slice asked jwt spki ≡ ok tt) ↔ GpuIsTrusted asked jwt spki
    unfolding check_gpu
    check_gpu_iff false jwt spki = (λ h. tt, λ h. refl)
    check_gpu_iff true none spki = (λ h. cc, λ h. elim h [ ])
    check_gpu_iff true (some jwt) spki = (
      λ h. >>=-ok_elim (map_err _ (verify_gpu_jwt c from_slice jwt spki)) _ h λ claims a h1.
          (claims, (verify_gpu_jwt_iff c from_slice jwt spki claims).0 (map_err-eq-ok _ _ a)),
      λ (claims, v). rw ((verify_gpu_jwt_iff c from_slice jwt spki claims).1 v),
    )

    -- The certificate parses, carries an attestation extension for the client's mode, and the report
    -- in it is accepted for the key of the certificate; so is the GPU token, if one is asked for.
    pub record IsTrusted (self : AttestationVerifier) (der : Bytes) : Type 0 where
      pub cert : c.Certificate
      pub cert_parses : c.certificate_from_der der ≡ inr cert
      pub spki : Bytes
      pub spki_encodes : c.spki_to_der cert ≡ inr spki
      pub oid : Oid
      pub oid_parses : c.oid_parse attest_oid_str ≡ inr oid
      pub ext : Extension
      pub is_first : IsFirst oid ext (or_empty (c.extensions cert))
      pub payload : AttestationExtension
      pub payload_parses : s.from_slice ext.extn_value ≡ inr payload
      pub raw : Bytes
      pub raw_decodes : c.b64_decode payload.report_b64 ≡ inr raw
      pub raw_size : length raw ≡ report_size
      pub key : AttestationKey
      pub anchors : Anchors self.mode payload key
      pub accepted : IsAccepted c (record { raw = raw }) key self.expected_measurement spki
      pub gpu : GpuIsTrusted self.verify_gpu_cc payload.gpu_jwt spki

    module _ (self : AttestationVerifier) (der : Bytes) where
      verify_server_cert-eq-ok :
          verify_server_cert c s from_slice self der ≡ ok tt → IsTrusted self der
      unfolding verify_server_cert extract_attest_extension from_bytes
      verify_server_cert-eq-ok h =
          >>=-ok_elim (attempt _ (c.certificate_from_der der)) _ h λ cert a0 h0.
            >>=-ok_elim (attempt _ (c.spki_to_der cert)) _ h0 λ spki a1 h1.
              >>=-ok_elim (extract_attest_extension c s cert) _ h1 λ payload a2 h2.
                >>=-ok_elim (attempt _ (c.oid_parse attest_oid_str)) _ a2 λ oid b0 k0.
                  >>=-ok_elim (ok_or _ (find_extension oid (or_empty (c.extensions cert)))) _ k0
                    λ ext b1 k1. >>=-ok_elim (map_err _ (report_bytes c payload)) _ h2 λ raw a3 h3.
                      let (raw_decodes, raw_size) =
                        length-report_bytes c payload raw (map_err-eq-ok _ _ a3) in
                      >>=-ok_elim (choose_key c self.mode payload.mode payload) _ h3 λ key a4 h4.
                        >>=-ok_elim (map_err _ (verify c raw key self.expected_measurement spki)) _
                          h4
                          λ _ a5 h5.
                            >>=-ok_elim
                              (check_gpu c s from_slice self.verify_gpu_cc payload.gpu_jwt spki) _
                              h5
                              λ _ a6 h6. record {
                                cert = cert;
                                cert_parses = attempt-eq-ok _ _ a0;
                                spki = spki;
                                spki_encodes = attempt-eq-ok _ _ a1;
                                oid = oid;
                                oid_parses = attempt-eq-ok _ _ b0;
                                ext = ext;
                                is_first = (find_extension_iff oid ext _).0 (ok_or-eq-ok _ _ b1);
                                payload = payload;
                                payload_parses = attempt-eq-ok _ _ k1;
                                raw = raw;
                                raw_decodes = raw_decodes;
                                raw_size = raw_size;
                                key = key;
                                anchors =
                                    (choose_key_iff self.mode payload.mode payload key refl).0 a4;
                                accepted =
                                    (verify_iff c (record { raw = raw }) raw_size key
                                        self.expected_measurement spki).0
                                      (map_err-eq-ok _ _ a5);
                                gpu = (check_gpu_iff self.verify_gpu_cc payload.gpu_jwt spki).0 a6;
                              }

      extract-IsTrusted :
          (t : IsTrusted self der) → extract_attest_extension c s t.cert ≡ ok t.payload
      unfolding extract_attest_extension from_bytes
      extract-IsTrusted t =
          rw (t.oid_parses, (find_extension_iff t.oid t.ext _).1 t.is_first, t.payload_parses)

      verify_server_cert-IsTrusted :
          IsTrusted self der → verify_server_cert c s from_slice self der ≡ ok tt
      unfolding verify_server_cert
      verify_server_cert-IsTrusted t = rw (
        t.cert_parses,
        t.spki_encodes,
        extract-IsTrusted t,
        report_bytes_of_decoding c t.payload t.raw t.raw_decodes t.raw_size,
        (choose_key_iff self.mode t.payload.mode t.payload t.key refl).1 t.anchors,
        (verify_iff c (record { raw = t.raw }) t.raw_size t.key self.expected_measurement t.spki).1
            t.accepted,
        (check_gpu_iff self.verify_gpu_cc t.payload.gpu_jwt t.spki).1 t.gpu,
      )

      -- The client accepts a server certificate exactly when it parses, its first attestation
      -- extension is for the client's mode and holds a report of the right size that is accepted
      -- for the certificate's own key, and the GPU token is valid for that key if one is asked
      -- for.
      pub verify_server_cert_iff :
          (verify_server_cert c s from_slice self der ≡ ok tt) ↔ IsTrusted self der
      verify_server_cert_iff = (verify_server_cert-eq-ok, verify_server_cert-IsTrusted)
