-- ===== src/System/MockSetup.antt =====
-- The mock setup of the server against the client.
use sifir.Base.{
  ◌≡◌, refl, sym, ◌∙◌, inl, ok, >>=-ok_elim, ◌⊎◌, replicate, length-replicate, ok-injective, true,
  false, Bool, ◌≢◌, err,
}
use sifir.Base.Slices.{part}
use sifir.Base.Text.{Str, Bytes, text}
use sifir.Crates.{Crates, Serde}
use sifir.Crates.Laws.{IsConstOid, IsSerde, IsBase64, IsSha2, IsP384}
use sifir.Attest.Report.{Report, as_bytes}
use sifir.Attest.Payload.{AttestationExtension}
use sifir.Attest.Extension.{new_mock}
use sifir.Attest.Error.{AttestationKey, display, measurement_mismatch}
use sifir.Attest.Mock.{sign_mock_report}
use sifir.Attest.Mock.Signed.{IsMockReport, sign_mock_report_lem}
use sifir.Attest.Verify.Accept.{verify_iff}
use sifir.Attest.Verify.Errors.{verify_wrong_measurement}
use sifir.Attest.Verify.Mock.{verify-IsMockReport}
use sifir.Client.Verifier.{
  CryptoProvider, VerifierMode, new, verify_server_cert, choose_key, check_gpu, general, tls_error,
}
use sifir.Client.GpuVerify.{NvidiaClaims}
use sifir.Server.Kds.{context}
use sifir.Server.Tls.{Rcgen, TlsSetup, extract_spki_der, build_server_cert, build_mock_setup}
use sifir.Server.Tls.Served.{IsRcgen, Carries, extract_spki_der-eq-ok, build_server_cert-eq-ok}
use sifir.System.Handshake.{verify_server_cert-Carries, verify_server_cert_lem}

module _ (c : Crates) (p : IsP384 c) (h : IsSha2 c) (g : Rcgen) (r : IsRcgen c g)
    (s : Serde AttestationExtension) where
  -- The certificate of a mock setup carries a mock report, bound to the certificate's own key.
  pub record IsMockSetup (setup : TlsSetup g.ServerConfig) : Type 0 where
    pub zeros : setup.measurement ≡ replicate 48 0
    pub spki : Bytes
    pub report : Report
    pub holds : IsMockReport c (c.sha256 spki) (replicate 48 0) report
    pub carries : Carries c s (r.presented setup.server_config) spki (new_mock c report.raw)

  pub build_mock_setup-eq-ok :
      (setup : TlsSetup g.ServerConfig) → build_mock_setup c g s ≡ ok setup → IsMockSetup setup
  unfolding build_mock_setup as_bytes
  build_mock_setup-eq-ok setup e = >>=-ok_elim (context _ g.generate) _ e λ k a1 e1.
      >>=-ok_elim (extract_spki_der c g k) _ e1 λ spki a2 e2.
        let same : spki ≡ r.spki k = extract_spki_der-eq-ok c g r k spki a2 in
        >>=-ok_elim (sign_mock_report c (c.sha256 spki) (replicate 48 0)) _ e2 λ report a3 e3.
          let (report', a3', m) =
            sign_mock_report_lem {E = Str} c p (c.sha256 spki) (replicate 48 0)
              (h.length-sha256 spki) (length-replicate 48 0) in
          let equal : report' ≡ report = ok-injective (sym a3' ∙ a3) in
          >>=-ok_elim (build_server_cert c g s k (new_mock c report.raw)) _ e3 λ config a4 e4.
            let w = build_server_cert-eq-ok c g r s k (new_mock c report.raw) config a4 in
            let done = ok-injective e4 in
            rw (← done) (record {
              zeros = refl;
              spki = spki;
              report = report;
              holds = rw equal at m;
              carries = rw same w;
            })

  module _ (b : IsBase64 c) (o : IsConstOid c) (j : IsSerde s)
      (from_slice : Bytes → Str ⊎ NvidiaClaims) (provider : CryptoProvider)
      (setup : TlsSetup g.ServerConfig) (built : build_mock_setup c g s ≡ ok setup) where
    -- A client in mock mode that expects the measurement of the setup, and asks for no GPU token,
    -- accepts the certificate of a mock setup.
    pub build_mock_setup_accepted :
        verify_server_cert c s from_slice
          (new setup.measurement VerifierMode.mock false provider)
          (r.presented setup.server_config)
        ≡ ok tt
    unfolding new new_mock
    build_mock_setup_accepted =
        let m = build_mock_setup-eq-ok setup built in
        verify_server_cert-Carries c s from_slice o j _ _ m.spki m.report.raw
          (new_mock c m.report.raw) AttestationKey.mock m.carries
          (b.b64_decode-b64_encode m.report.raw) m.holds.size (refl, refl)
          (rw m.zeros (
            (verify_iff c m.report m.holds.size AttestationKey.mock (replicate 48 0) m.spki).0 (
              verify-IsMockReport c p m.report m.spki (replicate 48 0) (replicate 48 0) m.holds
                (inl refl))))
          tt

    -- A client in mock mode that expects a measurement other than zeros rejects the certificate
    -- of a mock setup, with both measurements in the error.
    pub build_mock_setup_wrong_measurement :
        (expected : Bytes) (asks_gpu : Bool)
        → expected ≢ replicate 48 0
        → verify_server_cert c s from_slice
            (new expected VerifierMode.mock asks_gpu provider)
            (r.presented setup.server_config)
          ≡ err (
              tls_error "attestation failed: " (
                display
                  (measurement_mismatch (c.hex_encode expected) (c.hex_encode (replicate 48 0)))))
    unfolding new new_mock choose_key
    build_mock_setup_wrong_measurement expected asks_gpu ne =
        let m = build_mock_setup-eq-ok setup built in
        let acc =
          (verify_iff c m.report m.holds.size AttestationKey.mock (replicate 48 0) m.spki).0 (
            verify-IsMockReport c p m.report m.spki (replicate 48 0) (replicate 48 0) m.holds
              (inl refl)) in
        let other : part 144 48 m.report.raw ≢ expected = λ e. ne (sym e ∙ m.holds.measured) in
        let fails =
          verify_wrong_measurement c m.report m.holds.size AttestationKey.mock expected m.spki
            (replicate 48 0) acc ne other in
        rw (
          verify_server_cert_lem c s from_slice o j _ _ m.spki m.report.raw
              (new_mock c m.report.raw) m.carries (b.b64_decode-b64_encode m.report.raw)
              m.holds.size,
          fails,
          m.holds.measured,
        )

    -- A client that asks for real hardware rejects the certificate of a mock setup for its mode,
    -- whatever else it expects.
    pub build_mock_setup_wrong_mode :
        (expected : Bytes) (asks_gpu : Bool)
        → verify_server_cert c s from_slice
            (new expected VerifierMode.amd_sev_snp asks_gpu provider)
            (r.presented setup.server_config)
          ≡ err (general (text "mode mismatch: client=AmdSevSnp, server=Mock"))
    unfolding new new_mock choose_key text
    build_mock_setup_wrong_mode expected asks_gpu =
        let m = build_mock_setup-eq-ok setup built in
        rw (
          verify_server_cert_lem c s from_slice o j _ _ m.spki m.report.raw
            (new_mock c m.report.raw) m.carries (b.b64_decode-b64_encode m.report.raw) m.holds.size)

    -- A client in mock mode that asks for a GPU token rejects the certificate of a mock setup
    -- because it has none.
    pub build_mock_setup_no_token :
        verify_server_cert c s from_slice
          (new setup.measurement VerifierMode.mock true provider)
          (r.presented setup.server_config)
        ≡ err (general (text "--gpu-cc set but server cert has no GPU JWT"))
    unfolding new new_mock choose_key check_gpu
    build_mock_setup_no_token =
        let m = build_mock_setup-eq-ok setup built in
        rw (
          verify_server_cert_lem c s from_slice o j _ _ m.spki m.report.raw
              (new_mock c m.report.raw) m.carries (b.b64_decode-b64_encode m.report.raw)
              m.holds.size,
          m.zeros,
          verify-IsMockReport c p m.report m.spki (replicate 48 0) (replicate 48 0) m.holds
              (inl refl),
        )
