-- ===== src/System/AmdSetup.antt =====
-- The setups for real hardware: poc/crates/sifir-server/src/tls.rs and what it stands on.
pub mod Accepted
use sifir.Base.{
  ℕ, ◌≡◌, sym, ◌∙◌, ap, List, arith, length, ok, ◌>>=◌, >>=-ok_elim, replicate, length-replicate,
  ok-injective, map_err-eq-ok, map_err,
}
use sifir.Base.Slices.{
  part, patch, copy_from_slice, part-part, length-part, range_lem, to_array_lem,
  copy_from_slice_lem, part-patch_self, length-patch,
}
use sifir.Base.Text.{Str, Bytes}
use sifir.Crates.{Crates, Serde}
use sifir.Crates.Laws.{IsSha2}
use sifir.Attest.Report.{report_size}
use sifir.Attest.Payload.{AttestationExtension}
use sifir.Attest.Extension.{new_amd, with_gpu_jwt}
use sifir.Server.Kds.{Http, context, get_report_and_chain, fetch_vcek_chain}
use sifir.System.KeyService.{IsKeyService}
use sifir.Server.SnpGuest.{Kernel, snp_get_report, snp_request, get_snp_report}
use sifir.Server.SnpGuest.Laws.{get_snp_report_iff}
use sifir.Server.GpuAttestation.{Sidecar, get_gpu_jwt}
use sifir.Server.Tls.{
  Rcgen, TlsSetup, extract_spki_der, extract_measurement, build_server_cert,
  generate_keypair_and_hash, build_amd_setup, build_amd_gpu_setup,
}
use sifir.Server.Tls.Served.{IsRcgen, Carries, extract_spki_der-eq-ok, build_server_cert-eq-ok}

-- The response buffer of the kernel for a request with this user data.
abbrev pub response : Kernel → Bytes → Bytes
response k user_data = (k.ioctl snp_get_report (snp_request user_data)).1.resp_data.bytes

-- The kernel keeps the size of the response buffer and puts the report at its start, as the comment
-- of `SnpReportResp` says, and the firmware puts the user data of the request into REPORT_DATA.
pub record IsFirmware (k : Kernel) : Type 0 where
  pub length-response : (d : Bytes) → length (response k d) ≡ 4000
  pub reports_data : (d : Bytes) → length d ≡ 64 → part 80 64 (part 0 1184 (response k d)) ≡ d

pub measurement_of :
    (raw : Bytes) → length raw ≡ 1184 → extract_measurement raw ≡ ok (part 144 48 raw)
unfolding extract_measurement
measurement_of raw h = rw (
  range_lem {E = Str} raw 144 192 (omega arith) (omega arith),
  to_array_lem {E = Str} 48 (part 144 48 raw) (length-part 144 48 raw (omega arith)),
)

module _ (c : Crates) (h : IsSha2 c) (g : Rcgen) (r : IsRcgen c g) where
  -- The user data is the hash of the certificate's key and zeros.
  generate_keypair_and_hash-eq-ok :
      (t : g.KeyPair × Bytes × Bytes)
      → generate_keypair_and_hash c g ≡ ok t
      → (t.1 ≡ c.sha256 (r.spki t.0)) × (length t.2 ≡ 64) × (part 0 32 t.2 ≡ t.1)
  unfolding generate_keypair_and_hash
  generate_keypair_and_hash-eq-ok t e = >>=-ok_elim (context _ g.generate) _ e λ k a1 e1.
      >>=-ok_elim (extract_spki_der c g k) _ e1 λ spki a2 e2.
        let same : spki ≡ r.spki k = extract_spki_der-eq-ok c g r k spki a2 in
        let l : length (c.sha256 spki) ≡ 32 = h.length-sha256 spki in
        let z : length (replicate {A = ℕ} 64 0) ≡ 64 = length-replicate 64 0 in
        let user_data : Bytes = patch 0 (c.sha256 spki) (replicate 64 0) in
        let copied : copy_from_slice {E = Str} (replicate 64 0) 0 32 (c.sha256 spki)
            ≡ ok user_data =
          copy_from_slice_lem (replicate 64 0) 0 32 (c.sha256 spki) (omega arith) (omega arith)
            (omega arith) in
        let p = ok-injective (rw copied at e2) in
        rw (← p) (
          ap c.sha256 same,
          omega (arith, length-patch 0 (c.sha256 spki) (replicate 64 0)),
          rw l at (part-patch_self 0 (c.sha256 spki) (replicate 64 0) (omega arith)),
        )

  module _ (http : Http) (kernel : Kernel) (f : IsFirmware kernel) where
    -- The report of a run is 1184 bytes long and bound to the key.
    get_report_and_chain-eq-ok :
        (user_data : Bytes) (product : Str) (t : Bytes × List Bytes)
        → length user_data ≡ 64
        → get_report_and_chain c http kernel user_data product ≡ ok t
        → (t.0 ≡ part 0 1184 (response kernel user_data))
          × (length t.0 ≡ 1184)
          × (part 80 32 t.0 ≡ part 0 32 user_data)
          × (fetch_vcek_chain c http t.0 product ≡ ok t.1)
    unfolding get_report_and_chain
    get_report_and_chain-eq-ok user_data product t l e =
        >>=-ok_elim (get_snp_report kernel user_data) _ e λ raw a1 e1.
          >>=-ok_elim (fetch_vcek_chain c http raw product) _ e1 λ chain a2 e2.
            let p = ok-injective e2 in
            let full = f.length-response user_data in
            let (_, _, _, first) = (get_snp_report_iff kernel user_data full raw).0 a1 in
            let filled = f.reports_data user_data l in
            rw (← p) (
              first,
              ap length first ∙ length-part 0 1184 (response kernel user_data) (omega arith),
              ap (part 80 32) first
                  ∙ sym
                      (part-part 0 32 80 64 (part 0 1184 (response kernel user_data)) (omega arith))
                  ∙ ap (part 0 32) filled,
              a2,
            )

    module _ (s : Serde AttestationExtension) (product : Str) where
      -- The certificate of a setup carries the firmware's report, bound to the certificate's own
      -- key, and the chain that was fetched for the report; the measurement of the setup is the
      -- report's. The extension is made of the two by `wrap`.
      pub record IsAmdSetup (wrap : AttestationExtension → AttestationExtension)
          (setup : TlsSetup g.ServerConfig) : Type 0 where
        pub spki : Bytes
        pub raw : Bytes
        pub user_data : Bytes
        pub reported : raw ≡ part 0 1184 (response kernel user_data)
        pub size : length raw ≡ report_size
        pub bound : part 80 32 raw ≡ c.sha256 spki
        pub chain : List Bytes
        pub fetched : fetch_vcek_chain c http raw product ≡ ok chain
        pub measured : part 144 48 raw ≡ setup.measurement
        pub carries :
            Carries c s (r.presented setup.server_config) spki (wrap (new_amd c raw chain))

      pub build_amd_setup-eq-ok :
          (setup : TlsSetup g.ServerConfig)
          → build_amd_setup c g s http kernel product ≡ ok setup
          → IsAmdSetup (λ e. e) setup
      unfolding build_amd_setup
      build_amd_setup-eq-ok setup e = >>=-ok_elim (generate_keypair_and_hash c g) _ e λ t a1 e1.
          let (hashed, l, front) = generate_keypair_and_hash-eq-ok t a1 in
          >>=-ok_elim (map_err _ (get_report_and_chain c http kernel t.2 product)) _ e1 λ q a2 e2.
            let (first, size, bound, fetched) =
              get_report_and_chain-eq-ok t.2 product q l (map_err-eq-ok _ _ a2) in
            >>=-ok_elim (extract_measurement q.0) _ e2 λ m a3 e3.
              >>=-ok_elim (build_server_cert c g s t.0 (new_amd c q.0 q.1)) _ e3 λ config a4 e4.
                rw (← ok-injective e4) (record {
                  spki = r.spki t.0;
                  raw = q.0;
                  user_data = t.2;
                  reported = first;
                  size = size;
                  bound = bound ∙ front ∙ hashed;
                  chain = q.1;
                  fetched = fetched;
                  measured = ok-injective (sym (measurement_of q.0 size) ∙ a3);
                  carries = build_server_cert-eq-ok c g r s t.0 (new_amd c q.0 q.1) config a4;
                })

      pub build_amd_gpu_setup-eq-ok :
          (sidecar : Sidecar) (script_path : Str) (setup : TlsSetup g.ServerConfig)
          → build_amd_gpu_setup c g s http kernel sidecar product script_path ≡ ok setup
          → (jwt : Str) × (a : IsAmdSetup (with_gpu_jwt jwt) setup) × (get_gpu_jwt c sidecar
                (c.sha256 a.spki)
                script_path
              ≡ ok jwt)
      unfolding build_amd_gpu_setup
      build_amd_gpu_setup-eq-ok sidecar script_path setup e =
          >>=-ok_elim (generate_keypair_and_hash c g) _ e λ t a1 e1.
            let (hashed, l, front) = generate_keypair_and_hash-eq-ok t a1 in
            >>=-ok_elim (map_err _ (get_report_and_chain c http kernel t.2 product)) _ e1 λ q a2 e2.
              let (first, size, bound, fetched) =
                get_report_and_chain-eq-ok t.2 product q l (map_err-eq-ok _ _ a2) in
              >>=-ok_elim (extract_measurement q.0) _ e2 λ m a3 e3.
                >>=-ok_elim (map_err _ (get_gpu_jwt c sidecar t.1 script_path)) _ e3 λ jwt a4 e4.
                  >>=-ok_elim (build_server_cert c g s t.0 (with_gpu_jwt jwt (new_amd c q.0 q.1))) _
                    e4
                    λ config a5 e5.
                      let asked : get_gpu_jwt c sidecar (c.sha256 (r.spki t.0)) script_path
                          ≡ ok jwt =
                        rw hashed at (map_err-eq-ok _ _ a4) in
                      rw (← ok-injective e5) (
                        jwt,
                        record {
                          spki = r.spki t.0;
                          raw = q.0;
                          user_data = t.2;
                          reported = first;
                          size = size;
                          bound = bound ∙ front ∙ hashed;
                          chain = q.1;
                          fetched = fetched;
                          measured = ok-injective (sym (measurement_of q.0 size) ∙ a3);
                          carries =
                              build_server_cert-eq-ok c g r s t.0
                                (with_gpu_jwt jwt (new_amd c q.0 q.1)) config a5;
                        },
                        asked,
                      )

      -- The key service has the chip that signs the firmware's reports.
      abbrev pub SignsReports : Type 0
      SignsReports =
          (user_data : Bytes)
          → IsKeyService c http (part 0 1184 (response kernel user_data)) product
