-- ===== src/Server/Tls/NoPanic.antt =====
-- Making a setup never panics.
use sifir.Base.{
  ℕ, List, [], ◌∷◌, ◌≡◌, ◌≢◌, ◌∙◌, ap, arith, length, replicate, length-replicate, ok, panic,
  map_err, map_err-eq-ok, >>=-ok_elim, >>=-ne-panic, attempt-ne-panic, map_err-ne-panic,
  guard-ne-panic, guard,
}
use sifir.Base.Slices.{
  part, range_lem, to_array_lem, length-part, copy_from_slice_lem, copy_from_slice,
}
use sifir.Base.Text.{Str, Bytes, text}
use sifir.Crates.{Crates, Serde}
use sifir.Crates.Laws.{IsP384, IsSha2}
use sifir.Attest.Report.{as_bytes}
use sifir.Attest.Payload.{AttestationExtension}
use sifir.Attest.Extension.{new_mock, new_amd, with_gpu_jwt}
use sifir.Attest.Mock.{sign_mock_report}
use sifir.Attest.Mock.Signed.{sign_mock_report_lem}
use sifir.Server.Kds.{Http, context, fetch_vcek_chain, get_report_and_chain}
use sifir.Server.Kds.NoPanic.{get_report_and_chain-ne-panic}
use sifir.Server.SnpGuest.{Kernel, snp_get_report, snp_request, get_snp_report}
use sifir.Server.SnpGuest.Laws.{get_snp_report_iff}
use sifir.Server.GpuAttestation.{Sidecar, get_gpu_jwt}
use sifir.Server.Tls.{
  Rcgen, extract_spki_der, generate_keypair_and_hash, build_server_cert, extract_measurement,
  build_mock_setup, build_amd_setup, build_amd_gpu_setup,
}

get_gpu_jwt-ne-panic :
    (c : Crates) (sidecar : Sidecar) (hash : Bytes) (script : Str)
    → get_gpu_jwt c sidecar hash script ≢ panic
unfolding get_gpu_jwt
get_gpu_jwt-ne-panic c sidecar hash script =
    >>=-ne-panic
      (context _ (sidecar.run (text "python3") (script ∷ text "--nonce" ∷ c.hex_encode hash ∷ [])))
      _ (attempt-ne-panic _ _)
      λ output _. >>=-ne-panic (guard _ output.success) _ (guard-ne-panic _ _) λ _ _.
        >>=-ne-panic (context _ (sidecar.from_slice output.stdout)) _ (attempt-ne-panic _ _)
          λ result _ e. cc e

extract_measurement-ne-panic : (raw : Bytes) → length raw ≡ 1184 → extract_measurement raw ≢ panic
unfolding extract_measurement
extract_measurement-ne-panic raw size =
    rw
      (
        range_lem {E = Str} raw 144 192 (omega arith) (omega arith),
        to_array_lem {E = Str} 48 (part 144 48 raw) (length-part 144 48 raw (omega arith)),
      )
      (λ e. cc e)

module _ (c : Crates) (h : IsSha2 c) (g : Rcgen) where
  extract_spki_der-ne-panic : (k : g.KeyPair) → extract_spki_der c g k ≢ panic
  unfolding extract_spki_der
  extract_spki_der-ne-panic k =
      >>=-ne-panic (context _ (g.self_signed [] k)) _ (attempt-ne-panic _ _) λ temp _.
        >>=-ne-panic (context _ (c.certificate_from_der temp)) _ (attempt-ne-panic _ _)
          λ x509 _. attempt-ne-panic _ _

  user_data_lem :
      (spki : Bytes) → copy_from_slice {E = Str} (replicate 64 0) 0 32 (c.sha256 spki) ≢ panic
  user_data_lem spki =
      let z : length (replicate {A = ℕ} 64 0) ≡ 64 = length-replicate 64 0 in
      rw
        (copy_from_slice_lem {E = Str} (replicate 64 0) 0 32 (c.sha256 spki) (omega arith)
          (omega arith) (omega (arith, h.length-sha256 spki)))
        (λ e. cc e)

  generate_keypair_and_hash-ne-panic : generate_keypair_and_hash c g ≢ panic
  unfolding generate_keypair_and_hash
  generate_keypair_and_hash-ne-panic =
      >>=-ne-panic (context _ g.generate) _ (attempt-ne-panic _ _) λ k _.
        >>=-ne-panic (extract_spki_der c g k) _ (extract_spki_der-ne-panic k) λ spki _.
          >>=-ne-panic (copy_from_slice (replicate 64 0) 0 32 (c.sha256 spki)) _
            (user_data_lem spki) λ user_data _ e. cc e

  module _ (s : Serde AttestationExtension) where
    build_server_cert-ne-panic :
        (k : g.KeyPair) (ext : AttestationExtension) → build_server_cert c g s k ext ≢ panic
    unfolding build_server_cert
    build_server_cert-ne-panic k ext =
        >>=-ne-panic (context _ (g.self_signed _ k)) _ (attempt-ne-panic _ _)
          λ cert _. attempt-ne-panic _ _

    pub build_mock_setup-ne-panic : IsP384 c → build_mock_setup c g s ≢ panic
    unfolding build_mock_setup
    build_mock_setup-ne-panic p =
        >>=-ne-panic (context _ g.generate) _ (attempt-ne-panic _ _) λ k _.
          >>=-ne-panic (extract_spki_der c g k) _ (extract_spki_der-ne-panic k) λ spki _.
            let (report, e, _) =
              sign_mock_report_lem {E = Str} c p (c.sha256 spki) (replicate 48 0)
                (h.length-sha256 spki) (length-replicate 48 0) in
            >>=-ne-panic (sign_mock_report c (c.sha256 spki) (replicate 48 0)) _ (λ d. cc (d, e))
              λ r _.
                >>=-ne-panic (build_server_cert c g s k (new_mock c (as_bytes r))) _
                  (build_server_cert-ne-panic k _) λ config _ d. cc d

    module _ (http : Http) (kernel : Kernel)
        (full : (user_data : Bytes)
          → length (kernel.ioctl snp_get_report (snp_request user_data)).1.resp_data.bytes ≡ 4000)
        (product : Str) where
      length-report :
          (user_data raw : Bytes) (chain : List Bytes)
          → get_report_and_chain c http kernel user_data product ≡ ok (raw, chain)
          → length raw ≡ 1184
      unfolding get_report_and_chain
      length-report user_data raw chain e =
          >>=-ok_elim (get_snp_report kernel user_data) _ e λ first a e1.
            >>=-ok_elim (fetch_vcek_chain c http first product) _ e1 λ certs b e2.
              let same : first ≡ raw = cc e2 in
              let (_, _, _, d) = (get_snp_report_iff kernel user_data (full user_data) first).0 a in
              rw (← same) (ap length d ∙ length-part 0 1184 _ (omega (arith, full user_data)))

      fetched-ne-panic :
          (user_data : Bytes)
          → map_err
              (λ _. text "get AMD SNP report + VCEK chain")
              (get_report_and_chain c http kernel user_data product)
            ≢ panic
      fetched-ne-panic user_data =
          map_err-ne-panic _ _
            (get_report_and_chain-ne-panic kernel user_data (full user_data) c http product)

      pub build_amd_setup-ne-panic : build_amd_setup c g s http kernel product ≢ panic
      unfolding build_amd_setup
      build_amd_setup-ne-panic =
          >>=-ne-panic (generate_keypair_and_hash c g) _ generate_keypair_and_hash-ne-panic
            λ (k, hash, user_data) _.
              >>=-ne-panic (map_err _ (get_report_and_chain c http kernel user_data product)) _
                (fetched-ne-panic user_data)
                λ (raw, chain) e.
                  let size = length-report user_data raw chain (map_err-eq-ok _ _ e) in
                  >>=-ne-panic (extract_measurement raw) _ (extract_measurement-ne-panic raw size)
                    λ m _.
                      >>=-ne-panic (build_server_cert c g s k (new_amd c raw chain)) _
                        (build_server_cert-ne-panic k _) λ config _ d. cc d

      pub build_amd_gpu_setup-ne-panic :
          (sidecar : Sidecar) (script : Str)
          → build_amd_gpu_setup c g s http kernel sidecar product script ≢ panic
      unfolding build_amd_gpu_setup
      build_amd_gpu_setup-ne-panic sidecar script =
          >>=-ne-panic (generate_keypair_and_hash c g) _ generate_keypair_and_hash-ne-panic
            λ (k, hash, user_data) _.
              >>=-ne-panic (map_err _ (get_report_and_chain c http kernel user_data product)) _
                (fetched-ne-panic user_data)
                λ (raw, chain) e.
                  let size = length-report user_data raw chain (map_err-eq-ok _ _ e) in
                  >>=-ne-panic (extract_measurement raw) _ (extract_measurement-ne-panic raw size)
                    λ m _.
                      >>=-ne-panic (map_err _ (get_gpu_jwt c sidecar hash script)) _
                        (map_err-ne-panic _ _ (get_gpu_jwt-ne-panic c sidecar hash script))
                        λ jwt _.
                          >>=-ne-panic
                            (build_server_cert c g s k (with_gpu_jwt jwt (new_amd c raw chain))) _
                            (build_server_cert-ne-panic k _) λ config _ d. cc d
