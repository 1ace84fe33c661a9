-- ===== src/Examples/Setups.antt =====
-- Runs of the three setups on the small functions.
use sifir.Base.{ℕ, ◌≡◌, refl, [], ◌∷◌, ◌++◌, arith, ok, length, replicate, length-replicate}
use sifir.Base.Slices.{part, patch, copy_from_slice_lem, length-part}
use sifir.Base.Text.{Str, Bytes, text}
use sifir.Attest.Report.{as_bytes}
use sifir.Attest.Payload.{AttestationExtension, attest_oid_arcs}
use sifir.Attest.Extension.{to_bytes, new_mock, new_amd, with_gpu_jwt}
use sifir.Attest.Mock.Signed.{sign_mock_report_lem}
use sifir.Server.Kds.{get_report_and_chain}
use sifir.Server.SnpGuest.{get_snp_report}
use sifir.Server.SnpGuest.Laws.{get_snp_report_iff}
use sifir.Server.GpuAttestation.{get_gpu_jwt}
use sifir.Server.Tls.{
  TlsSetup, extract_spki_der, generate_keypair_and_hash, build_server_cert, build_mock_setup,
  build_amd_setup, build_amd_gpu_setup,
}
use sifir.System.AmdSetup.{response, measurement_of}
use sifir.Examples.Packages.{toy, toy_sha256, toy_hex, toy-IsP384, toy-IsSha2}
use sifir.Examples.Payload.{toy_serde}
use sifir.Examples.Hardware.{
  toy_kernel, toy_kernel-IsFirmware, toy_http, toy_http-fetch_vcek_chain, toy_chain,
}
use sifir.Examples.Rcgen.{toy_rcgen}
use sifir.Examples.Gpu.{toy_sidecar, toy_token}

abbrev pub toy_spki : Bytes
toy_spki = 7 ∷ []

spki_lem : extract_spki_der toy toy_rcgen 7 ≡ ok toy_spki
unfolding extract_spki_der
spki_lem = refl

-- A setup for this extension and measurement.
abbrev pub served : AttestationExtension → Bytes → TlsSetup Bytes
served e m = record {
  server_config = 7 ∷ 0 ∷ length attest_oid_arcs ∷ (attest_oid_arcs ++ to_bytes toy_serde e);
  measurement = m;
}

pub mock_run : (setup : TlsSetup Bytes) × (build_mock_setup toy toy_rcgen toy_serde ≡ ok setup)
unfolding build_mock_setup as_bytes build_server_cert
mock_run =
    let (r, e, m) =
      sign_mock_report_lem {E = Str} toy toy-IsP384 (toy_sha256 toy_spki) (replicate 48 0)
        (toy-IsSha2.length-sha256 toy_spki) (length-replicate 48 0) in
    (served (new_mock toy r.raw) (replicate 48 0), rw (spki_lem, e) refl)

abbrev pub toy_user_data : Bytes
toy_user_data = patch 0 (toy_sha256 toy_spki) (replicate 64 0)

abbrev pub toy_raw : Bytes
toy_raw = part 0 1184 (response toy_kernel toy_user_data)

pub length-toy_raw : length toy_raw ≡ 1184
length-toy_raw =
    length-part 0 1184 (response toy_kernel toy_user_data)
      (omega (arith, toy_kernel-IsFirmware.length-response toy_user_data))

keypair_lem : generate_keypair_and_hash toy toy_rcgen ≡ ok (7, toy_sha256 toy_spki, toy_user_data)
unfolding generate_keypair_and_hash
keypair_lem =
    let l = toy-IsSha2.length-sha256 toy_spki in
    let z = length-replicate {A = ℕ} 64 0 in
    rw (
      spki_lem,
      copy_from_slice_lem {E = Str} (replicate 64 0) 0 32 (toy_sha256 toy_spki) (omega arith)
          (omega arith) (omega arith),
    )

report_lem :
    (product : Str)
    → get_report_and_chain toy toy_http toy_kernel toy_user_data product ≡ ok (toy_raw, toy_chain)
unfolding get_report_and_chain
report_lem product =
    let e : get_snp_report toy_kernel toy_user_data ≡ ok toy_raw =
      (get_snp_report_iff toy_kernel toy_user_data
          (toy_kernel-IsFirmware.length-response toy_user_data) toy_raw).1
        (refl, refl, refl, refl) in
    rw (e, toy_http-fetch_vcek_chain toy_raw product length-toy_raw)

abbrev pub genoa : Str
genoa = text "Genoa"

pub amd_run :
    (setup : TlsSetup Bytes) × (build_amd_setup toy toy_rcgen toy_serde toy_http toy_kernel genoa
      ≡ ok setup)
unfolding build_amd_setup build_server_cert
amd_run = (
  served (new_amd toy toy_raw toy_chain) (part 144 48 toy_raw),
  rw (keypair_lem, report_lem genoa, measurement_of toy_raw length-toy_raw) refl,
)

token_lem :
    (script : Str)
    → get_gpu_jwt toy toy_sidecar (toy_sha256 toy_spki) script
      ≡ ok (toy_token (toy_hex (toy_sha256 toy_spki)))
unfolding get_gpu_jwt
token_lem script = refl

abbrev pub script : Str
script = text "gpu_attest.py"

pub amd_gpu_run :
    (setup : TlsSetup Bytes) × (build_amd_gpu_setup toy toy_rcgen toy_serde toy_http toy_kernel
        toy_sidecar genoa script
      ≡ ok setup)
unfolding build_amd_gpu_setup build_server_cert
amd_gpu_run = (
  served (with_gpu_jwt (toy_token (toy_hex (toy_sha256 toy_spki))) (new_amd toy toy_raw toy_chain))
      (part 144 48 toy_raw),
  rw (keypair_lem, report_lem genoa, measurement_of toy_raw length-toy_raw, token_lem script) refl,
)
