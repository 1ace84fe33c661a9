-- ===== src/Server/Main/NoPanic.antt =====
-- The setup of the server never panics.
use sifir.Base.{◌≡◌, ◌≢◌, Bool, true, false, length, panic, ok_or, >>=-ne-panic, ok_or-ne-panic}
use sifir.Base.Text.{Bytes}
use sifir.Crates.{Crates, Serde}
use sifir.Crates.Laws.{IsP384, IsSha2}
use sifir.Attest.Payload.{AttestationExtension}
use sifir.Server.Kds.{Http}
use sifir.Server.SnpGuest.{Kernel, snp_get_report, snp_request}
use sifir.Server.GpuAttestation.{Sidecar}
use sifir.Server.Tls.{Rcgen}
use sifir.Server.Tls.NoPanic.{
  build_mock_setup-ne-panic, build_amd_setup-ne-panic, build_amd_gpu_setup-ne-panic,
}
use sifir.Server.Main.{Args, Features, build_setup, match_arm, amd_arm, amd_gpu_arm}

module _ (c : Crates) (p : IsP384 c) (h : IsSha2 c) (g : Rcgen) (s : Serde AttestationExtension)
    (http : Http) (kernel : Kernel)
    (full : (user_data : Bytes)
      → length (kernel.ioctl snp_get_report (snp_request user_data)).1.resp_data.bytes ≡ 4000)
    (sidecar : Sidecar) where
  amd_arm-ne-panic :
      (real : Bool) (args : Args) → amd_arm c g s http kernel sidecar real args ≢ panic
  unfolding amd_arm
  amd_arm-ne-panic true args = build_amd_setup-ne-panic c h g s http kernel full args.snp_product
  amd_arm-ne-panic false args = λ e. cc e

  amd_gpu_arm-ne-panic :
      (real : Bool) (args : Args) → amd_gpu_arm c g s http kernel sidecar real args ≢ panic
  unfolding amd_gpu_arm
  amd_gpu_arm-ne-panic true args =
      >>=-ne-panic (ok_or _ args.gpu_attest_script) _ (ok_or-ne-panic _ _) λ script _.
        build_amd_gpu_setup-ne-panic c h g s http kernel full args.snp_product sidecar script
  amd_gpu_arm-ne-panic false args = λ e. cc e

  match_arm-ne-panic :
      (amd gpu : Bool) (f : Features) (args : Args)
      → match_arm c g s http kernel sidecar amd gpu f args ≢ panic
  unfolding match_arm
  match_arm-ne-panic false gpu f args = build_mock_setup-ne-panic c h g s p
  match_arm-ne-panic true false f args = amd_arm-ne-panic f.real_attestation args
  match_arm-ne-panic true true f args = amd_gpu_arm-ne-panic _ args

  -- Whatever its arguments and features are, and whatever the key service, the firmware and the
  -- sidecar give it, the setup of the server never panics, on a kernel that keeps the size of the
  -- response buffer, if SHA-256 and the P-384 package keep their laws.
  pub build_setup-ne-panic :
      (f : Features) (args : Args) → build_setup c g s http kernel sidecar f args ≢ panic
  unfolding build_setup
  build_setup-ne-panic f args = match_arm-ne-panic args.amd args.gpu_cc f args
