-- ===== src/System/Flags.antt =====
-- The two programs by their arguments.
use sifir.Base.{
  ◌≡◌, sym, ap, ◌∙◌, inl, inr, ok, ◌⊎◌, true, false, ◌&&◌, length, length-replicate, arith,
}
use sifir.Base.Slices.{length-part}
use sifir.Base.Text.{Str, Bytes}
use sifir.Crates.{Crates, Serde}
use sifir.Crates.Laws.{IsConstOid, IsSerde, IsBase64, IsSha2, IsP384, IsHex}
use sifir.Attest.Payload.{AttestationExtension}
use sifir.Client.Verifier.{
  CryptoProvider, AttestationVerifier, VerifierMode, new, verify_server_cert,
}
use sifir.Client.GpuVerify.{NvidiaClaims, GpuClaims}
use sifir.Client.GpuVerify.Laws.{IsValidJwt}
use sifir.Client.Main
use sifir.Client.Main.{build_verifier, mode_of}
use sifir.Client.Main.Laws.{build_verifier-hex_encode}
use sifir.Server.Kds.{Http}
use sifir.Server.SnpGuest.{Kernel}
use sifir.Server.GpuAttestation.{Sidecar, get_gpu_jwt}
use sifir.Server.Tls.{Rcgen, TlsSetup}
use sifir.Server.Tls.Served.{IsRcgen}
use sifir.Server.Main.{Args, Features, build_setup}
use sifir.Server.Main.Laws.{build_setup_iff}
use sifir.System.MockSetup.{build_mock_setup-eq-ok, build_mock_setup_accepted}
use sifir.System.AmdSetup.{
  IsFirmware, SignsReports, build_amd_setup-eq-ok, build_amd_gpu_setup-eq-ok,
}
use sifir.System.AmdSetup.Accepted.{build_amd_setup_accepted, build_amd_gpu_setup_accepted}

module _ (c : Crates) (p : IsP384 c) (h : IsSha2 c) (x : IsHex c) (b : IsBase64 c)
    (o : IsConstOid c) (g : Rcgen) (r : IsRcgen c g) (s : Serde AttestationExtension)
    (j : IsSerde s) (http : Http) (kernel : Kernel) (fw : IsFirmware kernel) (sidecar : Sidecar)
    (from_slice : Bytes → Str ⊎ NvidiaClaims) (provider : CryptoProvider) where
  pub build_setup_accepted :
      (f : Features) (args : Args) (setup : TlsSetup g.ServerConfig) (client : Main.Args)
      → SignsReports c h g r http kernel fw s args.snp_product
      → ((script spki jwt : Bytes)
          → get_gpu_jwt c sidecar (c.sha256 spki) script ≡ ok jwt
          → (claims : GpuClaims) × IsValidJwt c from_slice jwt spki claims)
      → build_setup c g s http kernel sidecar f args ≡ ok setup
      → client.amd ≡ args.amd
      → client.gpu_cc ≡ args.amd && args.gpu_cc
      → client.expected_measurement ≡ c.hex_encode setup.measurement
      → (verifier : AttestationVerifier) × (build_verifier c provider client ≡ ok verifier)
        × (verify_server_cert c s from_slice verifier (r.presented setup.server_config) ≡ ok tt)
  build_setup_accepted f args setup client signs valid built amd gpu measurement =
      elim ((build_setup_iff c g s http kernel sidecar f args setup).0 built) [
        | inl (off, run) ↦
            let m = build_mock_setup-eq-ok c p h g r s setup run in
            (
              new setup.measurement VerifierMode.mock false provider,
              build_verifier-hex_encode c x provider client setup.measurement VerifierMode.mock
                  false measurement (ap length m.zeros ∙ length-replicate 48 0) (rw (amd, off))
                  (rw (gpu, off)),
              build_mock_setup_accepted c p h g r s b o j from_slice provider setup run,
            )
        | inr (inl (on, no_gpu, _, run)) ↦
            let a = build_amd_setup-eq-ok c h g r http kernel fw s args.snp_product setup run in
            (
              new setup.measurement VerifierMode.amd_sev_snp false provider,
              build_verifier-hex_encode c x provider client setup.measurement
                  VerifierMode.amd_sev_snp false measurement
                  (ap length (sym a.measured) ∙ length-part 144 48 a.raw (omega (arith, a.size)))
                  (rw (amd, on)) (rw (gpu, on, no_gpu)),
              build_amd_setup_accepted c h g r http kernel fw s args.snp_product signs b o j
                  from_slice provider setup run,
            )
        | inr (inr (script, on, with_gpu, _, _, _, run)) ↦
            let (jwt, a, _) =
              build_amd_gpu_setup-eq-ok c h g r http kernel fw s args.snp_product sidecar script
                setup run in
            (
              new setup.measurement VerifierMode.amd_sev_snp true provider,
              build_verifier-hex_encode c x provider client setup.measurement
                  VerifierMode.amd_sev_snp true measurement
                  (ap length (sym a.measured) ∙ length-part 144 48 a.raw (omega (arith, a.size)))
                  (rw (amd, on)) (rw (gpu, on, with_gpu)),
              build_amd_gpu_setup_accepted c h g r http kernel fw s args.snp_product signs b o j
                  from_slice provider sidecar script setup (valid script) run,
            )
      ]
