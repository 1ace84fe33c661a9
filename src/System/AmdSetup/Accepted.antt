-- ===== src/System/AmdSetup/Accepted.antt =====
-- The setups for real hardware in the client's hands.
use sifir.Base.{◌≡◌, refl, inr, ok, ◌⊎◌, true, false}
use sifir.Base.Text.{Str, Bytes}
use sifir.Crates.{Crates, Serde}
use sifir.Crates.Laws.{IsConstOid, IsSerde, IsBase64, IsSha2}
use sifir.Attest.Payload.{AttestationExtension}
use sifir.Attest.Extension.{new_amd, with_gpu_jwt}
use sifir.Attest.Extension.RoundTrip.{decode_all-map}
use sifir.Attest.Error.{AttestationKey}
use sifir.Attest.Verify.{anchor_key}
use sifir.Attest.Verify.Accept.{IsAccepted}
use sifir.Client.Verifier.{CryptoProvider, VerifierMode, new, verify_server_cert}
use sifir.Client.GpuVerify.{NvidiaClaims, GpuClaims}
use sifir.Client.GpuVerify.Laws.{IsValidJwt}
use sifir.Client.Verifier.Trust.{decode_all-Decodes}
use sifir.Server.Kds.{Http}
use sifir.System.KeyService.{IsKeyService-vouches}
use sifir.Server.SnpGuest.{Kernel}
use sifir.Server.GpuAttestation.{Sidecar, get_gpu_jwt}
use sifir.Server.Tls.{Rcgen, TlsSetup, build_amd_setup, build_amd_gpu_setup}
use sifir.Server.Tls.Served.{IsRcgen}
use sifir.System.Handshake.{verify_server_cert-Carries}
use sifir.System.AmdSetup.{
  IsFirmware, IsAmdSetup, SignsReports, build_amd_setup-eq-ok, build_amd_gpu_setup-eq-ok,
}

module _ (c : Crates) (h : IsSha2 c) (g : Rcgen) (r : IsRcgen c g) (http : Http) (kernel : Kernel)
    (f : IsFirmware kernel) (s : Serde AttestationExtension) (product : Str)
    (v : SignsReports c h g r http kernel f s product) (b : IsBase64 c) (o : IsConstOid c)
    (j : IsSerde s) (from_slice : Bytes → Str ⊎ NvidiaClaims) (provider : CryptoProvider) where
  IsAmdSetup-IsAccepted :
      (wrap : AttestationExtension → AttestationExtension) (setup : TlsSetup g.ServerConfig)
      → (a : IsAmdSetup c h g r http kernel f s product wrap setup)
      → IsAccepted c (record { raw = a.raw }) (AttestationKey.amd a.chain) setup.measurement a.spki
  unfolding anchor_key
  IsAmdSetup-IsAccepted wrap setup a =
      let w = rw (← a.reported) at (v a.user_data) in
      record {
        bound = a.bound;
        sig = w.sig;
        vk = w.vk;
        parsed = w.parsed;
        anchored = IsKeyService-vouches c http a.raw product a.chain a.size w a.fetched;
        signed = w.signed;
        measured = inr a.measured;
      }

  -- A client that asks for real hardware and expects the measurement of the setup accepts the
  -- certificate of a setup with the firmware's report, if the kernel and the firmware keep
  -- `IsFirmware` and the key service has the chip that signs the reports.
  pub build_amd_setup_accepted :
      (setup : TlsSetup g.ServerConfig)
      → build_amd_setup c g s http kernel product ≡ ok setup
      → verify_server_cert c s from_slice
          (new setup.measurement VerifierMode.amd_sev_snp false provider)
          (r.presented setup.server_config)
        ≡ ok tt
  unfolding new new_amd
  build_amd_setup_accepted setup built =
      let a = build_amd_setup-eq-ok c h g r http kernel f s product setup built in
      verify_server_cert-Carries c s from_slice o j _ _ a.spki a.raw (new_amd c a.raw a.chain)
        (AttestationKey.amd a.chain) a.carries (b.b64_decode-b64_encode a.raw) a.size
        (a.chain, refl, decode_all-Decodes c _ a.chain (decode_all-map c b a.chain), refl)
        (IsAmdSetup-IsAccepted (λ e. e) setup a) tt

  -- With the token of the sidecar in the certificate, a client that asks for a token too accepts
  -- it, if the tokens of the sidecar are valid for the key that they are asked for.
  pub build_amd_gpu_setup_accepted :
      (sidecar : Sidecar) (script_path : Str) (setup : TlsSetup g.ServerConfig)
      → ((spki jwt : Bytes)
          → get_gpu_jwt c sidecar (c.sha256 spki) script_path ≡ ok jwt
          → (claims : GpuClaims) × IsValidJwt c from_slice jwt spki claims)
      → build_amd_gpu_setup c g s http kernel sidecar product script_path ≡ ok setup
      → verify_server_cert c s from_slice
          (new setup.measurement VerifierMode.amd_sev_snp true provider)
          (r.presented setup.server_config)
        ≡ ok tt
  unfolding new new_amd with_gpu_jwt
  build_amd_gpu_setup_accepted sidecar script_path setup valid built =
      let (jwt, a, asked) =
        build_amd_gpu_setup-eq-ok c h g r http kernel f s product sidecar script_path setup built in
      verify_server_cert-Carries c s from_slice o j _ _ a.spki a.raw
        (with_gpu_jwt jwt (new_amd c a.raw a.chain)) (AttestationKey.amd a.chain) a.carries
        (b.b64_decode-b64_encode a.raw) a.size
        (a.chain, refl, decode_all-Decodes c _ a.chain (decode_all-map c b a.chain), refl)
        (IsAmdSetup-IsAccepted (with_gpu_jwt jwt) setup a) (valid a.spki jwt asked)
