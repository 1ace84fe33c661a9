-- ===== src/Server/Main/Laws.antt =====
-- When the server has a setup, and what its accept loop does.
use sifir.Base.{
  ◌≡◌, ◌↔◌, ◌⊎◌, refl, inl, List, [], ◌∷◌, ◌++◌, Bool, true, false, some, arith, ok, inr, attempt,
  Option, >>=-ok_elim, attempt-eq-ok, ok-injective,
}
use sifir.Crates.Web.{Post, Answer}
use sifir.Server.Main.{
  main, Args, Features, build_setup, match_arm, amd_arm, amd_gpu_arm, Event, connection,
  listener_error, accept_loop, serve_connection,
}
use sifir.Base.Text.{Str}
use sifir.Crates.{Crates, Serde}
use sifir.Attest.Payload.{AttestationExtension}
use sifir.Server.Kds.{Http}
use sifir.Server.SnpGuest.{Kernel}
use sifir.Server.GpuAttestation.{Sidecar}
use sifir.Server.Tls.{Rcgen, TlsSetup, build_mock_setup, build_amd_setup, build_amd_gpu_setup}
use sifir.Server.App.{Axum, AppState}

module _ (c : Crates) (g : Rcgen) (s : Serde AttestationExtension) (http : Http) (kernel : Kernel)
    (sidecar : Sidecar) (f : Features) (args : Args) (setup : TlsSetup g.ServerConfig) where
  -- The three ways to a setup.
  abbrev pub IsMockRun : Type 0
  IsMockRun = (args.amd ≡ false) × (build_mock_setup c g s ≡ ok setup)

  abbrev pub IsAmdRun : Type 0
  IsAmdRun =
      (args.amd ≡ true)
      × (args.gpu_cc ≡ false)
      × (f.real_attestation ≡ true)
      × (build_amd_setup c g s http kernel args.snp_product ≡ ok setup)

  abbrev pub IsAmdGpuRun : Type 0
  IsAmdGpuRun =
      (script : Str) × (args.amd ≡ true)
      × (args.gpu_cc ≡ true)
      × (f.real_attestation ≡ true)
      × (f.gpu_cc ≡ true)
      × (args.gpu_attest_script ≡ some script)
      × (build_amd_gpu_setup c g s http kernel sidecar args.snp_product script ≡ ok setup)

  cases :
      (amd gpu real cc : Bool)
      → args.amd ≡ amd
      → args.gpu_cc ≡ gpu
      → f.real_attestation ≡ real
      → f.gpu_cc ≡ cc
      → (match_arm c g s http kernel sidecar amd gpu f args ≡ ok setup)
        ↔ (IsMockRun ⊎ (IsAmdRun ⊎ IsAmdGpuRun))
  unfolding match_arm amd_arm amd_gpu_arm
  cases amd gpu real cc ha hg hr hc = ground arith

  -- The server has a setup exactly on one of three ways: the mock setup without --amd, the setup
  -- with the firmware's report with --amd and its feature, and the one with a GPU token with both
  -- flags, both features and a script.
  pub build_setup_iff :
      (build_setup c g s http kernel sidecar f args ≡ ok setup)
      ↔ (IsMockRun ⊎ (IsAmdRun ⊎ IsAmdGpuRun))
  unfolding build_setup
  build_setup_iff = cases args.amd args.gpu_cc f.real_attestation f.gpu_cc refl refl refl refl

abbrev pub flatten {ℓ} : {A : Type ℓ} → List (List A) → List A
flatten [] = []
flatten (xs ∷ xss) = xs ++ flatten xss

module _ (a : Axum) (state : AppState) where
  -- A connection whose handshake fails has no effect on the others: with it or without it the
  -- same requests are answered in the same way, and the loop ends or goes on alike.
  pub accept_loop_failed_handshake :
      (before after : List Event) (e : Str)
      → (flatten (accept_loop a state (before ++ (connection (inl e) ∷ after))).0
          ≡ flatten (accept_loop a state (before ++ after)).0)
        × ((accept_loop a state (before ++ (connection (inl e) ∷ after))).1
            ≡ (accept_loop a state (before ++ after)).1)
  unfolding accept_loop serve_connection
  accept_loop_failed_handshake [] after e = (refl, refl)
  accept_loop_failed_handshake (listener_error x ∷ before) after e = (refl, refl)
  accept_loop_failed_handshake (connection h ∷ before) after e =
      let (d, b) = accept_loop_failed_handshake before after e in (rw d, b)

module _ (c : Crates) (g : Rcgen) (s : Serde AttestationExtension) (http : Http) (kernel : Kernel)
    (sidecar : Sidecar) (a : Axum) (bind : Str → Str ⊎ Unit {0}) (f : Features) (args : Args)
    (events : List Event) where
  -- The program serves exactly if it has a setup and its address can be bound; it then does what
  -- the accept loop does, with the backend of the arguments.
  pub main_iff :
      (out : List (List (List Post × Answer)) × Option Str)
      → (main c g s http kernel sidecar a bind f args events ≡ ok out) ↔ (
          (setup : TlsSetup g.ServerConfig) × (build_setup c g s http kernel sidecar f args
            ≡ ok setup)
          × (bind args.listen ≡ inr tt)
          × (accept_loop a (record { backend_url = args.backend }) events ≡ out))
  unfolding main
  main_iff out = (
    λ h. >>=-ok_elim (build_setup c g s http kernel sidecar f args) _ h λ setup built h1.
        >>=-ok_elim (attempt _ (bind args.listen)) _ h1
          λ _ bound h2. (setup, built, attempt-eq-ok _ _ bound, ok-injective h2),
    λ (setup, built, bound, e). rw (built, bound, e) refl,
  )
