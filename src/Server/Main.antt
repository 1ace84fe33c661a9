-- ===== src/Server/Main.antt =====
-- poc/crates/sifir-server/src/main.rs: the choice of the setup, and the accept loop.
pub mod Laws
pub mod NoPanic
use sifir.Base.{
  ℕ, List, [], ◌∷◌, ◌++◌, Bool, true, false, ◌⊎◌, inl, inr, ◌&&◌, Option, none, some, Outcome, ok,
  err, ◌>>=◌, ◌>>◌, ok_or, attempt, map,
}
use sifir.Base.Text.{Str, Bytes, text}
use sifir.Crates.{Crates, Serde}
use sifir.Crates.Web.{Post, Answer}
use sifir.Attest.Payload.{AttestationExtension}
use sifir.Server.Kds.{Http}
use sifir.Server.SnpGuest.{Kernel}
use sifir.Server.GpuAttestation.{Sidecar}
use sifir.Server.Tls.{Rcgen, TlsSetup, build_mock_setup, build_amd_setup, build_amd_gpu_setup}
use sifir.Server.Proxy.{Upstream}
use sifir.Server.App.{Axum, AppState, Request, answer_request}

-- The arguments, as clap parses them.
pub record Args : Type 0 where
  pub listen : Str
  pub backend : Option Str
  pub amd : Bool
  pub snp_product : Str
  pub gpu_cc : Bool
  pub gpu_attest_script : Option Str

-- The cargo features that the program is compiled with.
pub record Features : Type 0 where
  pub real_attestation : Bool
  pub gpu_cc : Bool

module _ (c : Crates) (g : Rcgen) (s : Serde AttestationExtension) (http : Http) (kernel : Kernel)
    (sidecar : Sidecar) where
  -- The arms of the `match` with `--amd`, by the features.
  unfoldable pub amd_arm : Bool → Args → Outcome Str (TlsSetup g.ServerConfig)
  amd_arm true args = build_amd_setup c g s http kernel args.snp_product
  amd_arm false args = err (text "--amd requires compiling with `--features real-attestation`")

  unfoldable pub amd_gpu_arm : Bool → Args → Outcome Str (TlsSetup g.ServerConfig)
  amd_gpu_arm true args = do
    script ← ok_or (text "--gpu-cc requires --gpu-attest-script <path>") args.gpu_attest_script
    build_amd_gpu_setup c g s http kernel sidecar args.snp_product script
  amd_gpu_arm false args =
      err (text "--gpu-cc requires compiling with `--features real-attestation,gpu-cc`")

  -- The `match` on `(args.amd, args.gpu_cc)`.
  unfoldable pub match_arm : Bool → Bool → Features → Args → Outcome Str (TlsSetup g.ServerConfig)
  match_arm false _ f args = build_mock_setup c g s
  match_arm true false f args = amd_arm f.real_attestation args
  match_arm true true f args = amd_gpu_arm (f.real_attestation && f.gpu_cc) args

  unfoldable pub build_setup : Features → Args → Outcome Str (TlsSetup g.ServerConfig)
  unfolding match_arm
  build_setup f args = match_arm args.amd args.gpu_cc f args

-- A request on a connection, and the backend as it is while the request is served.
pub record Exchange : Type 0 where
  pub request : Request
  pub upstream : Upstream

-- What `accept` returns: a connection, whose handshake fails or yields the requests that come on it,
-- or the listener's error.
pub data Event : Type 0 where
  connection : Str ⊎ List Exchange → Event
  listener_error : Str → Event

module _ (a : Axum) (state : AppState) where
  abbrev pub answer : Exchange → List Post × Answer
  answer x = answer_request a x.upstream state x.request

  -- The task of a connection: a failed handshake ends it.
  unfoldable pub serve_connection : Str ⊎ List Exchange → List (List Post × Answer)
  serve_connection (inl e) = []
  serve_connection (inr exchanges) = map answer exchanges

  -- The loop over what `accept` returns: the work of each spawned task, and the error that ends the
  -- loop, if one has come. A task that panics is left out.
  unfoldable pub accept_loop : List Event → List (List (List Post × Answer)) × Option Str
  accept_loop [] = ([], none)
  accept_loop (listener_error e ∷ events) = ([], some e)
  accept_loop (connection h ∷ events) =
      let (tasks, end) = accept_loop events in (serve_connection h ∷ tasks, end)

-- The program: the setup, the state of the router, the listener, which `bind` opens, and the loop.
module _ (c : Crates) (g : Rcgen) (s : Serde AttestationExtension) (http : Http) (kernel : Kernel)
    (sidecar : Sidecar) (a : Axum) (bind : Str → Str ⊎ Unit {0}) where
  unfoldable pub main :
      Features → Args → List Event → Outcome Str (List (List (List Post × Answer)) × Option Str)
  main f args events = do
    setup ← build_setup c g s http kernel sidecar f args
    let state : AppState = record { backend_url = args.backend }
    attempt (λ e. e) (bind args.listen)
    ok (accept_loop a state events)
