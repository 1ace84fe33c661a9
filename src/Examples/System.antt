-- ===== src/Examples/System.antt =====
-- The theorems on the two programs together, applied.
use sifir.Base.{
  [], ◌∷◌, ◌==◌, if◌then◌else◌, ℕ, ◌≡◌, ◌≢◌, ◌↔◌, ◌⊎◌, refl, ap, sym, inr, inl, ◌++◌, some, ok, err,
  false, true, replicate, length, drop, ◌≤◌, arith,
}
use sifir.Base.Text.{Str, Bytes, text}
use sifir.Crates.Web.{Post, Answer}
use sifir.Attest.Error.{measurement_mismatch, display}
use sifir.Client.Verifier.{VerifierMode, new, verify_server_cert, tls_error, general}
use sifir.Client.Request
use sifir.Client.Request.{Codec, generate}
use sifir.Client.Main
use sifir.Client.Main.{main, mode_of}
use sifir.Server.Main.{build_setup}
use sifir.Server.Main.Laws.{build_setup_iff}
use sifir.Server.App.{routes, body_limit}
use sifir.Server.App.Laws.{generate_path}
use sifir.Examples.Axum.{toy_axum, toy_axum-IsRouter, toy_axum-IsResponder}
use sifir.System.MockSetup.{build_mock_setup_wrong_measurement, build_mock_setup_wrong_mode}
use sifir.System.Inference.{connected, generate-proxy}
use sifir.Examples.Packages.{toy, toy-IsP384, toy-IsSha2, toy-IsBase64, toy-IsConstOid}
use sifir.Examples.Payload.{toy_serde, toy_serde-IsSerde}
use sifir.Examples.Hardware.{toy_kernel, toy_http}
use sifir.Examples.Rcgen.{toy_rcgen, toy_rcgen-IsRcgen}
use sifir.Examples.Provider.{toy_provider}
use sifir.Examples.Gpu.{toy_nvidia, toy_sidecar}
use sifir.Examples.Setups.{mock_run, amd_gpu_run, script}
use sifir.Examples.Runs.{toy_features, toy_args, toy_upstream}

abbrev pub ones : Bytes
ones = replicate 48 1

pub ones-ne-zeros : ones ≢ replicate 48 0
unfolding replicate
ones-ne-zeros e = cc e

build_mock_setup_wrong_measurement_example :
    verify_server_cert toy toy_serde toy_nvidia
      (new ones VerifierMode.mock true toy_provider)
      mock_run.0.server_config
    ≡ err (
        tls_error "attestation failed: "
          (display (measurement_mismatch (toy.hex_encode ones) (toy.hex_encode (replicate 48 0)))))
build_mock_setup_wrong_measurement_example =
    build_mock_setup_wrong_measurement toy toy-IsP384 toy-IsSha2 toy_rcgen toy_rcgen-IsRcgen
      toy_serde toy-IsBase64 toy-IsConstOid toy_serde-IsSerde toy_nvidia toy_provider mock_run.0
      mock_run.1 ones true ones-ne-zeros

build_mock_setup_wrong_mode_example :
    verify_server_cert toy toy_serde toy_nvidia
      (new ones VerifierMode.amd_sev_snp false toy_provider)
      mock_run.0.server_config
    ≡ err (general (text "mode mismatch: client=AmdSevSnp, server=Mock"))
build_mock_setup_wrong_mode_example =
    build_mock_setup_wrong_mode toy toy-IsP384 toy-IsSha2 toy_rcgen toy_rcgen-IsRcgen toy_serde
      toy-IsBase64 toy-IsConstOid toy_serde-IsSerde toy_nvidia toy_provider mock_run.0 mock_run.1
      ones false

abbrev pub client_args : Main.Args
client_args = record {
  server = text "127.0.0.1:7443";
  expected_measurement = toy.hex_encode amd_gpu_run.0.measurement;
  amd = true;
  gpu_cc = true;
  max_tokens = 512;
  prompt = text "hello";
}

pub run_by_args :
    build_setup toy toy_rcgen toy_serde toy_http toy_kernel toy_sidecar toy_features toy_args
    ≡ ok amd_gpu_run.0
run_by_args =
    (build_setup_iff toy toy_rcgen toy_serde toy_http toy_kernel toy_sidecar toy_features toy_args
        amd_gpu_run.0).1
      (inr (inr (script, refl, refl, refl, refl, refl, amd_gpu_run.1)))

-- The text of a request is its prompt, and that of a response has the tokens in front.
abbrev response_of : Bytes → Str ⊎ Request.GenerateResponse
response_of [] = inl (text "empty")
response_of (n ∷ t) = inr (record { text = t; tokens_used = n })

abbrev pub toy_codec : Codec
toy_codec = record { to_vec = λ r. r.prompt; from_slice = response_of }

-- The path of a URL behind "https://host".
abbrev pub toy_path : Str → Str
toy_path url = drop 12 url

toy_path_lem : toy_path (text "https://host" ++ text "/v1/generate") ≡ generate_path
unfolding text drop
toy_path_lem = refl

hello_small : length (text "hello") ≤ body_limit
unfolding text
hello_small = omega arith

abbrev pub toy_status : Str → ℕ → Str ⊎ Unit {0}
toy_status url s = if s == 200 then inr tt else inl (text "status")

valid_lem :
    (p : Post) (answer : Answer)
    → toy_upstream.send p ≡ inr answer
    → (toy_upstream.from_u16 answer.status ≡ some answer.status)
      × (body : Bytes) × (answer.bytes ≡ inr body)
valid_lem p answer h =
    let e : record { status = 200; bytes = inr (7 ∷ 9 ∷ p.body) } ≡ answer = cc h in
    (refl, 7 ∷ 9 ∷ p.body, ap (λ (a : Answer). a.bytes) (sym e))

answers_lem : (p : Post) → (answer : Answer) × (toy_upstream.send p ≡ inr answer)
answers_lem p = (record { status = 200; bytes = inr (7 ∷ 9 ∷ p.body) }, refl)

generate-proxy_example :
    (generate toy_codec
        (connected toy_axum toy_upstream
          (record { backend_url = some (text "http://backend") })
          toy_path
          toy_status)
        (text "https://host")
        (text "hello")
        512
      ≡ ok (record { text = 9 ∷ text "hello"; tokens_used = 7 }))
    ↔ (generate toy_codec
          (record { send = toy_upstream.send; error_for_status = toy_status })
          (text "http://backend")
          (text "hello")
          512
        ≡ ok (record { text = 9 ∷ text "hello"; tokens_used = 7 }))
generate-proxy_example =
    generate-proxy toy_axum (toy_axum-IsRouter routes) _ toy_axum-IsResponder toy_path toy_upstream
      toy_codec toy_status (text "https://host") (text "http://backend") (text "hello") 512
      (record { text = 9 ∷ text "hello"; tokens_used = 7 }) toy_path_lem hello_small valid_lem
      answers_lem (λ s x y. (λ h. h, λ h. h))
