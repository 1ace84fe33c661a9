-- ===== src/Examples/Session.antt =====
-- The theorems on a whole run of the two programs, applied.
use sifir.Client.Main.NoPanic.{main-ne-panic}
use sifir.Base.{
  ◌≢◌, ===_self, ◌+◌, ◌∷◌, [], ◌≡◌, refl, inr, inl, ok, err, false, ◌⊎◌, ◌++◌, Outcome, panic, ◌≤◌,
  length, arith, drop, length-replicate,
}
use sifir.Base.Text.{Str, Bytes, text}
use sifir.Crates.Web.{Reqwest}
use sifir.Client.Verifier.{AttestationVerifier, TlsError}
use sifir.Client.Verifier.Trust.{IsTrusted}
use sifir.Client.Main
use sifir.Client.Main.{build_verifier, main}
use sifir.Server.App.{routes, body_limit}
use sifir.Server.App.Laws.{generate_path}
use sifir.System.Inference.{connected}
use sifir.System.Session.{tls12, IsSigned, Hello, handshake, IsTls, main-IsTrusted}
use sifir.System.Session.Served.{session_echo, session_wrong_measurement}
use sifir.Examples.Packages.{
  toy, toy-IsP384, toy-IsSha2, toy-IsHex, toy-IsBase64, toy-IsConstOid, sum,
}
use sifir.Examples.Payload.{toy_serde, toy_serde-IsSerde}
use sifir.Examples.Hardware.{toy_kernel, toy_kernel-IsFirmware, toy_http, toy_http-SignsReports}
use sifir.Examples.Rcgen.{toy_rcgen, toy_rcgen-IsRcgen}
use sifir.Examples.Provider.{toy_provider, toy_check, key_of}
use sifir.Examples.Gpu.{toy_nvidia, toy_sidecar, get_gpu_jwt_lem}
use sifir.Examples.Setups.{mock_run, amd_gpu_run, genoa}
use sifir.Examples.Runs.{toy_features, toy_args, toy_upstream}
use sifir.Examples.Axum.{toy_axum, toy_axum-IsRouter, toy_axum-IsResponder}
use sifir.Examples.System.{
  client_args, run_by_args, toy_codec, toy_path, toy_status, ones, ones-ne-zeros,
}

-- A server that shows this certificate, and signs two bytes.
abbrev toy_hello : Bytes → Hello
toy_hello cert = record {
  version = tls12;
  cert = cert;
  transcript = 1 ∷ 2 ∷ [];
  signature = record { scheme = 0x0403; sig = (key_of cert + sum (1 ∷ 2 ∷ [])) ∷ [] };
}

abbrev failing : Reqwest
failing = record { send = λ p. inl (text "handshake"); error_for_status = toy_status }

abbrev connect : Reqwest → Outcome TlsError (Unit {0}) → Reqwest
connect client (ok tt) = client
connect client (err e) = failing
connect client panic = failing

-- An HTTP client that makes the handshake when it is built.
abbrev toy_build : Hello → Reqwest → AttestationVerifier → Str ⊎ Reqwest
toy_build hello client self = inr (connect client (handshake toy toy_serde toy_nvidia hello self))

toy_build-IsTls :
    (hello : Hello) (client : Reqwest)
    → IsTls toy toy_serde toy_nvidia hello (toy_build hello client) client
toy_build-IsTls hello client = record {
  accepted = λ self e. rw e refl;
  refused = λ self x e. (failing, rw e refl, λ p. (text "handshake", refl));
}

toy_check_lem :
    (cert : Bytes) → toy_check (toy_hello cert).transcript cert (toy_hello cert).signature ≡ inr tt
toy_check_lem cert = let sig : Bytes = (toy_hello cert).signature.sig in rw (===_self sig) refl

abbrev served : Reqwest
served =
    connected toy_axum toy_upstream (record { backend_url = toy_args.backend }) toy_path toy_status

abbrev amd_hello : Hello
amd_hello = toy_hello amd_gpu_run.0.server_config

abbrev short_args : Main.Args
short_args = record {
  server = text "host";
  expected_measurement = client_args.expected_measurement;
  amd = client_args.amd;
  gpu_cc = client_args.gpu_cc;
  max_tokens = client_args.max_tokens;
  prompt = client_args.prompt;
}

short_path : toy_path ((text "https://" ++ text "host") ++ text "/v1/generate") ≡ generate_path
unfolding text drop
short_path = refl

small : length (text "hello") ≤ body_limit
unfolding text
small = omega arith

-- The run that ends with a response.
session_lem :
    main toy toy_provider toy_codec (toy_build amd_hello served) short_args
    ≡ ok (record { text = text "[mock inference] echo: " ++ text "hello"; tokens_used = 0 })
session_lem =
    session_echo toy toy-IsP384 toy-IsSha2 toy-IsHex toy-IsBase64 toy-IsConstOid toy_rcgen
      toy_rcgen-IsRcgen toy_serde toy_serde-IsSerde toy_nvidia toy_provider toy_codec toy_http
      toy_kernel toy_kernel-IsFirmware toy_sidecar toy_axum (toy_axum-IsRouter routes) _
      toy_axum-IsResponder toy_path toy_upstream toy_status toy_features toy_args amd_gpu_run.0
      short_args amd_hello (toy_build amd_hello served) (toy_http-SignsReports genoa)
      get_gpu_jwt_lem run_by_args refl refl refl refl refl
      (toy_check_lem amd_gpu_run.0.server_config) (toy_build-IsTls amd_hello served) short_path
      small refl (λ reply. refl) (λ url. refl)

main-IsTrusted_example :
    (self : AttestationVerifier) × (build_verifier toy toy_provider short_args ≡ ok self)
    × IsTrusted toy toy_serde toy_nvidia self amd_hello.cert
    × IsSigned toy_provider amd_hello
main-IsTrusted_example =
    main-IsTrusted toy toy_serde toy_nvidia toy-IsP384 toy_provider toy_codec
      (toy_build amd_hello served) amd_hello served short_args _ (toy_build-IsTls amd_hello served)
      session_lem

abbrev mock_hello : Hello
mock_hello = toy_hello mock_run.0.server_config

abbrev wrong_args : Main.Args
wrong_args = record {
  server = text "host";
  expected_measurement = toy.hex_encode ones;
  amd = false;
  gpu_cc = false;
  max_tokens = 512;
  prompt = text "hello";
}

session_wrong_measurement_example :
    main toy toy_provider toy_codec (toy_build mock_hello served) wrong_args
    ≡ err (text "inference request failed")
session_wrong_measurement_example =
    session_wrong_measurement toy toy-IsP384 toy-IsSha2 toy-IsHex toy-IsBase64 toy-IsConstOid
      toy_rcgen toy_rcgen-IsRcgen toy_serde toy_serde-IsSerde toy_nvidia toy_provider toy_codec
      mock_run.0 wrong_args mock_hello (toy_build mock_hello served) served ones mock_run.1 refl
      refl (length-replicate 48 1) ones-ne-zeros refl (toy_build-IsTls mock_hello served)

main-ne-panic_example :
    main toy toy_provider toy_codec (toy_build mock_hello served) wrong_args ≢ panic
main-ne-panic_example =
    main-ne-panic toy toy_provider toy_codec (toy_build mock_hello served) wrong_args
