-- ===== src/System/Session/Served.antt =====
-- The whole run of the two programs: the server's setup, the handshake and the answer.
use sifir.Base.{
  ℕ, ◌≡◌, refl, inr, ok, err, ◌⊎◌, ◌++◌, ◌&&◌, none, length, ◌≤◌, ◌≢◌, replicate, false,
}
use sifir.Base.Text.{Str, Bytes, text}
use sifir.Crates.{Crates, Serde}
use sifir.Crates.Laws.{IsConstOid, IsSerde, IsBase64, IsSha2, IsP384, IsHex}
use sifir.Attest.Payload.{AttestationExtension}
use sifir.Client.GpuVerify.{NvidiaClaims, GpuClaims}
use sifir.Client.GpuVerify.Laws.{IsValidJwt}
use sifir.Client.Verifier.{AttestationVerifier, CryptoProvider, VerifierMode, tls_error}
use sifir.Attest.Error.{display, measurement_mismatch}
use sifir.Client.Main.Laws.{build_verifier-hex_encode}
use sifir.System.MockSetup.{build_mock_setup_wrong_measurement}
use sifir.Client.Request
use sifir.Client.Request.{Codec, generate}
use sifir.Client.Main
use sifir.Client.Main.{build_verifier, parse_measurement, main}
use sifir.Crates.Web.{Reqwest}
use sifir.Server.Kds.{Http}
use sifir.Server.SnpGuest.{Kernel}
use sifir.Server.GpuAttestation.{Sidecar, get_gpu_jwt}
use sifir.Server.Tls.{Rcgen, TlsSetup, build_mock_setup}
use sifir.Server.Tls.Served.{IsRcgen}
use sifir.Server.Proxy
use sifir.Server.Proxy.{Upstream}
use sifir.Server.App.{Axum, IsRouter, IsResponder, routes, body_limit}
use sifir.Server.App.Laws.{generate_path}
use sifir.Server.Main.{Args, Features, build_setup}
use sifir.System.AmdSetup.{IsFirmware, SignsReports}
use sifir.System.Flags.{build_setup_accepted}
use sifir.System.Inference.{connected, generate-echo}
use sifir.System.Session.{
  verify_signature_iff, IsSigned, Hello, IsTls, handshake, main_accepted, main_refused,
}

module _ (c : Crates) (p : IsP384 c) (h : IsSha2 c) (x : IsHex c) (b : IsBase64 c)
    (o : IsConstOid c) (g : Rcgen) (r : IsRcgen c g) (s : Serde AttestationExtension)
    (j : IsSerde s) (from_slice : Bytes → Str ⊎ NvidiaClaims) (provider : CryptoProvider)
    (codec : Codec) where
  -- A client in mock mode that expects another measurement than zeros ends without a response
  -- from a server with a mock setup: its request fails, if the HTTP client fails to send over a
  -- handshake that its verifier refuses and the packages keep their laws.
  pub session_wrong_measurement :
      (setup : TlsSetup g.ServerConfig) (client : Main.Args) (hello : Hello)
      (build : AttestationVerifier → Str ⊎ Reqwest) (served : Reqwest) (expected : Bytes)
      → build_mock_setup c g s ≡ ok setup
      → client.amd ≡ false
      → client.expected_measurement ≡ c.hex_encode expected
      → length expected ≡ 48
      → expected ≢ replicate 48 0
      → hello.cert ≡ r.presented setup.server_config
      → IsTls c s from_slice hello build served
      → main c provider codec build client ≡ err (text "inference request failed")
  session_wrong_measurement setup client hello build served expected built off measurement size ne
        cert tls =
      let verifier =
        build_verifier-hex_encode c x provider client expected VerifierMode.mock client.gpu_cc
          measurement size (rw off refl) refl in
      let refused =
        build_mock_setup_wrong_measurement c p h g r s b o j from_slice provider setup built
          expected client.gpu_cc ne in
      main_refused c s from_slice provider codec build hello served tls client _ verifier
        (tls_error "attestation failed: "
          (display (measurement_mismatch (c.hex_encode expected) (c.hex_encode (replicate 48 0)))))
        (rw (cert, refused) refl)

  module _ (http : Http) (kernel : Kernel) (fw : IsFirmware kernel) (sidecar : Sidecar) (a : Axum)
      (router : IsRouter a routes) (to_vec : Proxy.GenerateResponse → Bytes)
      (responder : IsResponder a to_vec) (path_of : Str → Str) (u : Upstream)
      (error_for_status : Str → ℕ → Str ⊎ Unit {0}) where
    -- The response that the client gets from a server without a backend.
    abbrev pub echo_of : Main.Args → Request.GenerateResponse
    echo_of client = record {
      text = text "[mock inference] echo: " ++ client.prompt;
      tokens_used = 0;
    }

    pub session_echo :
        (f : Features) (args : Args) (setup : TlsSetup g.ServerConfig) (client : Main.Args)
        (hello : Hello) (build : AttestationVerifier → Str ⊎ Reqwest)
        → SignsReports c h g r http kernel fw s args.snp_product
        → ((script spki jwt : Bytes)
            → get_gpu_jwt c sidecar (c.sha256 spki) script ≡ ok jwt
            → (claims : GpuClaims) × IsValidJwt c from_slice jwt spki claims)
        → build_setup c g s http kernel sidecar f args ≡ ok setup
        → client.amd ≡ args.amd
        → client.gpu_cc ≡ args.amd && args.gpu_cc
        → client.expected_measurement ≡ c.hex_encode setup.measurement
        → args.backend ≡ none
        → hello.cert ≡ r.presented setup.server_config
        → IsSigned provider hello
        → IsTls c s from_slice hello build
            (connected a u (record { backend_url = args.backend }) path_of error_for_status)
        → path_of ((text "https://" ++ client.server) ++ text "/v1/generate") ≡ generate_path
        → length (codec.to_vec (record { prompt = client.prompt; max_tokens = client.max_tokens }))
          ≤ body_limit
        → u.from_slice
            (codec.to_vec (record { prompt = client.prompt; max_tokens = client.max_tokens }))
          ≡ inr (record { prompt = client.prompt })
        → ((reply : Proxy.GenerateResponse)
            → codec.from_slice (to_vec reply)
              ≡ inr (record { text = reply.text; tokens_used = reply.tokens_used }))
        → ((url : Str) → error_for_status url 200 ≡ inr tt)
        → main c provider codec build client ≡ ok (echo_of client)
    session_echo f args setup client hello build signs valid built amd gpu measurement echo cert
          signed tls path small read reply status =
        let (self, verifier, accepted) =
          build_setup_accepted c p h x b o g r s j http kernel fw sidecar from_slice provider f args
            setup client signs valid built amd gpu measurement in
        let sig =
          (verify_signature_iff c provider client self verifier hello.version hello.transcript
              hello.cert hello.signature).1
            signed in
        let shaken : handshake c s from_slice hello self ≡ ok tt =
          rw (cert, accepted, ← cert, sig) refl in
        main_accepted c s from_slice provider codec build hello _ tls client self verifier
          (echo_of client) shaken
          (rw echo (
            generate-echo a router to_vec responder path_of u codec error_for_status
              (text "https://" ++ client.server) client.prompt client.max_tokens path small read
              reply status))
