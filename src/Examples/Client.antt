-- ===== src/Examples/Client.antt =====
-- The theorems on the client, applied.
use sifir.Base.{take, ℕ, ◌≡◌, ◌↔◌, refl, inr, [], ◌∷◌, ok, false, length, replicate, ◌≢◌, panic}
use sifir.Base.Text.{Str, Bytes}
use sifir.Base.Text.Lines.{trim}
use sifir.Client.GpuVerify.{verify_gpu_jwt}
use sifir.Client.GpuVerify.Laws.{
  IsValidJwt, token, verify_gpu_jwt_iff, verify_gpu_jwt_bound, verify_gpu_jwt_unsigned,
}
use sifir.Client.Verifier.{AttestationVerifier, VerifierMode, verify_server_cert}
use sifir.Client.Verifier.Trust.{IsTrusted, verify_server_cert_iff}
use sifir.Client.Main.{parse_measurement}
use sifir.Client.Main.Laws.{parse_measurement_iff}
use sifir.Examples.Packages.{toy, toy_hex, toy_sha256, toy-IsHex, toy-IsP384}
use sifir.Examples.Payload.{toy_serde}
use sifir.Client.Verifier.NoPanic.{verify_server_cert-ne-panic}
use sifir.Examples.Provider.{toy_provider}
use sifir.Examples.Gpu.{toy_nvidia, toy_token, toy_claims, toy_token-IsValidJwt}
use sifir.Examples.Setups.{toy_spki, amd_run}

abbrev verifier : AttestationVerifier
verifier = record {
  expected_measurement = replicate 48 0;
  mode = VerifierMode.amd_sev_snp;
  verify_gpu_cc = false;
  crypto_provider = toy_provider;
}

verify_server_cert_iff_example :
    (verify_server_cert toy toy_serde toy_nvidia verifier amd_run.0.server_config ≡ ok tt)
    ↔ IsTrusted toy toy_serde toy_nvidia verifier amd_run.0.server_config
verify_server_cert_iff_example =
    verify_server_cert_iff toy toy_serde toy_nvidia verifier amd_run.0.server_config

abbrev jwt : Str
jwt = toy_token (toy_hex (toy_sha256 toy_spki))

verify_gpu_jwt_iff_example :
    (verify_gpu_jwt toy toy_nvidia jwt toy_spki ≡ ok toy_claims)
    ↔ IsValidJwt toy toy_nvidia jwt toy_spki toy_claims
verify_gpu_jwt_iff_example = verify_gpu_jwt_iff toy toy_nvidia jwt toy_spki toy_claims

accepted : verify_gpu_jwt toy toy_nvidia jwt toy_spki ≡ ok toy_claims
accepted =
    (verify_gpu_jwt_iff toy toy_nvidia jwt toy_spki toy_claims).1 (toy_token-IsValidJwt toy_spki)

-- Another key with the same digest.
abbrev other_spki : Bytes
other_spki = 7 ∷ 0 ∷ []

other_accepted : verify_gpu_jwt toy toy_nvidia jwt other_spki ≡ ok toy_claims
unfolding toy_sha256 replicate take
other_accepted =
    (verify_gpu_jwt_iff toy toy_nvidia jwt other_spki toy_claims).1
      (toy_token-IsValidJwt other_spki)

verify_gpu_jwt_bound_example : toy.sha256 toy_spki ≡ toy.sha256 other_spki
verify_gpu_jwt_bound_example =
    verify_gpu_jwt_bound toy toy_nvidia toy-IsHex jwt toy_spki other_spki toy_claims toy_claims
      accepted other_accepted

verify_gpu_jwt_unsigned_example :
    verify_gpu_jwt toy toy_nvidia (token toy toy_nvidia (1 ∷ []) (2 ∷ []) (3 ∷ [])) toy_spki
    ≡ verify_gpu_jwt toy toy_nvidia (token toy toy_nvidia (4 ∷ []) (2 ∷ []) (5 ∷ [])) toy_spki
verify_gpu_jwt_unsigned_example =
    verify_gpu_jwt_unsigned toy toy_nvidia (1 ∷ []) (4 ∷ []) (2 ∷ []) (3 ∷ []) (5 ∷ []) toy_spki
      (refl, tt) (refl, tt) (refl, tt) (refl, tt) (refl, tt)

abbrev argument : Str
argument = 32 ∷ toy_hex (replicate 48 1)

parse_measurement_iff_example : (parse_measurement toy argument ≡ ok (replicate 48 1)) ↔ (
    (toy.hex_decode (trim argument) ≡ inr (replicate 48 1))
    × (length (replicate {A = ℕ} 48 1) ≡ 48))
parse_measurement_iff_example = parse_measurement_iff toy argument (replicate 48 1)

verify_server_cert-ne-panic_example :
    verify_server_cert toy toy_serde toy_nvidia verifier (8 ∷ 9 ∷ []) ≢ panic
verify_server_cert-ne-panic_example =
    verify_server_cert-ne-panic toy toy_serde toy_nvidia toy-IsP384 verifier (8 ∷ 9 ∷ [])
