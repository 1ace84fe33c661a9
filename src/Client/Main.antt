-- ===== src/Client/Main.antt =====
-- poc/crates/sifir-client/src/main.rs: from the arguments to the verifier and the request.
pub mod Laws
pub mod NoPanic
use sifir.Base.{
  ℕ, ◌*◌, ◌++◌, ◌==◌, Bool, true, false, ◌⊎◌, if◌then◌else◌, length, replicate, Outcome, ok, err,
  ◌>>=◌, ◌>>◌, attempt, map_err,
}
use sifir.Base.Slices.{copy_from_slice}
use sifir.Base.Text.{Str, Bytes, text}
use sifir.Base.Text.Decimal.{decimal}
use sifir.Base.Text.Lines.{trim}
use sifir.Crates.{Crates}
use sifir.Crates.Web.{Reqwest}
use sifir.Attest.Report.{measurement_size}
use sifir.Client.Verifier.{AttestationVerifier, VerifierMode, CryptoProvider, new}
use sifir.Client.Request.{Codec, GenerateResponse, generate}

-- The arguments, as clap parses them.
pub record Args : Type 0 where
  pub server : Str
  pub expected_measurement : Str
  pub amd : Bool
  pub gpu_cc : Bool
  pub max_tokens : ℕ
  pub prompt : Str

abbrev pub mode_of : Bool → VerifierMode
mode_of true = VerifierMode.amd_sev_snp
mode_of false = VerifierMode.mock

module _ (c : Crates) where
  unfoldable pub parse_measurement : Str → Outcome Str Bytes
  parse_measurement s = do
    bytes ←
        attempt (λ _. text "expected_measurement must be a valid hex string")
          (c.hex_decode (trim s))
    if length bytes == measurement_size
        then copy_from_slice (replicate measurement_size 0) 0 measurement_size bytes
        else err (
            text "expected_measurement must be "
            ++ decimal measurement_size
            ++ text " bytes ("
            ++ decimal (measurement_size * 2)
            ++ text " hex chars), got "
            ++ decimal (length bytes)
            ++ text " bytes")

  -- `provider` is ring's, `default_provider()`.
  unfoldable pub build_verifier : CryptoProvider → Args → Outcome Str AttestationVerifier
  build_verifier provider args = do
    expected_measurement ← parse_measurement args.expected_measurement
    ok (new expected_measurement (mode_of args.amd) args.gpu_cc provider)

  -- `build` makes the HTTP client, which calls the verifier in each handshake. The log lines are left
  -- out; the response is what `main` prints.
  unfoldable pub main :
      CryptoProvider
      → Codec
      → (AttestationVerifier → Str ⊎ Reqwest)
      → Args
      → Outcome Str GenerateResponse
  main provider j build args = do
    verifier ← build_verifier provider args
    client ← attempt (λ _. text "build HTTP client") (build verifier)
    map_err (λ _. text "inference request failed")
        (generate j client (text "https://" ++ args.server) args.prompt args.max_tokens)
