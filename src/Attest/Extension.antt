-- ===== src/Attest/Extension.antt =====
-- The operations of poc/crates/sifir-attest/src/attest_ext.rs.
pub mod RoundTrip
use sifir.Base.{
  List, [], ◌∷◌, map, some, none, Outcome, ok, err, ◌>>=◌, attempt, length, ◌==◌, if◌then◌else◌,
  ◌⊎◌,
}
use sifir.Base.Text.{Str, Bytes, text}
use sifir.Crates.{Crates, Serde}
use sifir.Attest.Report.{report_size}
use sifir.Attest.Payload.{AttestationExtension, mock, amd_sev_snp}

module _ (c : Crates) where
  unfoldable pub new_mock : Bytes → AttestationExtension
  new_mock report_bytes = record {
    report_b64 = c.b64_encode report_bytes;
    vcek_chain_b64 = [];
    mode = mock;
    gpu_jwt = none;
  }

  unfoldable pub new_amd : Bytes → List Bytes → AttestationExtension
  new_amd report_bytes chain = record {
    report_b64 = c.b64_encode report_bytes;
    vcek_chain_b64 = map c.b64_encode chain;
    mode = amd_sev_snp;
    gpu_jwt = none;
  }

  -- An `anyhow::Error` is the text that it displays.
  unfoldable pub report_bytes : AttestationExtension → Outcome Str Bytes
  report_bytes e = do
    raw ← attempt (λ x. x) (c.b64_decode e.report_b64)
    if length raw == report_size then ok raw else err (text "report is not 1184 bytes")

  -- `collect` into a `Result`: the first certificate that does not decode is the error.
  unfoldable pub decode_all : List Str → Outcome Str (List Bytes)
  decode_all [] = ok []
  decode_all (b ∷ bs) = do
    der ← attempt (λ x. x) (c.b64_decode b)
    ders ← decode_all bs
    ok (der ∷ ders)

  unfoldable pub vcek_chain_der : AttestationExtension → Outcome Str (List Bytes)
  unfolding decode_all
  vcek_chain_der e = decode_all e.vcek_chain_b64

unfoldable pub with_gpu_jwt : Str → AttestationExtension → AttestationExtension
with_gpu_jwt jwt e = record e { gpu_jwt = some jwt }

module _ (s : Serde AttestationExtension) where
  -- serde_json fails on no value of this type, so its `expect` is left out.
  unfoldable pub to_bytes : AttestationExtension → Bytes
  to_bytes = s.to_vec

  unfoldable pub from_bytes : Bytes → Str ⊎ AttestationExtension
  from_bytes = s.from_slice
