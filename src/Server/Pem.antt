-- ===== src/Server/Pem.antt =====
-- `parse_pem_bundle` of poc/crates/sifir-server/src/amd_attestation.rs.
pub mod RoundTrip
pub mod Tests
use sifir.Base.{
  List, [], ◌∷◌, ◌++◌, Bool, true, false, ◌===◌, Outcome, ok, err, ◌>>=◌, attempt, if◌then◌else◌,
}
use sifir.Base.Text.{Str, Bytes, text}
use sifir.Base.Text.Lines.{lines, trim}
use sifir.Crates.{Crates}

unfoldable pub begin_line : Str
unfolding text
begin_line = text "-----BEGIN CERTIFICATE-----"

unfoldable pub end_line : Str
unfolding text
end_line = text "-----END CERTIFICATE-----"

-- The branches of the loop's body.
pub data LineKind : Type 0 where
  begin_mark end_mark blank body : LineKind

abbrev kind_of_rest : Str → LineKind
kind_of_rest [] = blank
kind_of_rest (c ∷ s) = body

unfoldable pub kind : Str → LineKind
kind trimmed =
    if trimmed === begin_line
    then begin_mark
    else if trimmed === end_line
    then end_mark
    else kind_of_rest trimmed

module _ (c : Crates) where
  -- The loop over the lines, with the variables `in_cert`, `b64` and `certs`.
  unfoldable pub pem_loop : List Str → Bool → Str → List Bytes → Outcome Str (List Bytes)
  pem_loop [] true b64 certs = err (text "unterminated PEM cert block")
  pem_loop [] false b64 certs = ok certs
  pem_loop (line ∷ rest) false b64 certs = elim (kind (trim line)) [
    | begin_mark ↦ pem_loop rest true [] certs
    | end_mark ↦ err (text "unexpected END CERTIFICATE")
    | blank ↦ pem_loop rest false b64 certs
    | body ↦ pem_loop rest false b64 certs
  ]
  pem_loop (line ∷ rest) true b64 certs = elim (kind (trim line)) [
    | begin_mark ↦ pem_loop rest true [] certs
    | end_mark ↦ do
      der ← attempt (λ _. text "base64 decode PEM cert") (c.b64_decode b64)
      pem_loop rest false b64 (certs ++ (der ∷ []))
    | blank ↦ pem_loop rest true b64 certs
    | body ↦ pem_loop rest true (b64 ++ trim line) certs
  ]

  unfoldable pub parse_pem_bundle : Str → Outcome Str (List Bytes)
  unfolding pem_loop
  parse_pem_bundle pem = pem_loop (lines pem) false [] []
