-- ===== src/Attest/Extension/RoundTrip.antt =====
-- What the client decodes from an extension is what the server put into it.
use sifir.Base.{
  List, [], ◌∷◌, map, ◌≡◌, refl, inr, some, ok, attempt, length, arith, ==_iff, eq→==, >>=-ok_elim,
  attempt-eq-ok,
}
use sifir.Base.Text.{Str, Bytes}
use sifir.Crates.{Crates, Serde}
use sifir.Crates.Laws.{IsBase64, IsSerde}
use sifir.Attest.Report.{report_size}
use sifir.Attest.Payload.{AttestationExtension, amd_sev_snp}
use sifir.Attest.Extension.{
  new_mock, new_amd, with_gpu_jwt, to_bytes, from_bytes, report_bytes, decode_all, vcek_chain_der,
}

module _ (c : Crates) (b : IsBase64 c) where
  pub decode_all-map : (chain : List Bytes) → decode_all c (map c.b64_encode chain) ≡ ok chain
  unfolding decode_all
  decode_all-map [] = refl
  decode_all-map (der ∷ ders) = rw (b.b64_decode-b64_encode der, decode_all-map ders)

  report_bytes_of_encoding :
      (e : AttestationExtension) (raw : Bytes)
      → e.report_b64 ≡ c.b64_encode raw
      → length raw ≡ report_size
      → report_bytes c e ≡ ok raw
  unfolding report_bytes
  report_bytes_of_encoding e raw h l =
      rw (h, b.b64_decode-b64_encode raw, eq→== (length raw) report_size l)

  pub report_bytes-new_mock :
      (raw : Bytes) → length raw ≡ report_size → report_bytes c (new_mock c raw) ≡ ok raw
  unfolding new_mock
  report_bytes-new_mock raw l = report_bytes_of_encoding _ raw refl l

  pub report_bytes-new_amd :
      (raw : Bytes) (chain : List Bytes)
      → length raw ≡ report_size
      → report_bytes c (new_amd c raw chain) ≡ ok raw
  unfolding new_amd
  report_bytes-new_amd raw chain l = report_bytes_of_encoding _ raw refl l

  pub vcek_chain_der-new_amd :
      (raw : Bytes) (chain : List Bytes) → vcek_chain_der c (new_amd c raw chain) ≡ ok chain
  unfolding vcek_chain_der new_amd
  vcek_chain_der-new_amd raw chain = decode_all-map chain

  -- The extension that the server builds for real hardware, with a GPU token, is read back from
  -- JSON with the same report, chain, mode and token, if base64 and JSON texts are decoded to
  -- what was encoded.
  pub extension_roundtrip :
      (s : Serde AttestationExtension) (raw : Bytes) (chain : List Bytes) (jwt : Str)
      → IsSerde s
      → length raw ≡ report_size
      → (e : AttestationExtension) × (from_bytes s
            (to_bytes s (with_gpu_jwt jwt (new_amd c raw chain)))
          ≡ inr e)
        × (report_bytes c e ≡ ok raw)
        × (vcek_chain_der c e ≡ ok chain)
        × (e.mode ≡ amd_sev_snp)
        × (e.gpu_jwt ≡ some jwt)
  unfolding from_bytes to_bytes with_gpu_jwt new_amd vcek_chain_der
  extension_roundtrip s raw chain jwt j l = (
    with_gpu_jwt jwt (new_amd c raw chain),
    j.from_slice-to_vec _,
    report_bytes_of_encoding _ raw refl l,
    decode_all-map chain,
    refl,
    refl,
  )

module _ (c : Crates) where
  -- Whatever an extension says, the report that is decoded from it is what its base64 text stands
  -- for, and has the size of a report.
  pub length-report_bytes :
      (e : AttestationExtension) (raw : Bytes)
      → report_bytes c e ≡ ok raw
      → (c.b64_decode e.report_b64 ≡ inr raw) × (length raw ≡ report_size)
  unfolding report_bytes
  length-report_bytes e raw h =
      >>=-ok_elim (attempt _ (c.b64_decode e.report_b64)) _ h
        λ x a k. let d = attempt-eq-ok _ _ a in ground (arith, ==_iff (length x) 1184)

  pub report_bytes_of_decoding :
      (e : AttestationExtension) (raw : Bytes)
      → c.b64_decode e.report_b64 ≡ inr raw
      → length raw ≡ report_size
      → report_bytes c e ≡ ok raw
  unfolding report_bytes
  report_bytes_of_decoding e raw h l = rw (h, eq→== (length raw) report_size l)
