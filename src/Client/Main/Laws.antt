-- ===== src/Client/Main/Laws.antt =====
-- Which measurements the client accepts as an argument.
use sifir.Base.{
  ℕ, ◌≡◌, ◌↔◌, ◌∙◌, ap, inr, ok, attempt, length, replicate, length-replicate, arith, ==_iff, eq→==,
  Bool-cases, inl, ◌==◌, >>=-ok_elim, attempt-eq-ok, Bool, ◌++◌, ◌⊎◌, ok-injective, map_err-eq-ok,
}
use sifir.Base.Slices.{copy_from_slice, copy_from_slice_lem, patch_whole}
use sifir.Base.Text.{Str, Bytes, text}
use sifir.Base.Text.Lines.{trim, trim_lem}
use sifir.Crates.{Crates}
use sifir.Crates.Laws.{IsHex}
use sifir.Client.Verifier.{AttestationVerifier, VerifierMode, CryptoProvider, new}
use sifir.Crates.Web.{Reqwest}
use sifir.Client.Request.{Codec, GenerateResponse, generate}
use sifir.Client.Main.{main, Args, parse_measurement, build_verifier, mode_of}

pub copied : (b : Bytes) → length b ≡ 48 → copy_from_slice {E = Str} (replicate 48 0) 0 48 b ≡ ok b
copied b l =
    let z : length (replicate {A = ℕ} 48 0) ≡ 48 = length-replicate 48 0 in
    copy_from_slice_lem (replicate 48 0) 0 48 b (omega arith) (omega arith) (omega arith)
    ∙ ap ok (patch_whole b (replicate 48 0) (omega arith))

module _ (c : Crates) where
  -- A text is accepted as the expected measurement exactly when it is, without the white space
  -- around it, hexadecimal text of 48 bytes; the measurement is those bytes.
  pub parse_measurement_iff :
      (s : Str) (m : Bytes)
      → (parse_measurement c s ≡ ok m) ↔ ((c.hex_decode (trim s) ≡ inr m) × (length m ≡ 48))
  unfolding parse_measurement
  parse_measurement_iff s m = (
    λ h. >>=-ok_elim (attempt _ (c.hex_decode (trim s))) _ h λ b a h1.
        let d = attempt-eq-ok _ _ a in
        elim (Bool-cases (length b == 48)) [
          | inl sized ↦
              let l : length b ≡ 48 = (==_iff (length b) 48).0 sized in
              let e = rw (sized, copied b l) at h1 in ground (arith)
          | inr other ↦ cc (rw other at h1)
        ],
    λ (d, l). rw (d, eq→== (length m) 48 l, copied m l),
  )

  -- The hexadecimal text that the package makes of 48 bytes is read as those bytes, if the
  -- package keeps its laws.
  pub parse_measurement-hex_encode :
      IsHex c → (m : Bytes) → length m ≡ 48 → parse_measurement c (c.hex_encode m) ≡ ok m
  parse_measurement-hex_encode x m l = (parse_measurement_iff (c.hex_encode m) m).1 (
    ap c.hex_decode (trim_lem (c.hex_encode m) (x.IsSolid-hex_encode m))
        ∙ x.hex_decode-hex_encode m,
    l,
  )

  -- The verifier of a client with this text as its measurement.
  pub build_verifier-hex_encode :
      IsHex c
      → (provider : CryptoProvider) (args : Args) (m : Bytes) (mode : VerifierMode)
        (asks_gpu : Bool)
      → args.expected_measurement ≡ c.hex_encode m
      → length m ≡ 48
      → mode_of args.amd ≡ mode
      → args.gpu_cc ≡ asks_gpu
      → build_verifier c provider args ≡ ok (new m mode asks_gpu provider)
  unfolding build_verifier
  build_verifier-hex_encode x provider args m mode asks_gpu e l em eg =
      rw (e, parse_measurement-hex_encode x m l, em, eg)

  -- The client has a response exactly when its measurement is hexadecimal text of 48 bytes, the
  -- HTTP client is built with the verifier for that measurement and the flags, and the request
  -- through this HTTP client yields the response.
  pub main_iff :
      (provider : CryptoProvider) (j : Codec) (build : AttestationVerifier → Str ⊎ Reqwest)
      (args : Args) (resp : GenerateResponse)
      → (main c provider j build args ≡ ok resp) ↔ (
          (m : Bytes) × (client : Reqwest) × (c.hex_decode (trim args.expected_measurement) ≡ inr m)
          × (length m ≡ 48)
          × (build (new m (mode_of args.amd) args.gpu_cc provider) ≡ inr client)
          × (generate j client (text "https://" ++ args.server) args.prompt args.max_tokens
              ≡ ok resp))
  unfolding main build_verifier
  main_iff provider j build args resp = (
    λ h. >>=-ok_elim (build_verifier c provider args) _ h λ v a h1.
        >>=-ok_elim (parse_measurement c args.expected_measurement) _ a λ m a1 e.
          >>=-ok_elim (attempt _ (build v)) _ h1 λ client b h2.
            let (d, l) = (parse_measurement_iff args.expected_measurement m).0 a1 in
            let same : new m (mode_of args.amd) args.gpu_cc provider ≡ v = ok-injective e in
            (m, client, d, l, ap build same ∙ attempt-eq-ok _ _ b, map_err-eq-ok _ _ h2),
    λ (m, client, d, l, b, g).
        rw ((parse_measurement_iff args.expected_measurement m).1 (d, l), b, g),
  )
