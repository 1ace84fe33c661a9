-- ===== src/Client/GpuVerify/Tests.antt =====
-- The unit tests of poc/crates/sifir-client/src/gpu_verify.rs.
use sifir.Base.{
  ===_self, ===_ne, ◌≡◌, ◌≢◌, refl, sym, ◌∙◌, ap, inr, ◌⊎◌, ok, some, ◌>>=◌, ◌>>◌, Bool, true,
  false, ◌∷◌, ◌++◌, ◌===◌, Test, assert, unwrap, unwrap_err, length, arith,
}
use sifir.Base.Slices.{index}
use sifir.Base.Text.{Str, Bytes, text, split, to_lowercase, Lacks}
use sifir.Crates.{Crates}
use sifir.Crates.Laws.{IsHex, IsSha2}
use sifir.Client.GpuVerify.{
  GpuVerifyError, malformed_jwt, nonce_mismatch, cc_mode_not_on, NvidiaClaims, verify_gpu_jwt,
  check_claims, base64_url_decode,
}
use sifir.Client.GpuVerify.Laws.{split-token}

-- `matches!(err, GpuVerifyError::NonceMismatch { .. })`, and so on
abbrev is_nonce_mismatch : GpuVerifyError → Bool
is_nonce_mismatch (nonce_mismatch e g) = true
is_nonce_mismatch _ = false

abbrev is_cc_mode_not_on : GpuVerifyError → Bool
is_cc_mode_not_on (cc_mode_not_on g) = true
is_cc_mode_not_on _ = false

abbrev is_malformed_jwt : GpuVerifyError → Bool
is_malformed_jwt (malformed_jwt e) = true
is_malformed_jwt _ = false

lower_on : (to_lowercase (text "on") === text "on") ≡ true
unfolding to_lowercase text ◌===◌
lower_on = refl

lower_off : (to_lowercase (text "off") === text "on") ≡ false
unfolding to_lowercase text ◌===◌
lower_off = refl

six : length (text "aabbcc") ≡ 6
unfolding text
six = refl

-- The tests write a token: `json` is `serde_json::json!` with `to_string`, `url_encode` is base64's
-- `URL_SAFE_NO_PAD.encode`.
module _ (c : Crates) (from_slice : Bytes → Str ⊎ NvidiaClaims) (json : NvidiaClaims → Bytes)
    (url_encode : Bytes → Str) where
  abbrev header : Bytes
  header = text "{\"alg\":\"RS256\",\"kid\":\"test\"}"

  abbrev payload : Str → Str → Str → NvidiaClaims
  payload nonce cc_mode gpu_model = record {
    nonce = some nonce;
    cc_mode = some cc_mode;
    gpu_model = some gpu_model;
  }

  unfoldable make_jwt : Str → Str → Str → Str
  make_jwt nonce cc_mode gpu_model =
      let h = url_encode header in
      let p = url_encode (json (payload nonce cc_mode gpu_model)) in
      h ++ (b'.' ∷ (p ++ (b'.' ∷ text "fakesig")))

  unfoldable expected_nonce : Bytes → Str
  expected_nonce spki = c.hex_encode (c.sha256 spki)

  unfoldable valid_gpu_jwt_passes : Test
  valid_gpu_jwt_passes = do
    let spki = text "fake-spki-der"
    let nonce = expected_nonce spki
    let jwt = make_jwt nonce (text "on") (text "H100")
    claims ← unwrap (verify_gpu_jwt c from_slice jwt spki)
    assert (claims.gpu_model === text "H100")
    assert (claims.cc_mode === text "on")

  unfoldable wrong_nonce_rejected : Test
  wrong_nonce_rejected = do
    let spki = text "fake-spki-der"
    let jwt = make_jwt (text "aabbcc") (text "on") (text "H100")
    e ← unwrap_err (verify_gpu_jwt c from_slice jwt spki)
    assert (is_nonce_mismatch e)

  unfoldable cc_mode_off_rejected : Test
  cc_mode_off_rejected = do
    let spki = text "fake-spki-der"
    let nonce = expected_nonce spki
    let jwt = make_jwt nonce (text "off") (text "H100")
    e ← unwrap_err (verify_gpu_jwt c from_slice jwt spki)
    assert (is_cc_mode_not_on e)

  unfoldable malformed_jwt_rejected : Test
  malformed_jwt_rejected = do
    e ← unwrap_err (verify_gpu_jwt c from_slice (text "not.a.valid.jwt.parts") (text "spki"))
    assert (is_malformed_jwt e)

  malformed_test_passes : malformed_jwt_rejected ≡ ok tt
  unfolding malformed_jwt_rejected verify_gpu_jwt split text
  malformed_test_passes = refl

  -- The encodings are read back, and base64 text has no dot.
  module _ (json_read : (k : NvidiaClaims) → from_slice (json k) ≡ inr k)
      (url_read : (b : Bytes) → c.b64_url_decode (url_encode b) ≡ inr b)
      (no_dot : (b : Bytes) → Lacks b'.' (url_encode b)) where
    fakesig-Lacks : Lacks b'.' (text "fakesig")
    unfolding text
    fakesig-Lacks = ground arith

    -- A token of the tests comes to the check of its claims.
    verify_gpu_jwt-make_jwt :
        (nonce cc_mode gpu_model : Str) (spki : Bytes)
        → verify_gpu_jwt c from_slice (make_jwt nonce cc_mode gpu_model) spki
          ≡ check_claims c (payload nonce cc_mode gpu_model) spki
    unfolding verify_gpu_jwt make_jwt index base64_url_decode
    verify_gpu_jwt-make_jwt nonce cc_mode gpu_model spki =
        let p : Bytes = json (payload nonce cc_mode gpu_model) in
        let parts =
          split-token c from_slice (url_encode header) (url_encode p) (text "fakesig")
            (no_dot header) (no_dot p) fakesig-Lacks in
        rw (parts, url_read, json_read) refl

    valid_test_passes : valid_gpu_jwt_passes ≡ ok tt
    unfolding valid_gpu_jwt_passes expected_nonce check_claims
    valid_test_passes =
        let nonce : Str = c.hex_encode (c.sha256 (text "fake-spki-der")) in
        rw (
          verify_gpu_jwt-make_jwt,
          ===_self nonce,
          lower_on,
          ===_self (text "H100"),
          ===_self (text "on"),
        )

    -- Six characters are not the hexadecimal form of a digest.
    nonce_test_passes : IsHex c → IsSha2 c → wrong_nonce_rejected ≡ ok tt
    unfolding wrong_nonce_rejected check_claims
    nonce_test_passes x h =
        let nonce : Str = c.hex_encode (c.sha256 (text "fake-spki-der")) in
        let size : length nonce ≡ 64 = omega (
          arith,
          x.length-hex_encode (c.sha256 (text "fake-spki-der")),
          h.length-sha256 (text "fake-spki-der"),
        ) in
        let other : text "aabbcc" ≢ nonce = λ e. omega (arith, size, sym (ap length e) ∙ six) in
        rw (verify_gpu_jwt-make_jwt, ===_ne (text "aabbcc") nonce other)

    off_test_passes : cc_mode_off_rejected ≡ ok tt
    unfolding cc_mode_off_rejected expected_nonce check_claims
    off_test_passes =
        let nonce : Str = c.hex_encode (c.sha256 (text "fake-spki-der")) in
        rw (verify_gpu_jwt-make_jwt, ===_self nonce, lower_off)
