-- ===== src/Client/GpuVerify/Laws.antt =====
-- Which tokens `verify_gpu_jwt` accepts, and which parts of them it never looks at.
use sifir.Base.{
  List, [], ◌∷◌, ◌++◌, Option, none, some, ◌⊎◌, inr, ◌≡◌, ◌↔◌, refl, ap, ◌∙◌, ===_iff, arith, ok,
  attempt, >>=-ok_elim, >>=-eq-ok, attempt-eq-ok,
}
use sifir.Base.Slices.{index}
use sifir.Base.Text.{Str, Bytes, text, split, to_lowercase, Lacks, split-append, split-Lacks}
use sifir.Crates.{Crates}
use sifir.Crates.Laws.{IsHex}
use sifir.Client.GpuVerify.{
  GpuClaims, NvidiaClaims, check_claims, verify_gpu_jwt, base64_url_decode,
}

module _ (c : Crates) where
  -- Claims that are bound to the TLS key, with confidential computing on.
  pub record IsBound (claims : NvidiaClaims) (pubkey : Bytes) (result : GpuClaims) : Type 0 where
    pub nonce : claims.nonce ≡ some (c.hex_encode (c.sha256 pubkey))
    pub cc_mode : claims.cc_mode ≡ some result.cc_mode
    pub cc_on : to_lowercase result.cc_mode ≡ text "on"
    pub gpu_model : claims.gpu_model ≡ some result.gpu_model

  check_claims_cases :
      (n m g : Option Str) (pubkey : Bytes) (result : GpuClaims)
      → (check_claims c (record { nonce = n; cc_mode = m; gpu_model = g }) pubkey ≡ ok result) ↔ (
          (n ≡ some (c.hex_encode (c.sha256 pubkey)))
          × (m ≡ some result.cc_mode)
          × (to_lowercase result.cc_mode ≡ text "on")
          × (g ≡ some result.gpu_model))
  unfolding check_claims
  check_claims_cases none m g pubkey result = ground arith
  check_claims_cases (some n) none g pubkey result =
      ground (arith, ===_iff n (c.hex_encode (c.sha256 pubkey)))
  check_claims_cases (some n) (some m) none pubkey result =
      ground
        (arith, ===_iff n (c.hex_encode (c.sha256 pubkey)), ===_iff (to_lowercase m) (text "on"))
  check_claims_cases (some n) (some m) (some g) pubkey result =
      ground
        (arith, ===_iff n (c.hex_encode (c.sha256 pubkey)), ===_iff (to_lowercase m) (text "on"))

  check_claims_iff :
      (claims : NvidiaClaims) (pubkey : Bytes) (result : GpuClaims)
      → (check_claims c claims pubkey ≡ ok result) ↔ IsBound claims pubkey result
  check_claims_iff claims pubkey result =
      let both = check_claims_cases claims.nonce claims.cc_mode claims.gpu_model pubkey result in
      (
        λ h.
            let (a, b, d, e) = both.0 h in
            record { nonce = a; cc_mode = b; cc_on = d; gpu_model = e },
        λ h. both.1 (h.nonce, h.cc_mode, h.cc_on, h.gpu_model),
      )

  module _ (from_slice : Bytes → Str ⊎ NvidiaClaims) where
    -- The token has three parts, and the middle one decodes to claims that are bound to the key.
    pub record IsValidJwt (jwt : Str) (pubkey : Bytes) (result : GpuClaims) : Type 0 where
      pub header : Str
      pub payload : Str
      pub signature : Str
      pub three_parts : split b'.' jwt ≡ header ∷ payload ∷ signature ∷ []
      pub payload_bytes : Bytes
      pub decodes : c.b64_url_decode payload ≡ inr payload_bytes
      pub claims : NvidiaClaims
      pub parses : from_slice payload_bytes ≡ inr claims
      pub bound : IsBound claims pubkey result

    module _ (jwt : Str) (pubkey : Bytes) (result : GpuClaims) where
      verify_gpu_jwt-IsValidJwt :
          IsValidJwt jwt pubkey result → verify_gpu_jwt c from_slice jwt pubkey ≡ ok result
      unfolding verify_gpu_jwt base64_url_decode index
      verify_gpu_jwt-IsValidJwt v =
          rw (v.three_parts, v.decodes, v.parses)
            ((check_claims_iff v.claims pubkey result).1 v.bound)

      of_parts :
          (parts : List Str)
          → split b'.' jwt ≡ parts
          → verify_gpu_jwt c from_slice jwt pubkey ≡ ok result
          → IsValidJwt jwt pubkey result
      unfolding verify_gpu_jwt base64_url_decode index
      of_parts [] e h = cc (rw e at h)
      of_parts (a ∷ []) e h = cc (rw e at h)
      of_parts (a ∷ b ∷ []) e h = cc (rw e at h)
      of_parts (a ∷ b ∷ d ∷ []) e h =
          let (bytes, x, h1) = >>=-eq-ok (attempt _ (c.b64_url_decode b)) _ (rw e at h) in
          >>=-ok_elim (attempt _ (from_slice bytes)) _ h1 λ claims y h2. record {
            header = a;
            payload = b;
            signature = d;
            three_parts = e;
            payload_bytes = bytes;
            decodes = attempt-eq-ok _ _ x;
            claims = claims;
            parses = attempt-eq-ok _ _ y;
            bound = (check_claims_iff claims pubkey result).0 h2;
          }
      of_parts (a ∷ b ∷ d ∷ f ∷ r) e h = ground (arith, e)

      -- A GPU token is accepted with a result exactly when it has three parts, the middle one
      -- decodes to claims whose nonce is the hexadecimal hash of the TLS key, whose mode is on in
      -- any case, and whose model is present.
      pub verify_gpu_jwt_iff :
          (verify_gpu_jwt c from_slice jwt pubkey ≡ ok result) ↔ IsValidJwt jwt pubkey result
      verify_gpu_jwt_iff = (of_parts (split b'.' jwt) refl, verify_gpu_jwt-IsValidJwt)

  hex_injective : IsHex c → (a b : Bytes) → c.hex_encode a ≡ c.hex_encode b → a ≡ b
  hex_injective x a b e = cc (e, x.hex_decode-hex_encode a, x.hex_decode-hex_encode b)

  module _ (from_slice : Bytes → Str ⊎ NvidiaClaims) where
    -- One token is accepted for two TLS keys only if the keys have the same SHA-256 digest, if
    -- hexadecimal text is decoded to what was encoded.
    pub verify_gpu_jwt_bound :
        IsHex c
        → (jwt : Str) (pubkey pubkey' : Bytes) (result result' : GpuClaims)
        → verify_gpu_jwt c from_slice jwt pubkey ≡ ok result
        → verify_gpu_jwt c from_slice jwt pubkey' ≡ ok result'
        → c.sha256 pubkey ≡ c.sha256 pubkey'
    verify_gpu_jwt_bound x jwt pubkey pubkey' result result' h h' =
        let v = (verify_gpu_jwt_iff from_slice jwt pubkey result).0 h in
        let w = (verify_gpu_jwt_iff from_slice jwt pubkey' result').0 h' in
        let same : v.claims ≡ w.claims =
          cc (v.three_parts, w.three_parts, v.decodes, w.decodes, v.parses, w.parses) in
        hex_injective x (c.sha256 pubkey) (c.sha256 pubkey')
          (cc (v.bound.nonce, w.bound.nonce, ap (λ (k : NvidiaClaims). k.nonce) same))

    abbrev pub token : (header payload signature : Str) → Str
    token header payload signature = header ++ (b'.' ∷ (payload ++ (b'.' ∷ signature)))

    pub split-token :
        (header payload signature : Str)
        → Lacks b'.' header
        → Lacks b'.' payload
        → Lacks b'.' signature
        → split b'.' (token header payload signature) ≡ header ∷ payload ∷ signature ∷ []
    split-token header payload signature a b d =
        split-append b'.' header (payload ++ (b'.' ∷ signature)) a
        ∙ ap (λ r. header ∷ r)
            (split-append b'.' payload signature b
              ∙ ap (λ r. payload ∷ r) (split-Lacks b'.' signature d))

    -- The header and the signature of a token have no influence on the result of its check: any
    -- others without a dot give the same.
    pub verify_gpu_jwt_unsigned :
        (header header' payload signature signature' : Str) (pubkey : Bytes)
        → Lacks b'.' header
        → Lacks b'.' header'
        → Lacks b'.' payload
        → Lacks b'.' signature
        → Lacks b'.' signature'
        → verify_gpu_jwt c from_slice (token header payload signature) pubkey
          ≡ verify_gpu_jwt c from_slice (token header' payload signature') pubkey
    unfolding verify_gpu_jwt index
    verify_gpu_jwt_unsigned header header' payload signature signature' pubkey a a' b d d' =
        rw (
          split-token header payload signature a b d,
          split-token header' payload signature' a' b d',
        )
