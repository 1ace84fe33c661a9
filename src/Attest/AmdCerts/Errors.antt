-- ===== src/Attest/AmdCerts/Errors.antt =====
-- How `vcek_verifying_key` fails.
use sifir.Base.{
  suc, List, [], ◌∷◌, ◌≡◌, ◌⊎◌, inl, inr, Option, none, some, Bool, true, false, Outcome, ok, err,
  panic, ◌>>=◌, attempt, map_err, ok_or, guard, length, arith, ltb,
}
use sifir.Base.Slices.{index}
use sifir.Base.Text.{Str, Bytes}
use sifir.Crates.{Crates}
use sifir.Attest.Error.{
  VerifyError, cert_chain, wrong_length, bad_signature, key_binding_mismatch, measurement_mismatch,
  internal,
}
use sifir.Attest.AmdCerts.{
  parse_cert, extract_p384_key, verify_cert_signature, verify_chain, vcek_verifying_key,
}

-- No panic, and no error of another kind than `CertChain`.
abbrev pub FailsByChain : {A : Type 0} → Outcome VerifyError A → Type 0
FailsByChain (ok a) = Unit
FailsByChain (err (cert_chain s)) = Unit
FailsByChain _ = ⊥

module _ {A B : Type 0} where
  FailsByChain-bind :
      (m : Outcome VerifyError A) (f : A → Outcome VerifyError B)
      → FailsByChain m
      → ((a : A) → FailsByChain (f a))
      → FailsByChain (m >>= f)
  FailsByChain-bind (ok a) f h k = k a
  FailsByChain-bind (err (cert_chain s)) f h k = tt
  FailsByChain-bind (err (wrong_length n)) f h k = elim h [ ]
  FailsByChain-bind (err bad_signature) f h k = elim h [ ]
  FailsByChain-bind (err (key_binding_mismatch r s)) f h k = elim h [ ]
  FailsByChain-bind (err (measurement_mismatch e a)) f h k = elim h [ ]
  FailsByChain-bind (err (internal s)) f h k = elim h [ ]
  FailsByChain-bind panic f h k = elim h [ ]

module _ {A : Type 0} where
  FailsByChain-attempt :
      (g : Str → Str) (r : Str ⊎ A) → FailsByChain (attempt (λ e. cert_chain (g e)) r)
  FailsByChain-attempt g (inl e) = tt
  FailsByChain-attempt g (inr a) = tt

  FailsByChain-ok_or : (s : Str) (o : Option A) → FailsByChain (ok_or (cert_chain s) o)
  FailsByChain-ok_or s none = tt
  FailsByChain-ok_or s (some a) = tt

  FailsByChain-map_err :
      (g : VerifyError → Str) (m : Outcome VerifyError A)
      → FailsByChain m
      → FailsByChain (map_err (λ e. cert_chain (g e)) m)
  FailsByChain-map_err g (ok a) h = tt
  FailsByChain-map_err g (err e) h = tt
  FailsByChain-map_err g panic h = elim h [ ]

FailsByChain-guard : (s : Str) (b : Bool) → FailsByChain (guard (cert_chain s) b)
FailsByChain-guard s true = tt
FailsByChain-guard s false = tt

module _ (c : Crates) where
  open c use {Certificate, VerifyingKey}

  parse_cert-FailsByChain : (der : Bytes) → FailsByChain (parse_cert c der)
  unfolding parse_cert
  parse_cert-FailsByChain der = FailsByChain-attempt _ (c.certificate_from_der der)

  extract_p384_key-FailsByChain : (cert : Certificate) → FailsByChain (extract_p384_key c cert)
  unfolding extract_p384_key
  extract_p384_key-FailsByChain cert =
      FailsByChain-bind (ok_or _ (c.public_key_bits cert)) _ (FailsByChain-ok_or _ _)
        λ bits. FailsByChain-attempt _ (c.key_from_sec1 bits)

  verify_cert_signature-FailsByChain :
      (cert : Certificate) (key : VerifyingKey) → FailsByChain (verify_cert_signature c cert key)
  unfolding verify_cert_signature
  verify_cert_signature-FailsByChain cert key =
      FailsByChain-bind (attempt _ (c.tbs_to_der cert)) _ (FailsByChain-attempt _ _) λ tbs.
        FailsByChain-bind (ok_or _ (c.signature_bits cert)) _ (FailsByChain-ok_or _ _) λ bits.
          FailsByChain-bind (attempt _ (c.der_signature_try_from bits)) _ (FailsByChain-attempt _ _)
            λ sig. FailsByChain-guard _ (c.verify_der key tbs sig)

  verify_chain-FailsByChain :
      (d0 d1 d2 : Bytes) (rest : List Bytes) → FailsByChain (verify_chain c (d0 ∷ d1 ∷ d2 ∷ rest))
  unfolding verify_chain index
  verify_chain-FailsByChain d0 d1 d2 rest =
      FailsByChain-bind (parse_cert c d0) _ (parse_cert-FailsByChain d0) λ vcek.
        FailsByChain-bind (parse_cert c d1) _ (parse_cert-FailsByChain d1) λ ask.
          FailsByChain-bind (parse_cert c d2) _ (parse_cert-FailsByChain d2) λ ark.
            FailsByChain-bind (extract_p384_key c ark) _ (extract_p384_key-FailsByChain ark)
              λ ark_vk.
                FailsByChain-bind (map_err _ (verify_cert_signature c ark ark_vk)) _
                  (FailsByChain-map_err _ _ (verify_cert_signature-FailsByChain ark ark_vk))
                  λ _.
                    FailsByChain-bind (map_err _ (verify_cert_signature c ask ark_vk)) _
                      (FailsByChain-map_err _ _ (verify_cert_signature-FailsByChain ask ark_vk))
                      λ _.
                        FailsByChain-bind (extract_p384_key c ask) _
                          (extract_p384_key-FailsByChain ask)
                          λ ask_vk.
                            FailsByChain-bind (map_err _ (verify_cert_signature c vcek ask_vk)) _
                              (FailsByChain-map_err _ _
                                (verify_cert_signature-FailsByChain vcek ask_vk))
                              λ _. extract_p384_key-FailsByChain vcek

  -- Whatever a chain holds, and however short it is, reading its key neither panics nor fails
  -- with an error of another kind than CertChain.
  pub vcek_verifying_key-FailsByChain :
      (chain : List Bytes) → FailsByChain (vcek_verifying_key c chain)
  unfolding vcek_verifying_key
  vcek_verifying_key-FailsByChain [] = tt
  vcek_verifying_key-FailsByChain (d0 ∷ []) = tt
  vcek_verifying_key-FailsByChain (d0 ∷ d1 ∷ []) = tt
  vcek_verifying_key-FailsByChain (d0 ∷ d1 ∷ d2 ∷ rest) =
      let e : ltb (suc (suc (suc (length rest)))) 3 ≡ false = ground arith in
      rw e (verify_chain-FailsByChain d0 d1 d2 rest)
