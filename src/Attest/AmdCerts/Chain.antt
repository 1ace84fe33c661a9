-- ===== src/Attest/AmdCerts/Chain.antt =====
-- Which certificate chains `vcek_verifying_key` accepts, and what it reads of them.
use sifir.Base.{
  List, ◌∷◌, ◌≡◌, ◌↔◌, true, some, inr, ok, attempt, map_err, ok_or, guard-eq-ok, >>=-ok_elim,
  attempt-eq-ok, ok_or-eq-ok, map_err-eq-ok, arith,
}
use sifir.Base.Slices.{index}
use sifir.Base.Text.{Bytes}
use sifir.Crates.{Crates}
use sifir.Attest.AmdCerts.{
  parse_cert, extract_p384_key, verify_cert_signature, verify_chain, vcek_verifying_key,
}

module _ (c : Crates) where
  open c use {Certificate, VerifyingKey, DerSignature}

  -- The certificate holds a P-384 key.
  pub record HasKey (cert : Certificate) (key : VerifyingKey) : Type 0 where
    pub bits : Bytes
    pub has_bits : c.public_key_bits cert ≡ some bits
    pub reads : c.key_from_sec1 bits ≡ inr key

  -- The certificate's signature verifies under the issuer's key.
  pub record IsSignedBy (key : VerifyingKey) (cert : Certificate) : Type 0 where
    pub tbs : Bytes
    pub has_tbs : c.tbs_to_der cert ≡ inr tbs
    pub bits : Bytes
    pub has_bits : c.signature_bits cert ≡ some bits
    pub sig : DerSignature
    pub reads : c.der_signature_try_from bits ≡ inr sig
    pub verifies : c.verify_der key tbs sig ≡ true

  -- A chain of three certificates, each signed by the key of the next and the last by its own.
  pub record IsChain (d0 d1 d2 : Bytes) (key : VerifyingKey) : Type 0 where
    pub vcek : Certificate
    pub ask : Certificate
    pub ark : Certificate
    pub vcek_parses : c.certificate_from_der d0 ≡ inr vcek
    pub ask_parses : c.certificate_from_der d1 ≡ inr ask
    pub ark_parses : c.certificate_from_der d2 ≡ inr ark
    pub ark_key : VerifyingKey
    pub ark_has_key : HasKey ark ark_key
    pub ask_key : VerifyingKey
    pub ask_has_key : HasKey ask ask_key
    pub vcek_has_key : HasKey vcek key
    pub ark_signed : IsSignedBy ark_key ark
    pub ask_signed : IsSignedBy ark_key ask
    pub vcek_signed : IsSignedBy ask_key vcek

  parse_cert_iff :
      (der : Bytes) (cert : Certificate)
      → (parse_cert c der ≡ ok cert) ↔ (c.certificate_from_der der ≡ inr cert)
  unfolding parse_cert
  parse_cert_iff der cert = ground arith

  pub extract_p384_key_iff :
      (cert : Certificate) (key : VerifyingKey)
      → (extract_p384_key c cert ≡ ok key) ↔ HasKey cert key
  unfolding extract_p384_key
  extract_p384_key_iff cert key = (
    λ h. >>=-ok_elim (ok_or _ (c.public_key_bits cert)) _ h λ bits a k. record {
      bits = bits;
      has_bits = ok_or-eq-ok _ _ a;
      reads = attempt-eq-ok _ _ k;
    },
    λ h. rw (h.has_bits, h.reads),
  )

  pub verify_cert_signature_iff :
      (cert : Certificate) (key : VerifyingKey)
      → (verify_cert_signature c cert key ≡ ok tt) ↔ IsSignedBy key cert
  unfolding verify_cert_signature
  verify_cert_signature_iff cert key = (
    λ h. >>=-ok_elim (attempt _ (c.tbs_to_der cert)) _ h λ tbs a h1.
        >>=-ok_elim (ok_or _ (c.signature_bits cert)) _ h1 λ bits b h2.
          >>=-ok_elim (attempt _ (c.der_signature_try_from bits)) _ h2 λ sig d h3. record {
            tbs = tbs;
            has_tbs = attempt-eq-ok _ _ a;
            bits = bits;
            has_bits = ok_or-eq-ok _ _ b;
            sig = sig;
            reads = attempt-eq-ok _ _ d;
            verifies = guard-eq-ok _ _ h3;
          },
    λ h. rw (h.has_tbs, h.has_bits, h.reads, h.verifies),
  )

  pub verify_chain-vcek :
      (d0 d1 d2 : Bytes) (rest : List Bytes)
      → vcek_verifying_key c (d0 ∷ d1 ∷ d2 ∷ rest) ≡ verify_chain c (d0 ∷ d1 ∷ d2 ∷ rest)
  unfolding vcek_verifying_key
  verify_chain-vcek d0 d1 d2 rest = ground arith

  module _ (d0 d1 d2 : Bytes) (rest : List Bytes) (key : VerifyingKey) where
    verify_chain-eq-ok : verify_chain c (d0 ∷ d1 ∷ d2 ∷ rest) ≡ ok key → IsChain d0 d1 d2 key
    unfolding verify_chain index
    verify_chain-eq-ok h = >>=-ok_elim (parse_cert c d0) _ h λ vcek p0 h1.
        >>=-ok_elim (parse_cert c d1) _ h1 λ ask p1 h2.
          >>=-ok_elim (parse_cert c d2) _ h2 λ ark p2 h3.
            >>=-ok_elim (extract_p384_key c ark) _ h3 λ ark_vk k2 h4.
              >>=-ok_elim (map_err _ (verify_cert_signature c ark ark_vk)) _ h4 λ _ s2 h5.
                >>=-ok_elim (map_err _ (verify_cert_signature c ask ark_vk)) _ h5 λ _ s1 h6.
                  >>=-ok_elim (extract_p384_key c ask) _ h6 λ ask_vk k1 h7.
                    >>=-ok_elim (map_err _ (verify_cert_signature c vcek ask_vk)) _ h7 λ _ s0 k0.
                      record {
                        vcek = vcek;
                        ask = ask;
                        ark = ark;
                        vcek_parses = (parse_cert_iff d0 vcek).0 p0;
                        ask_parses = (parse_cert_iff d1 ask).0 p1;
                        ark_parses = (parse_cert_iff d2 ark).0 p2;
                        ark_key = ark_vk;
                        ark_has_key = (extract_p384_key_iff ark ark_vk).0 k2;
                        ask_key = ask_vk;
                        ask_has_key = (extract_p384_key_iff ask ask_vk).0 k1;
                        vcek_has_key = (extract_p384_key_iff vcek key).0 k0;
                        ark_signed =
                            (verify_cert_signature_iff ark ark_vk).0 (map_err-eq-ok _ _ s2);
                        ask_signed =
                            (verify_cert_signature_iff ask ark_vk).0 (map_err-eq-ok _ _ s1);
                        vcek_signed =
                            (verify_cert_signature_iff vcek ask_vk).0 (map_err-eq-ok _ _ s0);
                      }

    verify_chain-IsChain : IsChain d0 d1 d2 key → verify_chain c (d0 ∷ d1 ∷ d2 ∷ rest) ≡ ok key
    unfolding verify_chain index
    verify_chain-IsChain h =
        rw
          (
            (parse_cert_iff d0 h.vcek).1 h.vcek_parses,
            (parse_cert_iff d1 h.ask).1 h.ask_parses,
            (parse_cert_iff d2 h.ark).1 h.ark_parses,
            (extract_p384_key_iff h.ark h.ark_key).1 h.ark_has_key,
            (verify_cert_signature_iff h.ark h.ark_key).1 h.ark_signed,
            (verify_cert_signature_iff h.ask h.ark_key).1 h.ask_signed,
            (extract_p384_key_iff h.ask h.ask_key).1 h.ask_has_key,
            (verify_cert_signature_iff h.vcek h.ask_key).1 h.vcek_signed,
          )
          ((extract_p384_key_iff h.vcek key).1 h.vcek_has_key)

    -- A chain of three or more certificates yields a key exactly when the key is the first one's,
    -- the first is signed by the second, and the second and the third by the third.
    pub vcek_verifying_key_iff :
        (vcek_verifying_key c (d0 ∷ d1 ∷ d2 ∷ rest) ≡ ok key) ↔ IsChain d0 d1 d2 key
    vcek_verifying_key_iff =
        rw (verify_chain-vcek d0 d1 d2 rest) (verify_chain-eq-ok, verify_chain-IsChain)
