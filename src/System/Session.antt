-- ===== src/System/Session.antt =====
-- A run of the client against a certificate, with the handshake in between.
pub mod Served
use sifir.Base.{
  ℕ, some, ◌≡◌, ◌↔◌, ◌≢◌, ◌⊎◌, refl, sym, ap, ◌∙◌, inl, inr, ◌++◌, ok, err, panic, Outcome, ◌>>=◌,
  ◌>>◌, attempt, attempt-eq-ok, map_err-eq-ok, >>=-ok_elim, >>=-ne-panic, attempt-ne-panic, arith,
}
use sifir.Base.Text.{Str, Bytes, text}
use sifir.Crates.{Crates, Serde}
use sifir.Crates.Laws.{IsP384}
use sifir.Crates.Web.{Post, Reqwest}
use sifir.Attest.Payload.{AttestationExtension}
use sifir.Client.GpuVerify.{NvidiaClaims}
use sifir.Client.Verifier.{
  AttestationVerifier, CryptoProvider, WebPkiSupportedAlgorithms, TlsError, DigitallySignedStruct,
  verify_server_cert, verify_tls12_signature, verify_tls13_signature, new,
}
use sifir.Client.Verifier.NoPanic.{verify_server_cert-ne-panic}
use sifir.Client.Verifier.Trust.{IsTrusted, verify_server_cert_iff}
use sifir.Client.Request.{Codec, GenerateResponse, generate}
use sifir.Client.Main.{Args, build_verifier, parse_measurement, main}

pub data TlsVersion : Type 0 where
  tls12 tls13 : TlsVersion

-- What the server shows in a handshake of this version: its certificate, and its signature of the
-- transcript.
pub record Hello : Type 0 where
  pub version : TlsVersion
  pub cert : Bytes
  pub transcript : Bytes
  pub signature : DigitallySignedStruct

-- The method of the verifier that rustls calls for the signature in a handshake of this version.
abbrev pub verify_signature :
    TlsVersion → AttestationVerifier → Bytes → Bytes → DigitallySignedStruct → TlsError ⊎ Unit {0}
verify_signature tls12 self = verify_tls12_signature self
verify_signature tls13 self = verify_tls13_signature self

-- The crypto provider accepts the signature for the certificate, by its own check for the version.
abbrev pub IsSignedBy :
    TlsVersion → WebPkiSupportedAlgorithms → Bytes → Bytes → DigitallySignedStruct → Type 0
IsSignedBy tls12 algorithms message cert dss =
    algorithms.verify_tls12_signature message cert dss ≡ inr tt
IsSignedBy tls13 algorithms message cert dss =
    algorithms.verify_tls13_signature message cert dss ≡ inr tt

abbrev pub IsSigned : CryptoProvider → Hello → Type 0
IsSigned provider h =
    IsSignedBy h.version provider.signature_verification_algorithms h.transcript h.cert h.signature

module _ (c : Crates) (provider : CryptoProvider) (args : Args) (self : AttestationVerifier)
    (built : build_verifier c provider args ≡ ok self) where
  build_verifier-provider : self.crypto_provider ≡ provider
  unfolding build_verifier new
  build_verifier-provider =
      >>=-ok_elim (parse_measurement c args.expected_measurement) _ built λ m _ d. cc d

  -- The provider that checks the signature is the one that the verifier is built with.
  pub verify_signature_iff :
      (version : TlsVersion) (message cert : Bytes) (dss : DigitallySignedStruct)
      → (verify_signature version self message cert dss ≡ inr tt)
        ↔ IsSignedBy version provider.signature_verification_algorithms message cert dss
  unfolding verify_tls12_signature verify_tls13_signature
  verify_signature_iff tls12 message cert dss =
      let p = build_verifier-provider in (λ e. rw p at e, λ e. rw p e)
  verify_signature_iff tls13 message cert dss =
      let p = build_verifier-provider in (λ e. rw p at e, λ e. rw p e)

module _ (c : Crates) (s : Serde AttestationExtension)
    (from_slice : Bytes → Str ⊎ NvidiaClaims) where
  -- The calls of the verifier in a handshake, in the order in which rustls makes them.
  abbrev pub handshake : Hello → AttestationVerifier → Outcome TlsError (Unit {0})
  handshake h self = do
    verify_server_cert c s from_slice self h.cert
    attempt (λ e. e) (verify_signature h.version self h.transcript h.cert h.signature)

  -- What rustls and reqwest document: the HTTP client that is built with a verifier sends its
  -- requests over connections whose handshake the verifier accepts, as `client` does, and fails to
  -- send one otherwise.
  pub record IsTls (h : Hello) (build : AttestationVerifier → Str ⊎ Reqwest) (client : Reqwest)
      : Type 0 where
    pub accepted : (self : AttestationVerifier) → handshake h self ≡ ok tt → build self ≡ inr client
    pub refused :
        (self : AttestationVerifier) (e : TlsError)
        → handshake h self ≡ err e
        → (failing : Reqwest) × (build self ≡ inr failing)
          × ((p : Post) → (x : Str) × (failing.send p ≡ inl x))

  generate_unsent :
      (j : Codec) (client : Reqwest) (base_url prompt : Str) (max_tokens : ℕ)
      → ((p : Post) → (x : Str) × (client.send p ≡ inl x))
      → (x : Str) × (generate j client base_url prompt max_tokens ≡ err x)
  unfolding generate
  generate_unsent j client base_url prompt max_tokens fails =
      let (x, e) = fails (record {
        url = base_url ++ text "/v1/generate";
        content_type = some (text "application/json");
        body = j.to_vec (record { prompt = prompt; max_tokens = max_tokens });
      }) in
      (x, rw e refl)

  module _ (provider : CryptoProvider) (j : Codec) (build : AttestationVerifier → Str ⊎ Reqwest)
      (h : Hello) (client : Reqwest) (tls : IsTls h build client) (args : Args)
      (self : AttestationVerifier) (built : build_verifier c provider args ≡ ok self) where
    -- A client that refuses the handshake, for the certificate or for the signature, ends without a
    -- response, with the error for a failed request.
    pub main_refused :
        (e : TlsError)
        → handshake h self ≡ err e
        → main c provider j build args ≡ err (text "inference request failed")
    unfolding main
    main_refused e refused =
        let (failing, b, fails) = tls.refused self e refused in
        let (x, g) =
          generate_unsent j failing (text "https://" ++ args.server) args.prompt args.max_tokens
            fails in
        rw (built, b, g) refl

    -- A client that accepts the handshake makes its request to the server.
    pub main_accepted :
        (resp : GenerateResponse)
        → handshake h self ≡ ok tt
        → generate j client (text "https://" ++ args.server) args.prompt args.max_tokens ≡ ok resp
        → main c provider j build args ≡ ok resp
    unfolding main
    main_accepted resp accepted g = rw (built, tls.accepted self accepted, g) refl

    handshake-ne-panic : IsP384 c → handshake h self ≢ panic
    handshake-ne-panic p =
        >>=-ne-panic (verify_server_cert c s from_slice self h.cert) _
          (verify_server_cert-ne-panic c s from_slice p self h.cert) (λ _ _. attempt-ne-panic _ _)

    accepted_of :
        (o : Outcome TlsError (Unit {0})) (resp : GenerateResponse)
        → IsP384 c
        → handshake h self ≡ o
        → main c provider j build args ≡ ok resp
        → handshake h self ≡ ok tt
    accepted_of (ok tt) resp p e m = e
    accepted_of (err x) resp p e m = let r = main_refused x e in cc
    accepted_of panic resp p e m = absurd (handshake-ne-panic p e)

    main-ok-IsTrusted :
        IsP384 c
        → (resp : GenerateResponse) → main c provider j build args ≡ ok resp
        → IsTrusted c s from_slice self h.cert
          × (verify_signature h.version self h.transcript h.cert h.signature ≡ inr tt)
    main-ok-IsTrusted p resp m =
        >>=-ok_elim (verify_server_cert c s from_slice self h.cert) _
          (accepted_of (handshake h self) resp p refl m)
          λ _ a b. ((verify_server_cert_iff c s from_slice self h.cert).0 a, attempt-eq-ok _ _ b)

  -- The client has a response only from a server whose certificate the verifier for its arguments
  -- trusts, and whose signature of the handshake the crypto provider accepts for that
  -- certificate, by its check for TLS 1.2 or for TLS 1.3 as the handshake's version is, if the
  -- HTTP client makes its requests over handshakes that its verifier accepts and fails otherwise,
  -- and the P-384 package keeps its laws.
  pub main-IsTrusted :
      IsP384 c
      → (provider : CryptoProvider) (j : Codec) (build : AttestationVerifier → Str ⊎ Reqwest)
        (h : Hello) (client : Reqwest) (args : Args) (resp : GenerateResponse)
      → IsTls h build client
      → main c provider j build args ≡ ok resp
      → (self : AttestationVerifier) × (build_verifier c provider args ≡ ok self)
        × IsTrusted c s from_slice self h.cert
        × IsSigned provider h
  unfolding main
  main-IsTrusted p provider j build h client args resp tls m =
      >>=-ok_elim (build_verifier c provider args) _ m λ self built _.
        let (trusted, signed) =
          main-ok-IsTrusted provider j build h client tls args self built p resp m in
        (
          self,
          built,
          trusted,
          (verify_signature_iff c provider args self built h.version h.transcript h.cert
                h.signature).0
              signed,
        )
