-- ===== src/Server/Tls/Served.antt =====
-- What the certificate of a setup holds, as the client reads it.
use sifir.Base.{List, [], ◌∷◌, ◌++◌, ◌≡◌, ◌≢◌, refl, inr, inl, All, ok, >>=-ok_elim, attempt-eq-ok}
use sifir.Base.Text.{Bytes}
use sifir.Crates.{Crates, Serde, Extension}
use sifir.Attest.Payload.{AttestationExtension, attest_oid_arcs}
use sifir.Attest.Extension.{to_bytes}
use sifir.Client.Verifier.{or_empty}
use sifir.Client.Verifier.Trust.{IsFirst}
use sifir.Server.Kds.{context}
use sifir.Server.Tls.{Rcgen, extract_spki_der, build_server_cert}

-- What rcgen and rustls document: a self-signed certificate holds the public key of its key pair and
-- the custom extensions, behind others with other identifiers, and the server presents the
-- certificate that it is configured with.
pub record IsRcgen (c : Crates) (g : Rcgen) : Type 0 where
  pub spki : g.KeyPair → Bytes
  pub presented : g.ServerConfig → Bytes
  pub certificate_from_der-self_signed :
      (exts : List Extension) (k : g.KeyPair) (der : Bytes)
      → g.self_signed exts k ≡ inr der
      → (cert : c.Certificate) × (pre : List Extension) × (c.certificate_from_der der ≡ inr cert)
        × (c.spki_to_der cert ≡ inr (spki k))
        × (or_empty (c.extensions cert) ≡ pre ++ exts)
        × All (λ e. e.extn_id ≢ attest_oid_arcs) pre
  pub presented-with_single_cert :
      (der key : Bytes) (config : g.ServerConfig)
      → g.with_single_cert (der ∷ []) key ≡ inr config
      → presented config ≡ der

-- A certificate, as bytes, with the extension in it.
pub record Carries (c : Crates) (s : Serde AttestationExtension) (der spki : Bytes)
    (ext : AttestationExtension) : Type 0 where
  pub cert : c.Certificate
  pub parses : c.certificate_from_der der ≡ inr cert
  pub key : c.spki_to_der cert ≡ inr spki
  pub is_first :
      IsFirst attest_oid_arcs
        (record { extn_id = attest_oid_arcs; extn_value = to_bytes s ext })
        (or_empty (c.extensions cert))

IsFirst-append :
    (e : Extension) (pre : List Extension)
    → All (λ x. x.extn_id ≢ e.extn_id) pre
    → IsFirst e.extn_id e (pre ++ (e ∷ []))
IsFirst-append e [] h = inl (refl, refl)
IsFirst-append e (x ∷ pre) (ne, h) = inr (ne, IsFirst-append e pre h)

module _ (c : Crates) (g : Rcgen) (r : IsRcgen c g) where
  -- The key that is hashed is the key of the final certificate.
  pub extract_spki_der-eq-ok :
      (k : g.KeyPair) (spki : Bytes) → extract_spki_der c g k ≡ ok spki → spki ≡ r.spki k
  unfolding extract_spki_der
  extract_spki_der-eq-ok k spki h = >>=-ok_elim (context _ (g.self_signed [] k)) _ h λ temp a1 h1.
      let (cert, pre, p, q, _, _) =
        r.certificate_from_der-self_signed [] k temp (attempt-eq-ok _ _ a1) in
      >>=-ok_elim (context _ (c.certificate_from_der temp)) _ h1
        λ x509 a2 h2. cc (attempt-eq-ok _ _ a2, p, attempt-eq-ok _ _ h2, q)

  module _ (s : Serde AttestationExtension) where
    pub build_server_cert-eq-ok :
        (k : g.KeyPair) (ext : AttestationExtension) (config : g.ServerConfig)
        → build_server_cert c g s k ext ≡ ok config
        → Carries c s (r.presented config) (r.spki k) ext
    unfolding build_server_cert
    build_server_cert-eq-ok k ext config h =
        let e : Extension = record { extn_id = attest_oid_arcs; extn_value = to_bytes s ext } in
        >>=-ok_elim (context _ (g.self_signed (e ∷ []) k)) _ h λ der a1 h1.
          let (cert, pre, p, q, exts, others) =
            r.certificate_from_der-self_signed (e ∷ []) k der (attempt-eq-ok _ _ a1) in
          let shown =
            r.presented-with_single_cert der (g.serialized_der k) config (attempt-eq-ok _ _ h1) in
          record {
            cert = cert;
            parses = rw shown p;
            key = q;
            is_first = rw exts (IsFirst-append e pre others);
          }
