-- ===== src/Examples/Rcgen.antt =====
-- Small functions in place of rcgen and the server's configuration.
use sifir.Base.{
  ℕ, ◌+◌, ◌∙◌, ◌≡◌, refl, List, [], ◌∷◌, ◌++◌, inl, inr, ◌⊎◌, arith, length, take-append_self,
  drop-append_right, drop-zero, drop, All, ◌≢◌,
}
use sifir.Base.Slices.{}
use sifir.Base.Text.{Str, Bytes, text}
use sifir.Crates.{Extension}
use sifir.Attest.Payload.{attest_oid_arcs}
use sifir.Attest.AmdCerts.{}
use sifir.Client.Verifier.{or_empty}
use sifir.Server.Tls.{Rcgen}
use sifir.Server.Tls.Served.{IsRcgen}
use sifir.Examples.Packages.{toy, ToyCertificate, toy_certificate, toy_extensions}

abbrev pub toy_self_signed : List Extension → ℕ → Str ⊎ Bytes
toy_self_signed [] k = inr (k ∷ 0 ∷ [])
toy_self_signed (e ∷ []) k = inr (k ∷ 0 ∷ length e.extn_id ∷ (e.extn_id ++ e.extn_value))
toy_self_signed _ k = inl (text "too many extensions")

abbrev pub toy_config : List Bytes → Bytes → Str ⊎ Bytes
toy_config (der ∷ []) key = inr der
toy_config _ key = inl (text "one certificate is expected")

abbrev pub toy_rcgen : Rcgen
toy_rcgen = record {
  KeyPair = ℕ;
  ServerConfig = Bytes;
  generate = inr 7;
  serialized_der = λ k. k ∷ [];
  self_signed = toy_self_signed;
  with_single_cert = toy_config;
}

drop-append_self : (a b : Bytes) → drop (length a) (a ++ b) ≡ b
drop-append_self a b =
    let z : length a + 0 ≡ length a = omega arith in rw z at (drop-append_right a b 0 ∙ drop-zero b)

-- A certificate of the generator, read back.
pub certificate_lem :
    (exts : List Extension) (k : ℕ) (der : Bytes)
    → toy_self_signed exts k ≡ inr der
    → (cert : ToyCertificate) × (pre : List Extension) × (toy_certificate der ≡ inr cert)
      × (toy.spki_to_der cert ≡ inr (k ∷ []))
      × (or_empty (toy_extensions cert.body) ≡ pre ++ exts)
      × All (λ e. e.extn_id ≢ attest_oid_arcs) pre
certificate_lem [] k der h =
    let e : k ∷ 0 ∷ [] ≡ der = cc h in
    rw (← e) (record { key = k; signature = 0; body = [] }, [], refl, refl, refl, tt)
certificate_lem (x ∷ []) k der h =
    let e : k ∷ 0 ∷ length x.extn_id ∷ (x.extn_id ++ x.extn_value) ≡ der = cc h in
    rw (← e) (
      record { key = k; signature = 0; body = length x.extn_id ∷ (x.extn_id ++ x.extn_value) },
      [],
      refl,
      refl,
      rw (take-append_self x.extn_id x.extn_value, drop-append_self x.extn_id x.extn_value),
      tt,
    )
certificate_lem (x ∷ y ∷ exts) k der h = cc h

pub config_lem : (der key config : Bytes) → toy_config (der ∷ []) key ≡ inr config → config ≡ der
config_lem der key config h = cc h

abbrev pub toy_rcgen-IsRcgen : IsRcgen toy toy_rcgen
toy_rcgen-IsRcgen = record {
  spki = λ k. k ∷ [];
  presented = λ config. config;
  certificate_from_der-self_signed = certificate_lem;
  presented-with_single_cert = config_lem;
}
