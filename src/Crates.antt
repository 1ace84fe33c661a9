-- ===== src/Crates.antt =====
-- The functions of other packages that the program calls, as one parameter: sha2, hex, base64,
-- p384, ecdsa, x509-cert and const-oid. An error is the text that it displays.
pub mod Laws
pub mod Web
use sifir.Base.{ℕ, List, Bool, Option, ◌⊎◌}
use sifir.Base.Text.{Str, Bytes}

-- An object identifier is the list of its arcs.
abbrev pub Oid : Type 0
Oid = List ℕ

-- `x509_cert::ext::Extension`
pub record Extension : Type 0 where
  pub extn_id : Oid
  pub extn_value : Bytes

pub record Crates : Type 1 where
  -- sha2, hex, base64 (`STANDARD` and `URL_SAFE_NO_PAD`)
  pub sha256 : Bytes → Bytes
  pub hex_encode : Bytes → Str
  pub hex_decode : Str → Str ⊎ Bytes
  pub b64_encode : Bytes → Str
  pub b64_decode : Str → Str ⊎ Bytes
  pub b64_url_decode : Str → Str ⊎ Bytes
  -- p384 and ecdsa
  pub Signature : Type 0
  pub DerSignature : Type 0
  pub VerifyingKey : Type 0
  pub SigningKey : Type 0
  pub signature_try_from : Bytes → Str ⊎ Signature
  pub signature_to_bytes : Signature → Bytes
  pub key_from_sec1 : Bytes → Str ⊎ VerifyingKey
  pub key_to_sec1 : VerifyingKey → Bytes
  pub signing_key_from_slice : Bytes → Str ⊎ SigningKey
  pub verifying_key : SigningKey → VerifyingKey
  pub sign : SigningKey → Bytes → Signature
  pub verify : VerifyingKey → Bytes → Signature → Bool
  pub der_signature_try_from : Bytes → Str ⊎ DerSignature
  pub verify_der : VerifyingKey → Bytes → DerSignature → Bool
  -- x509-cert and const-oid
  pub Certificate : Type 0
  pub certificate_from_der : Bytes → Str ⊎ Certificate
  pub tbs_to_der : Certificate → Str ⊎ Bytes
  pub spki_to_der : Certificate → Str ⊎ Bytes
  pub public_key_bits : Certificate → Option Bytes
  pub signature_bits : Certificate → Option Bytes
  pub extensions : Certificate → Option (List Extension)
  pub oid_parse : Str → Str ⊎ Oid

-- What serde derives for a type, through serde_json.
pub record Serde (T : Type 0) : Type 0 where
  pub to_vec : T → Bytes
  pub from_slice : Bytes → Str ⊎ T
