-- ===== src/Crates/Laws.antt =====
-- What the packages document, as named hypotheses of the theorems that need them.
use sifir.Base.{ℕ, ◌+◌, ◌*◌, ◌^◌, ◌<◌, ◌≡◌, true, [], ◌∷◌, ◌++◌, inr, length, All}
use sifir.Base.Text.{Str, Bytes}
use sifir.Base.Text.Decimal.{decimal}
use sifir.Base.Text.Lines.{IsSolid}
use sifir.Crates.{Crates, Oid, Serde}

-- A big-endian number.
abbrev be_value : ℕ → Bytes → ℕ
be_value acc [] = acc
be_value acc (b ∷ bs) = be_value (acc * 256 + b) bs

-- The scalar that 48 bytes stand for.
unfoldable pub scalar : Bytes → ℕ
scalar = be_value 0

-- The order of the group of P-384.
unfoldable pub order : ℕ
order =
    0xffffffffffffffffffffffffffffffffffffffffffffffffc7634d81f4372ddf581a0db248b0a77aecec196accc52973

-- The dotted form of an object identifier.
unfoldable pub dotted : Oid → Str
dotted [] = []
dotted (a ∷ []) = decimal a
dotted (a ∷ b ∷ arcs) = decimal a ++ (b'.' ∷ dotted (b ∷ arcs))

-- At least three arcs, the first two within X.660's bounds, and few and small enough for const-oid.
abbrev pub IsOid : Oid → Type 0
IsOid (a ∷ b ∷ d ∷ arcs) = (a < 3) × (b < 40) × All (λ x. x < 2 ^ 32) (d ∷ arcs) × (length arcs < 7)
IsOid _ = ⊥

module _ (c : Crates) where
  open c use {Signature, VerifyingKey, SigningKey}

  -- A SHA-256 digest has 32 bytes.
  pub record IsSha2 : Type 0 where
    pub length-sha256 : (b : Bytes) → length (c.sha256 b) ≡ 32

  -- Hexadecimal text has two characters for a byte, none of them white space, and is decoded to the
  -- bytes.
  pub record IsHex : Type 0 where
    pub length-hex_encode : (b : Bytes) → length (c.hex_encode b) ≡ 2 * length b
    pub IsSolid-hex_encode : (b : Bytes) → IsSolid (c.hex_encode b)
    pub hex_decode-hex_encode : (b : Bytes) → c.hex_decode (c.hex_encode b) ≡ inr b

  pub record IsBase64 : Type 0 where
    pub b64_decode-b64_encode : (b : Bytes) → c.b64_decode (c.b64_encode b) ≡ inr b

  -- ECDSA over P-384: encodings are read back, a signature verifies under its key, and 48 bytes
  -- are a signing key if their scalar is not zero and below the order.
  pub record IsP384 : Type 0 where
    pub length-signature_to_bytes : (s : Signature) → length (c.signature_to_bytes s) ≡ 96
    pub signature_try_from-signature_to_bytes :
        (s : Signature) → c.signature_try_from (c.signature_to_bytes s) ≡ inr s
    pub key_from_sec1-key_to_sec1 : (k : VerifyingKey) → c.key_from_sec1 (c.key_to_sec1 k) ≡ inr k
    pub verify-sign :
        (k : SigningKey) (m : Bytes) → c.verify (c.verifying_key k) m (c.sign k m) ≡ true
    pub signing_key_of_scalar :
        (b : Bytes)
        → length b ≡ 48
        → 0 < scalar b
        → scalar b < order
        → (k : SigningKey) × (c.signing_key_from_slice b ≡ inr k)

  -- A valid object identifier is read from its dotted form.
  pub record IsConstOid : Type 0 where
    pub oid_parse-dotted : (o : Oid) → IsOid o → c.oid_parse (dotted o) ≡ inr o

-- A value is read back from its JSON text.
pub record IsSerde {T : Type 0} (s : Serde T) : Type 0 where
  pub from_slice-to_vec : (t : T) → s.from_slice (s.to_vec t) ≡ inr t
