-- ===== src/Examples/Packages.antt =====
-- Small functions in place of the packages, and the proofs that they keep the laws. A hash is the
-- first 32 bytes; a signature is the sum of the key and the bytes; a certificate is its key, its
-- signature and its extension.
use sifir.Base.{
  ◌-◌, false, ℕ, ◌+◌, ◌≡◌, refl, ap, List, [], ◌∷◌, ◌++◌, inl, inr, ◌⊎◌, arith, map, length, take,
  drop, replicate, length-take, length-append, length-replicate, Option, none, some, ◌==◌, eq→==,
}
use sifir.Base.Text.{Str, Bytes, Lacks, text, split, split-append, split-Lacks}
use sifir.Base.Text.Lines.{is_whitespace, IsSolid}
use sifir.Base.Text.Decimal.{decimal, value, value-decimal, decimal-Lacks}
use sifir.Crates.{Crates, Oid, Extension}
use sifir.Crates.Laws.{dotted, IsOid, IsSha2, IsHex, IsBase64, IsP384, IsConstOid}

unfoldable pub toy_sha256 : Bytes → Bytes
toy_sha256 b = take 32 (b ++ replicate 32 0)

unfoldable pub toy_hex : Bytes → Str
toy_hex [] = []
toy_hex (b ∷ bs) = (b + 0x4000) ∷ b'0' ∷ toy_hex bs

unfoldable pub toy_unhex : Str → Bytes
toy_unhex (x ∷ _ ∷ s) = (x - 0x4000) ∷ toy_unhex s
toy_unhex _ = []

-- The text of a token's part: no character of it is a dot.
unfoldable pub shift : Bytes → Str
shift [] = []
shift (b ∷ bs) = (b + 100) ∷ shift bs

unfoldable pub unshift : Str → Bytes
unshift [] = []
unshift (c ∷ s) = (c - 100) ∷ unshift s

pub unshift-shift : (b : Bytes) → unshift (shift b) ≡ b
unfolding shift unshift
unshift-shift [] = refl
unshift-shift (b ∷ bs) = ground (arith, unshift-shift bs)

pub shift-Lacks : (b : Bytes) → Lacks b'.' (shift b)
unfolding shift
shift-Lacks [] = tt
shift-Lacks (b ∷ bs) = (ground arith, shift-Lacks bs)

unfoldable pub sum : Bytes → ℕ
sum [] = 0
sum (b ∷ bs) = b + sum bs

abbrev pub toy_head : Bytes → Str ⊎ ℕ
toy_head [] = inl (text "empty")
toy_head (b ∷ bs) = inr b

pub record ToyCertificate : Type 0 where
  pub key : ℕ
  pub signature : ℕ
  pub body : Bytes

abbrev pub toy_certificate : Bytes → Str ⊎ ToyCertificate
toy_certificate (k ∷ s ∷ body) = inr (record { key = k; signature = s; body = body })
toy_certificate _ = inl (text "no certificate")

abbrev pub toy_extensions : Bytes → Option (List Extension)
toy_extensions [] = none
toy_extensions (n ∷ rest) = some (record { extn_id = take n rest; extn_value = drop n rest } ∷ [])

unfoldable pub toy_oid : Str → Oid
toy_oid s = map (value 0) (split b'.' s)

abbrev pub toy : Crates
toy = record {
  sha256 = toy_sha256;
  hex_encode = toy_hex;
  hex_decode = λ s. inr (toy_unhex s);
  b64_encode = λ b. b;
  b64_decode = λ s. inr s;
  b64_url_decode = λ s. inr (unshift s);
  Signature = ℕ;
  DerSignature = ℕ;
  VerifyingKey = ℕ;
  SigningKey = ℕ;
  signature_try_from = toy_head;
  signature_to_bytes = λ s. s ∷ replicate 95 0;
  key_from_sec1 = toy_head;
  key_to_sec1 = λ k. k ∷ [];
  signing_key_from_slice = λ b. inr (sum b);
  verifying_key = λ k. k;
  sign = λ k m. k + sum m;
  verify = λ k m s. k + sum m == s;
  der_signature_try_from = toy_head;
  verify_der = λ k m s. k + sum m == s;
  Certificate = ToyCertificate;
  certificate_from_der = toy_certificate;
  tbs_to_der = λ x. inr (x.key ∷ x.body);
  spki_to_der = λ x. inr (x.key ∷ []);
  public_key_bits = λ x. some (x.key ∷ []);
  signature_bits = λ x. some (x.signature ∷ []);
  extensions = λ x. toy_extensions x.body;
  oid_parse = λ s. inr (toy_oid s);
}

length-toy_sha256 : (b : Bytes) → length (toy_sha256 b) ≡ 32
unfolding toy_sha256
length-toy_sha256 b =
    let l : length (replicate {A = ℕ} 32 0) ≡ 32 = length-replicate 32 0 in
    ground (arith, length-take 32 (b ++ replicate 32 0), length-append b (replicate 32 0))

length-toy_hex : (b : Bytes) → length (toy_hex b) ≡ length b + length b
unfolding toy_hex
length-toy_hex [] = refl
length-toy_hex (b ∷ bs) = ground (arith, length-toy_hex bs)

toy_unhex-toy_hex : (b : Bytes) → toy_unhex (toy_hex b) ≡ b
unfolding toy_hex toy_unhex
toy_unhex-toy_hex [] = refl
toy_unhex-toy_hex (b ∷ bs) = ground (arith, toy_unhex-toy_hex bs)

not_white : (b : ℕ) → is_whitespace (b + 0x4000) ≡ false
unfolding is_whitespace
not_white b = ground arith

toy_hex-IsSolid : (b : Bytes) → IsSolid (toy_hex b)
unfolding toy_hex is_whitespace
toy_hex-IsSolid [] = tt
toy_hex-IsSolid (b ∷ bs) = (not_white b, (refl, toy_hex-IsSolid bs))

toy_oid-dotted : (a : ℕ) (arcs : Oid) → toy_oid (dotted (a ∷ arcs)) ≡ a ∷ arcs
unfolding toy_oid dotted
toy_oid-dotted a [] =
    rw (split-Lacks b'.' (decimal a) (decimal-Lacks b'.' a (omega arith)), value-decimal a)
toy_oid-dotted a (b ∷ arcs) = rw (
  split-append b'.' (decimal a) (dotted (b ∷ arcs)) (decimal-Lacks b'.' a (omega arith)),
  value-decimal a,
  toy_oid-dotted b arcs,
)

toy_oid_lem : (o : Oid) → IsOid o → toy_oid (dotted o) ≡ o
toy_oid_lem [] h = elim h [ ]
toy_oid_lem (a ∷ arcs) h = toy_oid-dotted a arcs

pub toy-IsSha2 : IsSha2 toy
toy-IsSha2 = record { length-sha256 = length-toy_sha256 }

pub toy-IsHex : IsHex toy
toy-IsHex = record {
  length-hex_encode = λ b. omega (arith, length-toy_hex b);
  IsSolid-hex_encode = toy_hex-IsSolid;
  hex_decode-hex_encode = λ b. ap inr (toy_unhex-toy_hex b);
}

pub toy-IsBase64 : IsBase64 toy
toy-IsBase64 = record { b64_decode-b64_encode = λ b. refl }

pub toy-IsP384 : IsP384 toy
toy-IsP384 = record {
  length-signature_to_bytes = λ s. omega (arith, length-replicate {A = ℕ} 95 0);
  signature_try_from-signature_to_bytes = λ s. refl;
  key_from_sec1-key_to_sec1 = λ k. refl;
  verify-sign = λ k m. eq→== (k + sum m) (k + sum m) refl;
  signing_key_of_scalar = λ b _ _ _. (sum b, refl);
}

pub toy-IsConstOid : IsConstOid toy
toy-IsConstOid = record { oid_parse-dotted = λ o h. ap inr (toy_oid_lem o h) }
