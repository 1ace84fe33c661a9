-- ===== src/Server/Pem/Tests.antt =====
-- The unit tests of poc/crates/sifir-server/src/amd_attestation.rs.
use sifir.Base.{
  ◌≡◌, refl, inr, ok, ◌>>=◌, ◌>>◌, ◌===◌, ◌&&◌, List, [], ◌∷◌, Bool, true, false, Test, assert,
  unwrap, All, ===_self, arith,
}
use sifir.Base.Slices.{index}
use sifir.Base.Text.{Bytes, text}
use sifir.Crates.{Crates}
use sifir.Base.Text.Lines.{lines, is_whitespace}
use sifir.Server.Pem.{begin_line, end_line, parse_pem_bundle, pem_loop}
use sifir.Server.Pem.RoundTrip.{Block, IsBlock, IsChunk, render, parse_pem_bundle-render}

-- `==` on lists of certificates
abbrev same : List Bytes → List Bytes → Bool
same [] [] = true
same (x ∷ xs) (y ∷ ys) = x === y && same xs ys
same _ _ = false

abbrev hello_block : Block
hello_block = record { chunks = text "aGVsbG8=" ∷ []; der = text "hello" }

abbrev world_block : Block
world_block = record { chunks = text "d29ybGQ=" ∷ []; der = text "world" }

hello-IsChunk : All IsChunk hello_block.chunks
unfolding text is_whitespace
hello-IsChunk = ground arith

world-IsChunk : All IsChunk world_block.chunks
unfolding text is_whitespace
world-IsChunk = ground arith

abbrev single : Bytes
single = text "-----BEGIN CERTIFICATE-----\naGVsbG8=\n-----END CERTIFICATE-----\n"

abbrev two_certs : Bytes
two_certs =
    text
      "-----BEGIN CERTIFICATE-----\naGVsbG8=\n-----END CERTIFICATE-----\n-----BEGIN CERTIFICATE-----\nd29ybGQ=\n-----END CERTIFICATE-----\n"

single_literal : single ≡ render false (hello_block ∷ []) []
unfolding text begin_line end_line
single_literal = refl

two_literal : two_certs ≡ render false (hello_block ∷ world_block ∷ []) []
unfolding text begin_line end_line
two_literal = refl

module _ (c : Crates) where
  unfoldable parse_pem_bundle_single : Test
  parse_pem_bundle_single = do
    certs ← unwrap (parse_pem_bundle c single)
    assert (same certs (text "hello" ∷ []))

  unfoldable parse_pem_bundle_two_certs : Test
  parse_pem_bundle_two_certs = do
    certs ← unwrap (parse_pem_bundle c two_certs)
    first ← index certs 0
    assert (first === text "hello")
    second ← index certs 1
    assert (second === text "world")

  unfoldable parse_pem_bundle_empty : Test
  parse_pem_bundle_empty = do certs ← unwrap (parse_pem_bundle c []); assert (same certs [])

  empty_test_passes : parse_pem_bundle_empty ≡ ok tt
  unfolding parse_pem_bundle_empty parse_pem_bundle lines pem_loop
  empty_test_passes = refl

  module _ (hello : c.b64_decode (text "aGVsbG8=") ≡ inr (text "hello")) where
    -- The test on one certificate passes if its base64 text decodes to the word.
    single_test_passes : parse_pem_bundle_single ≡ ok tt
    unfolding parse_pem_bundle_single text
    single_test_passes =
        let bundle : All (IsBlock c) (hello_block ∷ []) = ((hello-IsChunk, hello), tt) in
        let word : Bytes = text "hello" in
        rw
          (single_literal, parse_pem_bundle-render c false (hello_block ∷ []) bundle, ===_self word)

    -- So does the test on two.
    two_certs_test_passes :
        c.b64_decode (text "d29ybGQ=") ≡ inr (text "world") → parse_pem_bundle_two_certs ≡ ok tt
    unfolding parse_pem_bundle_two_certs index text
    two_certs_test_passes world =
        let bundle : All (IsBlock c) (hello_block ∷ world_block ∷ []) =
          ((hello-IsChunk, hello), ((world-IsChunk, world), tt)) in
        let first : Bytes = text "hello" in
        let second : Bytes = text "world" in
        rw (
          two_literal,
          parse_pem_bundle-render c false (hello_block ∷ world_block ∷ []) bundle,
          ===_self first,
          ===_self second,
        )
