-- ===== src/System/KeyService.antt =====
-- What the server's setup expects of AMD's key distribution service, whose answers
-- poc/crates/sifir-server/src/amd_attestation.rs asks for.
use sifir.Base.{◌≡◌, ◌∙◌, sym, List, [], ◌∷◌, ◌++◌, Bool, true, inr, ok, ok-injective, length, All}
use sifir.Base.Slices.{part}
use sifir.Base.Text.{Str, Bytes}
use sifir.Crates.{Crates}
use sifir.Attest.Report.{report_size}
use sifir.Attest.AmdCerts.{vcek_verifying_key}
use sifir.Attest.AmdCerts.Chain.{IsChain, vcek_verifying_key_iff}
use sifir.Server.Pem.RoundTrip.{Block, IsBlock, render, parse_pem_bundle-render}
use sifir.Server.Kds.{Http, Response, vcek_url, cert_chain_url, fetch_vcek_chain}
use sifir.Server.Kds.Chain.{tcb_of, fetch_vcek_chain_iff}

-- What the key distribution service documents, and what it has for the chip of a report: it answers
-- the request for the chip with the certificate of the chip's key, and the request for the product
-- with a bundle, whose first two certificates are the product's intermediate and root. The
-- certificates are a chain of P-384 keys, and the chip's key has signed the report.
pub record IsKeyService (c : Crates) (http : Http) (raw : Bytes) (product : Str) : Type 0 where
  pub vcek : Bytes
  pub ask : Block
  pub ark : Block
  pub more : List Block
  pub crlf : Bool
  pub vcek_answered :
      (r : Response) (der : Bytes)
      → http.get (vcek_url product (c.hex_encode (part 392 64 raw)) (tcb_of raw)) ≡ inr r
      → r.bytes ≡ inr der
      → der ≡ vcek
  pub chain_answered :
      (r : Response) (pem : Str)
      → http.get (cert_chain_url product) ≡ inr r
      → r.body_text ≡ inr pem
      → pem ≡ render crlf (ask ∷ ark ∷ more) []
  pub blocks : All (IsBlock c) (ask ∷ ark ∷ more)
  pub vk : c.VerifyingKey
  pub chain : IsChain c vcek ask.der ark.der vk
  pub sig : c.Signature
  pub parsed : c.signature_try_from (part 672 48 raw ++ part 744 48 raw) ≡ inr sig
  pub signed : c.verify vk (part 0 672 raw) sig ≡ true

-- The certificates that are fetched for the report are those of the service, in the order in which
-- each is signed by the next.
pub IsKeyService-vouches :
    (c : Crates) (http : Http) (raw : Bytes) (product : Str) (chain : List Bytes)
    → length raw ≡ report_size
    → (k : IsKeyService c http raw product) → fetch_vcek_chain c http raw product ≡ ok chain
    → vcek_verifying_key c chain ≡ ok k.vk
IsKeyService-vouches c http raw product chain size k fetched =
    let f = (fetch_vcek_chain_iff c http raw size product chain).0 fetched in
    let pem = k.chain_answered f.chain_response f.pem f.chain_answer f.chain_body in
    let certs = ok-injective (
      sym (parse_pem_bundle-render c k.crlf (k.ask ∷ k.ark ∷ k.more) k.blocks)
      ∙ (rw pem at f.parsed)) in
    let d0 = k.vcek_answered f.vcek_response f.vcek_der f.vcek_answer f.vcek_body in
    let d1 : k.ask.der ≡ f.ask_der = cc certs in
    let d2 : k.ark.der ≡ f.ark_der = cc certs in
    rw (f.result, d0, ← d1, ← d2)
      ((vcek_verifying_key_iff c k.vcek k.ask.der k.ark.der [] k.vk).1 k.chain)
