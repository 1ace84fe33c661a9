-- ===== src/Attest/Payload.antt =====
-- The data of poc/crates/sifir-attest/src/attest_ext.rs: the payload of the certificate extension.
use sifir.Base.{List, [], ◌∷◌, Option}
use sifir.Base.Text.{Str, text}
use sifir.Crates.{Oid}

-- The prototype object identifier, as text and as arcs.
unfoldable pub attest_oid_str : Str
unfolding text
attest_oid_str = text "1.3.6.1.4.1.99999.1.1"

abbrev pub attest_oid_arcs : Oid
attest_oid_arcs = 1 ∷ 3 ∷ 6 ∷ 1 ∷ 4 ∷ 1 ∷ 99999 ∷ 1 ∷ 1 ∷ []

pub data AttestationMode : Type 0 where
  mock amd_sev_snp : AttestationMode

pub record AttestationExtension : Type 0 where
  pub report_b64 : Str
  pub vcek_chain_b64 : List Str
  pub mode : AttestationMode
  pub gpu_jwt : Option Str
