-- ===== src/Server/Kds.antt =====
-- The rest of poc/crates/sifir-server/src/amd_attestation.rs: the certificate chain of the chip from
-- AMD's key distribution service.
pub mod Url
pub mod Chain
pub mod NoPanic
use sifir.Base.{
  ℕ, ◌+◌, List, [], ◌∷◌, ◌++◌, ◌⊎◌, ltb, guard, not, length, Outcome, ok, err, ◌>>=◌, ◌>>◌, attempt,
  map_err,
}
use sifir.Base.Slices.{range, index}
use sifir.Base.Text.{Str, Bytes, text}
use sifir.Base.Text.Decimal.{decimal}
use sifir.Crates.{Crates}
use sifir.Server.Pem.{parse_pem_bundle}
use sifir.Server.SnpGuest.{Kernel, get_snp_report}

unfoldable pub kds_base : Str
kds_base = text "https://kdsintf.amd.com/vcek/v1"

abbrev pub off_reported_tcb : ℕ
off_reported_tcb = 0x038

abbrev pub off_chip_id : ℕ
off_chip_id = 0x188

abbrev pub chip_id_len : ℕ
chip_id_len = 64

pub record TcbVersion : Type 0 where
  pub bl_spl : ℕ
  pub tee_spl : ℕ
  pub snp_spl : ℕ
  pub ucode_spl : ℕ

-- `TcbVersion::from_report`
unfoldable pub from_report {ℓ} : {E : Type ℓ} → Bytes → Outcome E TcbVersion
from_report report = do
  raw ← range report off_reported_tcb (off_reported_tcb + 8)
  bl_spl ← index raw 0
  tee_spl ← index raw 1
  snp_spl ← index raw 6
  ucode_spl ← index raw 7
  ok (record { bl_spl = bl_spl; tee_spl = tee_spl; snp_spl = snp_spl; ucode_spl = ucode_spl })

-- The query of `vcek_url`.
unfoldable pub tcb_query : TcbVersion → Str
tcb_query tcb =
    text "?blSPL="
    ++ (decimal tcb.bl_spl
        ++ (text "&teeSPL="
            ++ (decimal tcb.tee_spl
                ++ (text "&snpSPL="
                    ++ (decimal tcb.snp_spl ++ (text "&ucodeSPL=" ++ decimal tcb.ucode_spl))))))

unfoldable pub vcek_url : Str → Str → TcbVersion → Str
vcek_url product chip_id_hex tcb =
    kds_base ++ (text "/" ++ (product ++ (text "/" ++ (chip_id_hex ++ tcb_query tcb))))

unfoldable pub cert_chain_url : Str → Str
cert_chain_url product = kds_base ++ (text "/" ++ (product ++ text "/cert_chain"))

-- A response of reqwest: its status test, and its body as bytes and as text.
pub record Response : Type 0 where
  pub error_for_status : Str ⊎ Unit {0}
  pub bytes : Str ⊎ Bytes
  pub body_text : Str ⊎ Str

-- An HTTP client with its time limit: it is built or not, and a GET is answered or not.
pub record Http : Type 0 where
  pub build : Str ⊎ Unit {0}
  pub get : Str → Str ⊎ Response

-- `.context(what)` and `.with_context(|| what)`: the error displays `what`.
abbrev pub context {ℓ} : {A : Type ℓ} → Str → Str ⊎ A → Outcome Str A
context what = attempt (λ _. what)

module _ (c : Crates) (http : Http) where
  unfoldable pub fetch_vcek_chain : Bytes → Str → Outcome Str (List Bytes)
  fetch_vcek_chain report product = do
    chip_id ← range report off_chip_id (off_chip_id + chip_id_len)
    let chip_id_hex = c.hex_encode chip_id
    tcb ← from_report report
    let url = vcek_url product chip_id_hex tcb
    let chain_url = cert_chain_url product
    context (text "build reqwest client") http.build
    vcek_response ← context (text "GET " ++ url) (http.get url)
    context (text "KDS VCEK fetch failed: " ++ url) vcek_response.error_for_status
    vcek_der ← context (text "read VCEK response body") vcek_response.bytes
    chain_response ← context (text "GET " ++ chain_url) (http.get chain_url)
    context (text "KDS cert_chain fetch failed: " ++ chain_url) chain_response.error_for_status
    chain_pem ← context (text "read cert_chain response body") chain_response.body_text
    pem_certs ← map_err (λ _. text "parse cert_chain PEM bundle") (parse_pem_bundle c chain_pem)
    guard (text "expected at least 2 certs in KDS cert_chain, got " ++ decimal (length pem_certs))
        (not (ltb (length pem_certs) 2))
    ask_der ← index pem_certs 0
    ark_der ← index pem_certs 1
    ok (vcek_der ∷ ask_der ∷ ark_der ∷ [])

  unfoldable pub get_report_and_chain : Kernel → Bytes → Str → Outcome Str (Bytes × List Bytes)
  get_report_and_chain kernel user_data product = do
    report ← get_snp_report kernel user_data
    chain ← fetch_vcek_chain report product
    ok (report, chain)
