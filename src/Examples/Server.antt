-- ===== src/Examples/Server.antt =====
-- The theorems on the server, applied.
use sifir.Base.{
  ℕ, length, replicate, length-append, length-replicate, arith, ◌≡◌, ◌↔◌, ◌⊎◌, refl, inr, List, [],
  ◌∷◌, ◌++◌, ok, err, false, true, All,
}
use sifir.Base.Slices.{part}
use sifir.Base.Text.{Str, Bytes, text}
use sifir.Base.Text.Lines.{line_end, is_whitespace}
use sifir.Attest.Report.{chip_id}
use sifir.Server.Pem.{parse_pem_bundle, begin_line}
use sifir.Server.Pem.RoundTrip.{
  Block, IsBlock, IsChunk, render, render_chunks, parse_pem_bundle-render,
  parse_pem_bundle_unterminated,
}
use sifir.Server.SnpGuest.{Kernel, get_snp_report, snp_get_report, snp_request}
use sifir.Server.SnpGuest.Laws.{get_snp_report_iff, get_snp_report-header}
use sifir.Server.Kds.{Response, vcek_url, TcbVersion, fetch_vcek_chain}
use sifir.Server.Kds.Url.{vcek_url-injective}
use sifir.Server.Kds.Chain.{tcb_of, IsFetched, fetch_vcek_chain_iff, chip_id_shift}
use sifir.Server.Main.{build_setup}
use sifir.Server.Main.Laws.{IsMockRun, IsAmdRun, IsAmdGpuRun, build_setup_iff}
use sifir.System.AmdSetup.{response}
use sifir.Examples.Packages.{toy, toy-IsHex}
use sifir.Examples.Payload.{toy_serde}
use sifir.Examples.Hardware.{
  toy_kernel, toy_kernel-IsFirmware, toy_http, toy_chain, toy_http-fetch_vcek_chain,
}
use sifir.Examples.Rcgen.{toy_rcgen}
use sifir.Examples.Gpu.{toy_sidecar}
use sifir.Examples.Runs.{toy_features, toy_args}
use sifir.Examples.Setups.{toy_raw, length-toy_raw, toy_user_data, genoa, amd_gpu_run}

-- A certificate in two lines of base64 text.
abbrev blocks : List Block
blocks = record { chunks = (1 ∷ 2 ∷ []) ∷ (3 ∷ []) ∷ []; der = 1 ∷ 2 ∷ 3 ∷ [] } ∷ []

two-IsChunk : IsChunk (1 ∷ 2 ∷ [])
unfolding is_whitespace
two-IsChunk = ((λ e. cc e), (refl, (refl, tt)), (refl, (refl, tt)))

three-IsChunk : IsChunk (3 ∷ [])
unfolding is_whitespace
three-IsChunk = ((λ e. cc e), (refl, tt), (refl, tt))

one-IsChunk : All IsChunk ((1 ∷ []) ∷ [])
unfolding is_whitespace
one-IsChunk = (((λ e. cc e), (refl, tt), (refl, tt)), tt)

blocks-IsBlock : All (IsBlock toy) blocks
blocks-IsBlock = (((two-IsChunk, (three-IsChunk, tt)), refl), tt)

parse_pem_bundle-render_example :
    parse_pem_bundle toy (render true blocks []) ≡ ok ((1 ∷ 2 ∷ 3 ∷ []) ∷ [])
parse_pem_bundle-render_example = parse_pem_bundle-render toy true blocks blocks-IsBlock

parse_pem_bundle_unterminated_example :
    parse_pem_bundle toy (
      render false blocks
        (begin_line ++ (line_end false ++ render_chunks false ((1 ∷ []) ∷ []) [])))
    ≡ err (text "unterminated PEM cert block")
parse_pem_bundle_unterminated_example =
    parse_pem_bundle_unterminated toy false blocks ((1 ∷ []) ∷ []) blocks-IsBlock one-IsChunk

get_snp_report_iff_example : (get_snp_report toy_kernel toy_user_data ≡ ok toy_raw) ↔ (
    (toy_kernel.open_device ≡ inr tt)
    × ((toy_kernel.ioctl snp_get_report (snp_request toy_user_data)).0 ≡ 0)
    × ((toy_kernel.ioctl snp_get_report (snp_request toy_user_data)).1.exitinfo2 ≡ 0)
    × (toy_raw ≡ part 0 1184 (response toy_kernel toy_user_data)))
get_snp_report_iff_example =
    get_snp_report_iff toy_kernel toy_user_data
      (toy_kernel-IsFirmware.length-response toy_user_data) toy_raw

fetch_vcek_chain_iff_example :
    (fetch_vcek_chain toy toy_http toy_raw genoa ≡ ok toy_chain)
    ↔ IsFetched toy toy_http toy_raw genoa toy_chain
fetch_vcek_chain_iff_example =
    fetch_vcek_chain_iff toy toy_http toy_raw length-toy_raw genoa toy_chain

abbrev tcb : TcbVersion
tcb = record { bl_spl = 3; tee_spl = 0; snp_spl = 8; ucode_spl = 115 }

vcek_url-injective_example : (◌≡◌ {A = Bytes} (1 ∷ 2 ∷ []) (1 ∷ 2 ∷ [])) × (tcb ≡ tcb)
vcek_url-injective_example =
    vcek_url-injective toy toy-IsHex genoa (1 ∷ 2 ∷ []) (1 ∷ 2 ∷ []) tcb tcb refl refl

chip_id_shift_example :
    (url_id field_id : Bytes) × (response : Response) × (toy_http.get
        (vcek_url genoa (toy.hex_encode url_id) (tcb_of toy_raw))
      ≡ inr response)
    × (url_id ≡ part 392 64 toy_raw)
    × (chip_id {E = Str} (record { raw = toy_raw }) ≡ ok field_id)
    × (part 24 40 url_id ≡ part 0 40 field_id)
chip_id_shift_example =
    chip_id_shift toy toy_http (record { raw = toy_raw }) genoa toy_chain length-toy_raw
      (toy_http-fetch_vcek_chain toy_raw genoa length-toy_raw)

build_setup_iff_example :
    (build_setup toy toy_rcgen toy_serde toy_http toy_kernel toy_sidecar toy_features toy_args
      ≡ ok amd_gpu_run.0)
    ↔ (IsMockRun toy toy_rcgen toy_serde toy_http toy_kernel toy_sidecar toy_features toy_args
          amd_gpu_run.0
        ⊎ (IsAmdRun toy toy_rcgen toy_serde toy_http toy_kernel toy_sidecar toy_features toy_args
              amd_gpu_run.0
            ⊎ IsAmdGpuRun toy toy_rcgen toy_serde toy_http toy_kernel toy_sidecar toy_features
                toy_args amd_gpu_run.0))
build_setup_iff_example =
    build_setup_iff toy toy_rcgen toy_serde toy_http toy_kernel toy_sidecar toy_features toy_args
      amd_gpu_run.0

-- A kernel that puts a header of 32 bytes in front of the report.
abbrev header_response : Bytes
header_response = replicate 32 1 ++ (replicate 1184 2 ++ replicate 2784 3)

abbrev header_kernel : Kernel
header_kernel = record {
  open_device = inr tt;
  ioctl = λ cmd r. (0, record r { resp_data = record { bytes = header_response } });
  last_os_error = text "";
}

header_size : length header_response ≡ 4000
header_size = omega (
  arith,
  length-append {A = ℕ} (replicate 32 1) (replicate 1184 2 ++ replicate 2784 3),
  length-append {A = ℕ} (replicate 1184 2) (replicate 2784 3),
  length-replicate {A = ℕ} 32 1,
  length-replicate {A = ℕ} 1184 2,
  length-replicate {A = ℕ} 2784 3,
)

abbrev header_raw : Bytes
header_raw = part 0 1184 header_response

get_snp_report-header_example : header_raw ≡ replicate 32 1 ++ part 0 1152 (replicate 1184 2)
get_snp_report-header_example =
    get_snp_report-header header_kernel [] header_size (replicate 32 1) (replicate 1184 2)
      (replicate 2784 3) header_raw refl (length-replicate 32 1) (length-replicate 1184 2)
      ((get_snp_report_iff header_kernel [] header_size header_raw).1 (refl, refl, refl, refl))
