-- ===== src/Server/SnpGuest/Laws.antt =====
-- When `get_snp_report` returns a report, and which one.
use sifir.Base.{
  ℕ, ◌≡◌, ◌↔◌, refl, inr, arith, ok, ◌>>=◌, length, replicate, length-replicate, ◌++◌, take,
  take-append_left, take-append_right, drop-zero,
}
use sifir.Base.Slices.{
  patch_whole, range, copy_from_slice, part, range_lem, copy_from_slice_lem, length-part,
}
use sifir.Base.Text.{Str, Bytes}
use sifir.Server.SnpGuest.{
  Kernel, SnpGuestRequestIoctl, snp_request, snp_get_report, get_snp_report,
}

module _ (k : Kernel) (user_data : Bytes) where
  abbrev reply : ℕ × SnpGuestRequestIoctl
  reply = k.ioctl snp_get_report (snp_request user_data)

  abbrev response : Bytes
  response = reply.1.resp_data.bytes

  -- The kernel keeps the response buffer's 4000 bytes.
  module _ (h : length response ≡ 4000) where
    pub copied :
        (do
          prefix ← range {E = Str} response 0 1184
          copy_from_slice (replicate 1184 0) 0 1184 prefix)
        ≡ ok (part 0 1184 response)
    copied =
        let l : length (part 0 1184 response) ≡ 1184 = length-part 0 1184 response (omega arith) in
        let z : length (replicate {A = ℕ} 1184 0) ≡ 1184 = length-replicate 1184 0 in
        rw (
          range_lem response 0 1184 (omega arith) (omega arith),
          copy_from_slice_lem (replicate 1184 0) 0 1184 (part 0 1184 response) (omega arith)
              (omega arith) (omega arith),
          patch_whole (part 0 1184 response) (replicate 1184 0) (omega arith),
        )

    -- If the kernel keeps the size of the response buffer, a report is returned exactly when the
    -- device opens, the call returns 0 and the firmware reports no error; it is the first 1184
    -- bytes of the response, with no header skipped.
    pub get_snp_report_iff :
        (raw : Bytes)
        → (get_snp_report k user_data ≡ ok raw) ↔ (
            (k.open_device ≡ inr tt)
            × (reply.0 ≡ 0)
            × (reply.1.exitinfo2 ≡ 0)
            × (raw ≡ part 0 1184 response))
    unfolding get_snp_report
    get_snp_report_iff raw = rw copied (ground arith)

    -- If the response of 4000 bytes has a header of 32 bytes in front of the report, a report
    -- that is returned is the header and the report without its last 32 bytes.
    pub get_snp_report-header :
        (header report rest raw : Bytes)
        → response ≡ header ++ (report ++ rest)
        → length header ≡ 32
        → length report ≡ 1184
        → get_snp_report k user_data ≡ ok raw
        → raw ≡ header ++ part 0 1152 report
    unfolding part
    get_snp_report-header header report rest raw split size full got =
        let (_, _, _, first) = (get_snp_report_iff raw).0 got in
        let cut : take 1184 (header ++ (report ++ rest)) ≡ header ++ take 1152 (report ++ rest) =
          rw size at (take-append_right header (report ++ rest) 1152) in
        rw
          (
            first,
            drop-zero response,
            split,
            cut,
            take-append_left 1152 report rest (omega arith),
            drop-zero report,
          )
          refl
