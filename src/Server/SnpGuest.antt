-- ===== src/Server/SnpGuest.antt =====
-- The `ioctl` of poc/crates/sifir-server/src/amd_attestation.rs: a report from the SNP firmware.
pub mod Laws
use Prim.Native.Nat.{bit_or}
use sifir.Base.{
  ℕ, ◌+◌, ◌-◌, ◌*◌, ◌/◌, ◌%◌, ◌^◌, zero, suc, List, [], ◌∷◌, ◌++◌, ◌⊎◌, ltb, ◌==◌, if◌then◌else◌,
  Outcome, ok, err, ◌>>=◌, ◌>>◌, attempt, guard, replicate,
}
use sifir.Base.Slices.{range, copy_from_slice}
use sifir.Base.Text.{Str, Bytes, text}
use sifir.Base.Text.Decimal.{decimal}
use sifir.Attest.Report.{report_size}

-- `snp_report_req`
pub record SnpReportReq : Type 0 where
  pub user_data : Bytes
  pub vmpl : ℕ
  pub rsvd : Bytes

-- `snp_report_resp`
pub record SnpReportResp : Type 0 where
  pub bytes : Bytes

-- `snp_guest_request_ioctl`. The pointers `req_data` and `resp_data` are the structures that they
-- point to.
pub record SnpGuestRequestIoctl : Type 0 where
  pub msg_version : ℕ
  pub pad : Bytes
  pub req_data : SnpReportReq
  pub resp_data : SnpReportResp
  pub exitinfo2 : ℕ

-- `_IOWR('+', 0, snp_guest_request_ioctl)`: shifts and `|` of 64-bit words.
unfoldable pub snp_get_report : ℕ
snp_get_report =
    bit_or (bit_or (3 * 2 ^ 30 % 2 ^ 64) (32 * 2 ^ 16 % 2 ^ 64)) (0x2b * 2 ^ 8 % 2 ^ 64)

-- `{}` of an `i32`, given by its bit pattern.
unfoldable pub display_i32 : ℕ → Str
display_i32 n = if ltb n (2 ^ 31) then decimal n else b'-' ∷ decimal (2 ^ 32 - n)

-- `{:0width$x}` of an unsigned number that has at most `width` hexadecimal digits.
unfoldable pub hex_padded : ℕ → ℕ → Str
hex_padded zero n = []
hex_padded (suc width) n =
    hex_padded width (n / 16)
    ++ ((if ltb (n % 16) 10 then b'0' + n % 16 else b'a' + (n % 16 - 10)) ∷ [])

-- The kernel: opening the device, and the call, which returns the return code as a bit pattern and
-- the structure as the firmware left it. `last_os_error` is the text of `errno` after the call.
pub record Kernel : Type 0 where
  pub open_device : Str ⊎ Unit {0}
  pub ioctl : ℕ → SnpGuestRequestIoctl → ℕ × SnpGuestRequestIoctl
  pub last_os_error : Str

abbrev pub snp_request : Bytes → SnpGuestRequestIoctl
snp_request user_data = record {
  msg_version = 1;
  pad = replicate 7 0;
  req_data = record { user_data = user_data; vmpl = 0; rsvd = replicate 28 0 };
  resp_data = record { bytes = replicate 4000 0 };
  exitinfo2 = 0;
}

module _ (k : Kernel) where
  unfoldable pub get_snp_report : Bytes → Outcome Str Bytes
  get_snp_report user_data = do
    attempt (λ _. text "open /dev/snp-guest (must run inside AMD SEV-SNP VM)") k.open_device
    let (rc, reply) = k.ioctl snp_get_report (snp_request user_data)
    guard
        (text "SNP_GET_REPORT ioctl failed (errno "
          ++ display_i32 rc
          ++ text "): "
          ++ k.last_os_error)
        (rc == 0)
    guard (text "SNP_GET_REPORT firmware error: exitinfo2=0x" ++ hex_padded 16 reply.exitinfo2)
        (reply.exitinfo2 == 0)
    prefix ← range reply.resp_data.bytes 0 report_size
    copy_from_slice (replicate report_size 0) 0 report_size prefix
