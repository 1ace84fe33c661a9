-- ===== src/Attest/Report.antt =====
-- poc/crates/sifir-attest/src/report.rs: the attestation report and its fields.
pub mod Fields
pub mod Setters
pub mod Tests
use sifir.Base.{ℕ, ◌+◌, List, ◌≡◌, Outcome, ok, ◌>>=◌, length, replicate}
use sifir.Base.Slices.{range, to_array, copy_from_slice}
use sifir.Base.Text.{Bytes, from_le_bytes}

abbrev pub report_size : ℕ
report_size = 1184

abbrev pub signed_region_size : ℕ
signed_region_size = 0x2a0

abbrev pub off_version : ℕ
off_version = 0x000

abbrev pub off_report_data : ℕ
off_report_data = 0x050

abbrev pub off_measurement : ℕ
off_measurement = 0x090

abbrev pub off_chip_id : ℕ
off_chip_id = 0x1a0

abbrev pub off_sig_r : ℕ
off_sig_r = 0x2a0

abbrev pub off_sig_s : ℕ
off_sig_s = 0x2e8

abbrev pub report_data_size : ℕ
report_data_size = 64

abbrev pub measurement_size : ℕ
measurement_size = 48

abbrev pub chip_id_size : ℕ
chip_id_size = 64

abbrev pub sig_component_field : ℕ
sig_component_field = 72

abbrev pub sig_scalar_size : ℕ
sig_scalar_size = 48

pub record Report : Type 0 where
  pub raw : Bytes

-- What the array type `[u8; REPORT_SIZE]` says of the field.
abbrev pub IsReport : Report → Type 0
IsReport r = length r.raw ≡ report_size

-- `Report::new`, `as_bytes` and the write access of `as_bytes_mut`
unfoldable pub new : Bytes → Report
new raw = record { raw = raw }

unfoldable pub as_bytes : Report → Bytes
as_bytes r = r.raw

unfoldable pub default : Report
default = record { raw = replicate report_size 0 }

module _ {ℓ} {E : Type ℓ} where
  -- `self.raw[off..off + size].try_into().unwrap()`
  unfoldable pub field : ℕ → ℕ → Report → Outcome E Bytes
  field off size r = do s ← range r.raw off (off + size); to_array size s

  unfoldable pub version : Report → Outcome E ℕ
  version r = do b ← field off_version 4 r; ok (from_le_bytes b)

  unfoldable pub report_data : Report → Outcome E Bytes
  report_data = field off_report_data report_data_size

  unfoldable pub measurement : Report → Outcome E Bytes
  measurement = field off_measurement measurement_size

  unfoldable pub chip_id : Report → Outcome E Bytes
  chip_id = field off_chip_id chip_id_size

  unfoldable pub sig_r : Report → Outcome E Bytes
  sig_r = field off_sig_r sig_scalar_size

  unfoldable pub sig_s : Report → Outcome E Bytes
  sig_s = field off_sig_s sig_scalar_size

  unfoldable pub signed_region : Report → Outcome E Bytes
  signed_region r = range r.raw 0 signed_region_size

  unfoldable pub set_sig_r : Bytes → Report → Outcome E Report
  set_sig_r b r = do
    raw ← copy_from_slice r.raw off_sig_r (off_sig_r + sig_scalar_size) b
    ok (new raw)

  unfoldable pub set_sig_s : Bytes → Report → Outcome E Report
  set_sig_s b r = do
    raw ← copy_from_slice r.raw off_sig_s (off_sig_s + sig_scalar_size) b
    ok (new raw)
