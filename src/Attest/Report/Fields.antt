-- ===== src/Attest/Report/Fields.antt =====
-- Reading and writing the fields of a report: no panic, and no field overlaps another.
use sifir.Base.{ℕ, ◌+◌, ◌-◌, ◌≤◌, ◌≡◌, ok, arith}
use sifir.Base.Slices.{part, length-part, range_lem, to_array_lem}
use sifir.Attest.Report.{
  Report, IsReport, field, report_data, measurement, sig_r, sig_s, signed_region, report_size,
}

module _ {ℓ} {E : Type ℓ} (r : Report) (h : IsReport r) where
  -- A field that lies in the report is read without a panic.
  pub field_lem :
      (off size : ℕ)
      → off + size ≤ report_size
      → field {E = E} off size r ≡ ok (part off size r.raw)
  unfolding field
  field_lem off size le =
      let e : off + size - off ≡ size = omega arith in
      rw (
        range_lem r.raw off (off + size) (omega arith) (omega arith),
        e,
        to_array_lem size (part off size r.raw) (length-part off size r.raw (omega arith)),
      )

  pub report_data_lem : report_data {E = E} r ≡ ok (part 80 64 r.raw)
  unfolding report_data
  report_data_lem = field_lem 80 64 (omega arith)

  pub measurement_lem : measurement {E = E} r ≡ ok (part 144 48 r.raw)
  unfolding measurement
  measurement_lem = field_lem 144 48 (omega arith)

  pub sig_r_lem : sig_r {E = E} r ≡ ok (part 672 48 r.raw)
  unfolding sig_r
  sig_r_lem = field_lem 672 48 (omega arith)

  pub sig_s_lem : sig_s {E = E} r ≡ ok (part 744 48 r.raw)
  unfolding sig_s
  sig_s_lem = field_lem 744 48 (omega arith)

  pub signed_region_lem : signed_region {E = E} r ≡ ok (part 0 672 r.raw)
  unfolding signed_region
  signed_region_lem = range_lem r.raw 0 672 (omega arith) (omega arith)
