-- ===== src/Attest/Report/Tests.antt =====
-- The unit tests of poc/crates/sifir-attest/src/report.rs.
use sifir.Base.{
  ◌+◌, ◌≡◌, refl, ok, ◌>>=◌, ◌==◌, ◌===◌, ===_self, replicate, length, length-replicate, Test,
  assert, arith,
}
use sifir.Base.Slices.{copy_from_slice, copy_from_slice_lem, patch, part-patch_self, length-patch}
use sifir.Base.Text.{Bytes}
use sifir.Attest.Report.{
  report_size, signed_region_size, off_measurement, measurement_size, default, new, measurement,
}
use sifir.Attest.Report.Fields.{measurement_lem}

unfoldable signed_region_ends_at_correct_offset : Test
signed_region_ends_at_correct_offset = assert (signed_region_size == 672)

unfoldable total_size_matches_spec : Test
total_size_matches_spec = assert (report_size == 1184)

unfoldable field_roundtrip : Test
field_roundtrip = do
  let bytes : Bytes = replicate measurement_size 0xab
  raw ← copy_from_slice default.raw off_measurement (off_measurement + measurement_size) bytes
  m ← measurement (new raw)
  assert (m === bytes)

-- The tests of the layout pass.
layout_tests_pass :
    (signed_region_ends_at_correct_offset ≡ ok tt) × (total_size_matches_spec ≡ ok tt)
unfolding signed_region_ends_at_correct_offset total_size_matches_spec
layout_tests_pass = (refl, refl)

-- A measurement that is written into an empty report is read back.
field_roundtrip_passes : field_roundtrip ≡ ok tt
unfolding field_roundtrip default new
field_roundtrip_passes =
    let bytes : Bytes = replicate 48 0xab in
    let z : Bytes = replicate 1184 0 in
    let lb : length bytes ≡ 48 = length-replicate 48 0xab in
    let lz : length z ≡ 1184 = length-replicate 1184 0 in
    let lp : length (patch 144 bytes z) ≡ 1184 = omega (arith, length-patch 144 bytes z) in
    rw (
      copy_from_slice_lem z 144 192 bytes (omega arith) (omega arith) (omega arith),
      measurement_lem {E = Unit {0}} (record { raw = patch 144 bytes z }) lp,
      (rw lb at (part-patch_self 144 bytes z (omega arith))),
      ===_self bytes,
    )
