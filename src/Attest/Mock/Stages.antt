-- ===== src/Attest/Mock/Stages.antt =====
-- The writes of `sign_mock_report` in front of the signature, byte range by byte range.
use sifir.Base.{ℕ, ◌-◌, ◌≤◌, ◌≡◌, sym, ◌∙◌, arith, ok, length}
use sifir.Base.Slices.{
  part, patch, copy_from_slice, copy_from_slice_lem, length-patch, part-patch_self,
  part-patch_before, part-patch_after,
}
use sifir.Base.Text.{Bytes, to_le_bytes, length-to_le_bytes}
use sifir.Crates.{Crates}
use sifir.Attest.Mock.{write_fields}

-- Writing a slice into an array of the size of a report.
pub copy_lem {ℓ} :
    {E : Type ℓ} (raw src : Bytes) (lo hi : ℕ)
    → length raw ≡ 1184
    → lo ≤ hi
    → hi ≤ 1184
    → length src ≡ hi - lo
    → (copy_from_slice {E = E} raw lo hi src ≡ ok (patch lo src raw))
      × (length (patch lo src raw) ≡ 1184)
copy_lem raw src lo hi h le le' e = (
  copy_from_slice_lem raw lo hi src le (omega arith) (sym e),
  length-patch lo src raw (omega arith) ∙ h,
)

-- The report after each of the writes in front of the signature.
abbrev versioned : Bytes → Bytes
versioned raw = patch 0 (to_le_bytes 2) raw

abbrev with_algorithm : Bytes → Bytes
with_algorithm raw = patch 52 (to_le_bytes 1) (versioned raw)

abbrev with_hash : Bytes → Bytes → Bytes
with_hash hash raw = patch 80 hash (with_algorithm raw)

pub unsigned : Bytes → Bytes → Bytes → Bytes
unsigned hash m raw = patch 144 m (with_hash hash raw)

module _ {ℓ} {E : Type ℓ} (c : Crates) (hash m raw : Bytes) (hh : length hash ≡ 32)
    (hm : length m ≡ 48) (hr : length raw ≡ 1184) where
  pub write_fields_lem :
      (write_fields c {E = E} raw hash m ≡ ok (unsigned hash m raw))
      × (length (unsigned hash m raw) ≡ 1184)
  unfolding write_fields unsigned
  write_fields_lem =
      let (e1, l1) =
        copy_lem {E = E} raw (to_le_bytes 2) 0 4 hr (omega arith) (omega arith)
          (length-to_le_bytes 2) in
      let (e2, l2) =
        copy_lem {E = E} _ (to_le_bytes 1) 52 56 l1 (omega arith) (omega arith)
          (length-to_le_bytes 1) in
      let (e3, l3) = copy_lem {E = E} _ hash 80 112 l2 (omega arith) (omega arith) hh in
      let (e4, l4) = copy_lem {E = E} _ m 144 192 l3 (omega arith) (omega arith) hm in
      (rw (e1, e2, e3, e4), l4)

module _ (hash m raw : Bytes) (hh : length hash ≡ 32) (hm : length m ≡ 48)
    (hr : length raw ≡ 1184) where
  length-stages :
      (length (versioned raw) ≡ 1184)
      × (length (with_algorithm raw) ≡ 1184)
      × (length (with_hash hash raw) ≡ 1184)
  length-stages =
      let l2 : length (to_le_bytes 2) ≡ 4 = length-to_le_bytes 2 in
      let l1 : length (to_le_bytes 1) ≡ 4 = length-to_le_bytes 1 in
      let a : length (versioned raw) ≡ 1184 = omega (arith, length-patch 0 (to_le_bytes 2) raw) in
      let b : length (with_algorithm raw) ≡ 1184 =
        omega (arith, length-patch 52 (to_le_bytes 1) (versioned raw)) in
      (a, b, omega (arith, length-patch 80 hash (with_algorithm raw)))

  pub unsigned-measurement : part 144 48 (unsigned hash m raw) ≡ m
  unfolding unsigned
  unsigned-measurement =
      let (a, b, d) = length-stages in
      rw hm at (part-patch_self 144 m (with_hash hash raw) (omega arith))

  pub unsigned-hash : part 80 32 (unsigned hash m raw) ≡ hash
  unfolding unsigned
  unsigned-hash =
      let (a, b, d) = length-stages in
      part-patch_before 80 32 144 m (with_hash hash raw) (omega arith) (omega arith)
      ∙ (rw hh at (part-patch_self 80 hash (with_algorithm raw) (omega arith)))

  pub unsigned-version : part 0 4 (unsigned hash m raw) ≡ to_le_bytes 2
  unfolding unsigned
  unsigned-version =
      let (a, b, d) = length-stages in
      let l : length (to_le_bytes 2) ≡ 4 = length-to_le_bytes 2 in
      part-patch_before 0 4 144 m (with_hash hash raw) (omega arith) (omega arith)
      ∙ part-patch_before 0 4 80 hash (with_algorithm raw) (omega arith) (omega arith)
      ∙ part-patch_before 0 4 52 (to_le_bytes 1) (versioned raw) (omega arith) (omega arith)
      ∙ (rw l at (part-patch_self 0 (to_le_bytes 2) raw (omega arith)))

  pub unsigned-padding : part 112 32 (unsigned hash m raw) ≡ part 112 32 raw
  unfolding unsigned
  unsigned-padding =
      let (a, b, d) = length-stages in
      let l2 : length (to_le_bytes 2) ≡ 4 = length-to_le_bytes 2 in
      let l1 : length (to_le_bytes 1) ≡ 4 = length-to_le_bytes 1 in
      part-patch_before 112 32 144 m (with_hash hash raw) (omega arith) (omega arith)
      ∙ part-patch_after 112 32 80 hash (with_algorithm raw) (omega arith) (omega arith)
      ∙ part-patch_after 112 32 52 (to_le_bytes 1) (versioned raw) (omega arith) (omega arith)
      ∙ part-patch_after 112 32 0 (to_le_bytes 2) raw (omega arith) (omega arith)
