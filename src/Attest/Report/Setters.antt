-- ===== src/Attest/Report/Setters.antt =====
-- Writing the two scalars of the signature.
use sifir.Base.{refl, ◌≡◌, ◌∙◌, sym, ap, ok, arith, length}
use sifir.Base.Slices.{patch, length-patch, part-patch_self, part-patch_before, copy_from_slice_lem}
use sifir.Base.Text.{Bytes}
use sifir.Attest.Report.{Report, IsReport, new, set_sig_r, set_sig_s, sig_r, sig_s, signed_region}
use sifir.Attest.Report.Fields.{sig_r_lem, sig_s_lem, signed_region_lem}

module _ (r : Report) (h : IsReport r) (b s : Bytes) (hb : length b ≡ 48) (hs : length s ≡ 48) where
  abbrev with_r : Bytes
  with_r = patch 672 b r.raw

  abbrev with_s : Bytes
  with_s = patch 744 s with_r

  lengths : (length with_r ≡ 1184) × (length with_s ≡ 1184)
  lengths =
      let l : length with_r ≡ 1184 = omega (arith, length-patch 672 b r.raw) in
      (l, omega (arith, length-patch 744 s with_r))

  -- On a report of the right size both scalars of the signature, written one behind the other,
  -- are read back, and the signed region is as before.
  pub set_sig_roundtrip {ℓ} :
      {E : Type ℓ}
      → (q t : Report) × (set_sig_r {E = E} b r ≡ ok q)
        × (set_sig_s {E = E} s q ≡ ok t)
        × (sig_r {E = E} t ≡ ok b)
        × (sig_s {E = E} t ≡ ok s)
        × (signed_region {E = E} t ≡ signed_region {E = E} r)
  unfolding set_sig_r set_sig_s new
  set_sig_roundtrip {E = E} =
      let (l, m) = lengths in
      let t : Report = record { raw = with_s } in
      (
        record { raw = with_r },
        t,
        rw (copy_from_slice_lem {E = E} r.raw 672 720 b (omega arith) (omega arith) (omega arith))
            refl,
        rw (copy_from_slice_lem {E = E} with_r 744 792 s (omega arith) (omega arith) (omega arith))
            refl,
        sig_r_lem t m
            ∙ ap ok (
                part-patch_before 672 48 744 s with_r (omega arith) (omega arith)
                ∙ (rw hb at (part-patch_self 672 b r.raw (omega arith)))),
        sig_s_lem t m ∙ ap ok (rw hs at (part-patch_self 744 s with_r (omega arith))),
        signed_region_lem t m
            ∙ ap ok (
                part-patch_before 0 672 744 s with_r (omega arith) (omega arith)
                ∙ part-patch_before 0 672 672 b r.raw (omega arith) (omega arith))
            ∙ sym (signed_region_lem r h),
      )
