-- ===== src/Attest/Mock/Signed.antt =====
-- What a mock report holds, byte range by byte range.
use sifir.Base.{
  ℕ, ◌+◌, ◌≤◌, ◌<◌, ◌≡◌, sym, ap, ◌∙◌, ◌++◌, inr, arith, ok, length, replicate, length-replicate,
}
use sifir.Base.Slices.{
  part, patch, range_lem, length-part, length-patch, part-patch_self, part-patch_before,
  part-append-part, part-replicate,
}
use sifir.Base.Text.{Bytes, to_le_bytes}
use sifir.Crates.{Crates}
use sifir.Crates.Laws.{IsP384, scalar, order}
use sifir.Attest.Report.{Report, IsReport, new, as_bytes, default}
use sifir.Attest.Mock.{mock_private_key_scalar, mock_signing_key, write_signature, sign_mock_report}
use sifir.Attest.Mock.Stages.{
  copy_lem, unsigned, write_fields_lem, unsigned-measurement, unsigned-hash, unsigned-version,
  unsigned-padding,
}

-- The report after the write of R, and after the write of S.
abbrev with_r : Bytes → Bytes → Bytes
with_r raw sig_bytes = patch 672 (part 0 48 sig_bytes) raw

abbrev signed : Bytes → Bytes → Bytes
signed raw sig_bytes = patch 744 (part 48 48 sig_bytes) (with_r raw sig_bytes)

-- The bytes of a signed region are those of the unsigned report, and the two scalars are the halves
-- of the signature.
module _ (raw sig_bytes : Bytes) (hr : length raw ≡ 1184) (hs : length sig_bytes ≡ 96) where
  length-halves :
      (length (part 0 48 sig_bytes) ≡ 48)
      × (length (part 48 48 sig_bytes) ≡ 48)
      × (length (with_r raw sig_bytes) ≡ 1184)
  length-halves =
      let a : length (part 0 48 sig_bytes) ≡ 48 = length-part 0 48 sig_bytes (omega arith) in
      (
        a,
        length-part 48 48 sig_bytes (omega arith),
        omega (arith, length-patch 672 (part 0 48 sig_bytes) raw),
      )

  length-signed : length (signed raw sig_bytes) ≡ 1184
  length-signed =
      let (a, b, l) = length-halves in
      omega (arith, length-patch 744 (part 48 48 sig_bytes) (with_r raw sig_bytes))

  part-signed : (a n : ℕ) → a + n ≤ 672 → part a n (signed raw sig_bytes) ≡ part a n raw
  part-signed a n h =
      let (x, y, l) = length-halves in
      part-patch_before a n 744 (part 48 48 sig_bytes) (with_r raw sig_bytes) (omega arith)
        (omega arith)
      ∙ part-patch_before a n 672 (part 0 48 sig_bytes) raw h (omega arith)

  scalars-signed :
      part 672 48 (signed raw sig_bytes) ++ part 744 48 (signed raw sig_bytes) ≡ sig_bytes
  scalars-signed =
      let (a, b, l) = length-halves in
      let r : part 672 48 (signed raw sig_bytes) ≡ part 0 48 sig_bytes =
        part-patch_before 672 48 744 (part 48 48 sig_bytes) (with_r raw sig_bytes) (omega arith)
          (omega arith)
        ∙ (rw a at (part-patch_self 672 (part 0 48 sig_bytes) raw (omega arith))) in
      let s : part 744 48 (signed raw sig_bytes) ≡ part 48 48 sig_bytes =
        rw b at (part-patch_self 744 (part 48 48 sig_bytes) (with_r raw sig_bytes) (omega arith)) in
      rw (r, s) (part-append-part 48 48 sig_bytes hs)

module _ {ℓ} {E : Type ℓ} (c : Crates) (p : IsP384 c) (key : c.SigningKey) (raw : Bytes)
    (hr : length raw ≡ 1184) where
  write_signature_lem :
      write_signature c {E = E} key raw
      ≡ ok (signed raw (c.signature_to_bytes (c.sign key (part 0 672 raw))))
  unfolding write_signature
  write_signature_lem =
      let sb : Bytes = c.signature_to_bytes (c.sign key (part 0 672 raw)) in
      let hs : length sb ≡ 96 = p.length-signature_to_bytes (c.sign key (part 0 672 raw)) in
      let (a, b, l) = length-halves raw sb hr hs in
      let (e1, l1) = copy_lem {E = E} raw (part 0 48 sb) 672 720 hr (omega arith) (omega arith) a in
      let (e2, l2) =
        copy_lem {E = E} (with_r raw sb) (part 48 48 sb) 744 792 l (omega arith) (omega arith) b in
      rw (
        range_lem raw 0 672 (omega arith) (omega arith),
        range_lem sb 0 48 (omega arith) (omega arith),
        hs,
        range_lem sb 48 96 (omega arith) (omega arith),
        e1,
        e2,
      )

-- What `sign_mock_report` promises of its report.
pub record IsMockReport (c : Crates) (hash m : Bytes) (r : Report) : Type 0 where
  pub size : IsReport r
  pub version : part 0 4 r.raw ≡ to_le_bytes 2
  pub hashed : part 80 32 r.raw ≡ hash
  pub padding : part 112 32 r.raw ≡ replicate 32 0
  pub measured : part 144 48 r.raw ≡ m
  pub key : c.SigningKey
  pub mock_key : c.signing_key_from_slice mock_private_key_scalar ≡ inr key
  pub signature :
      part 672 48 r.raw ++ part 744 48 r.raw ≡ c.signature_to_bytes (c.sign key (part 0 672 r.raw))

mock_scalar_bounds :
    (length mock_private_key_scalar ≡ 48)
    × (0 < scalar mock_private_key_scalar)
    × (scalar mock_private_key_scalar < order)
unfolding scalar order mock_private_key_scalar
mock_scalar_bounds = omega arith

-- The mock scalar is a valid signing key, so the `expect` never panics.
pub mock_signing_key_total :
    (c : Crates)
    → IsP384 c
    → (k : c.SigningKey) × (c.signing_key_from_slice mock_private_key_scalar ≡ inr k)
mock_signing_key_total c p =
    let (l, pos, lt) = mock_scalar_bounds in
    p.signing_key_of_scalar mock_private_key_scalar l pos lt

module _ {ℓ} {E : Type ℓ} (c : Crates) (p : IsP384 c) (hash m : Bytes) (hh : length hash ≡ 32)
    (hm : length m ≡ 48) where
  -- For a hash of 32 bytes and a measurement of 48 the mock signer never panics, and its report
  -- holds the version, the hash, zeros behind the hash, the measurement and a signature of the
  -- first 672 bytes by the mock key.
  pub sign_mock_report_lem :
      (r : Report) × (sign_mock_report c {E = E} hash m ≡ ok r) × IsMockReport c hash m r
  unfolding sign_mock_report mock_signing_key as_bytes default new
  sign_mock_report_lem =
      let z : Bytes = replicate 1184 0 in
      let hz : length z ≡ 1184 = length-replicate 1184 0 in
      let (k, ek) = mock_signing_key_total c p in
      let (ew, lw) = write_fields_lem {E = E} c hash m z hh hm hz in
      let raw : Bytes = unsigned hash m z in
      let sb : Bytes = c.signature_to_bytes (c.sign k (part 0 672 raw)) in
      let hs : length sb ≡ 96 = p.length-signature_to_bytes (c.sign k (part 0 672 raw)) in
      let kept : (a n : ℕ) → a + n ≤ 672 → part a n (signed raw sb) ≡ part a n raw =
        part-signed raw sb lw hs in
      (
        record { raw = signed raw sb },
        rw (ew, ek, write_signature_lem {E = E} c p k raw lw),
        record {
          size = length-signed raw sb lw hs;
          version = kept 0 4 (omega arith) ∙ unsigned-version hash m z hh hm hz;
          hashed = kept 80 32 (omega arith) ∙ unsigned-hash hash m z hh hm hz;
          padding =
              kept 112 32 (omega arith)
              ∙ unsigned-padding hash m z hh hm hz
              ∙ part-replicate 112 32 1184 0 (omega arith);
          measured = kept 144 48 (omega arith) ∙ unsigned-measurement hash m z hh hm hz;
          key = k;
          mock_key = ek;
          signature =
              scalars-signed raw sb lw hs
              ∙ ap (λ (b : Bytes). c.signature_to_bytes (c.sign k b))
                  (sym (kept 0 672 (omega arith)));
        },
      )
