-- ===== src/Attest/Verify/Accept.antt =====
-- What a report must be to pass `verify`, over the byte ranges of the report.
use sifir.Base.{
  ℕ, ◌≡◌, ◌↔◌, ◌⊎◌, inl, inr, ◌++◌, length, replicate, length-replicate, arith, refl, ap, Outcome,
  ok, ◌>>=◌, ◌>>◌, ◌===◌, ===_iff, if◌then◌else◌, err, guard-eq-ok, attempt, guard, true, Bool,
  panic,
}
use sifir.Base.Slices.{
  part, patch, part-part, range_lem, copy_from_slice_lem, length-part, length-patch, patch_halves,
}
use sifir.Base.Text.{Str, Bytes}
use sifir.Crates.{Crates}
use sifir.Attest.Report.{Report, new, IsReport}
use sifir.Attest.Report.Fields.{
  report_data_lem, measurement_lem, sig_r_lem, sig_s_lem, signed_region_lem,
}
use sifir.Attest.Error.{
  AttestationKey, VerifyError, bad_signature, key_binding_mismatch, measurement_mismatch,
}
use sifir.Attest.Verify.{
  verify_key_binding, signature_bytes, anchor_key, verify_signature, verify_measurement, verify,
}

-- The conditions of acceptance, as a specification over the bytes of the report.
pub record IsAccepted (c : Crates) (r : Report) (key : AttestationKey) (expected pubkey : Bytes)
    : Type 0 where
  pub bound : part 80 32 r.raw ≡ c.sha256 pubkey
  pub sig : c.Signature
  pub vk : c.VerifyingKey
  pub parsed : c.signature_try_from (part 672 48 r.raw ++ part 744 48 r.raw) ≡ inr sig
  pub anchored : anchor_key c key ≡ ok vk
  pub signed : c.verify vk (part 0 672 r.raw) sig ≡ true
  pub measured : (expected ≡ replicate 48 0) ⊎ (part 144 48 r.raw ≡ expected)

-- The last steps of `verify_signature`, over what the decoders and the trust anchor return.
signed-eq-ok :
    {S K : Type 0} (test : K → S → Bool) (s : Str ⊎ S) (k : Outcome VerifyError K)
    → (do sig ← attempt (λ _. bad_signature) s; vk ← k; guard bad_signature (test vk sig)) ≡ ok tt
    → (sig : S) × (vk : K) × (s ≡ inr sig) × (k ≡ ok vk) × (test vk sig ≡ true)
signed-eq-ok test (inr sig) (ok vk) h = (sig, vk, refl, refl, guard-eq-ok _ _ h)
signed-eq-ok test (inr sig) (err e) h = cc
signed-eq-ok test (inr sig) panic h = cc
signed-eq-ok test (inl e) k h = cc

-- A row of checks passes when each does.
checks_iff :
    {E : Type 0} (a b d : Outcome E (Unit {0}))
    → ((do a; b; d; ok tt) ≡ ok tt) ↔ ((a ≡ ok tt) × (b ≡ ok tt) × (d ≡ ok tt))
checks_iff a b d = ground arith

module _ (c : Crates) (r : Report) (h : IsReport r) where
  pub verify_key_binding_lem :
      (pubkey : Bytes)
      → verify_key_binding c r pubkey ≡ (
          if part 80 32 r.raw === c.sha256 pubkey
          then ok tt
          else err (
              key_binding_mismatch
                (c.hex_encode (part 80 32 r.raw))
                (c.hex_encode (c.sha256 pubkey))))
  unfolding verify_key_binding
  verify_key_binding_lem pubkey = rw (
    report_data_lem r h,
    range_lem (part 80 64 r.raw) 0 32 (omega arith) (omega (arith, length-part 80 64 r.raw)),
    part-part 0 32 80 64 r.raw (omega arith),
  )

  pub signature_bytes_lem : signature_bytes c r ≡ ok (part 672 48 r.raw ++ part 744 48 r.raw)
  unfolding signature_bytes
  signature_bytes_lem =
      let lr : length (part 672 48 r.raw) ≡ 48 = length-part 672 48 r.raw (omega arith) in
      let ls : length (part 744 48 r.raw) ≡ 48 = length-part 744 48 r.raw (omega arith) in
      let lz : length (replicate {A = ℕ} 96 0) ≡ 96 = length-replicate 96 0 in
      rw
        (
          sig_r_lem r h,
          copy_from_slice_lem (replicate 96 0) 0 48 (part 672 48 r.raw) (omega arith) (omega arith)
              (omega arith),
          sig_s_lem r h,
          copy_from_slice_lem (patch 0 (part 672 48 r.raw) (replicate 96 0)) 48 96
              (part 744 48 r.raw) (omega arith)
              (omega (arith, length-patch 0 (part 672 48 r.raw) (replicate 96 0))) (omega arith),
        )
        (ap ok (
          rw lr at
            (patch_halves (part 672 48 r.raw) (part 744 48 r.raw) (replicate 96 0) (omega arith))))

  pub verify_measurement_lem :
      (expected : Bytes)
      → verify_measurement c r expected ≡ (
          if expected === replicate 48 0
          then ok tt
          else if part 144 48 r.raw === expected
          then ok tt
          else err
              (measurement_mismatch (c.hex_encode expected) (c.hex_encode (part 144 48 r.raw))))
  unfolding verify_measurement
  verify_measurement_lem expected = rw (measurement_lem r h)

  verify_key_binding_iff :
      (pubkey : Bytes)
      → (verify_key_binding c r pubkey ≡ ok tt) ↔ (part 80 32 r.raw ≡ c.sha256 pubkey)
  verify_key_binding_iff pubkey =
      rw (verify_key_binding_lem pubkey)
        (ground (arith, ===_iff (part 80 32 r.raw) (c.sha256 pubkey)))

  verify_measurement_iff :
      (expected : Bytes)
      → (verify_measurement c r expected ≡ ok tt)
        ↔ ((expected ≡ replicate 48 0) ⊎ (part 144 48 r.raw ≡ expected))
  verify_measurement_iff expected =
      rw (verify_measurement_lem expected)
        (ground (arith, ===_iff expected (replicate 48 0), ===_iff (part 144 48 r.raw) expected))

  module _ (key : AttestationKey) where
    pub verify_signature_lem : verify_signature c r key ≡ (do
      sig ←
          attempt
            (λ _. bad_signature)
            (c.signature_try_from (part 672 48 r.raw ++ part 744 48 r.raw))
      vk ← anchor_key c key
      guard bad_signature (c.verify vk (part 0 672 r.raw) sig))
    unfolding verify_signature
    verify_signature_lem = simp (signature_bytes_lem, signed_region_lem {E = VerifyError} r h)

    module _ (expected pubkey : Bytes) where
      pub verify_signature-IsAccepted :
          IsAccepted c r key expected pubkey → verify_signature c r key ≡ ok tt
      verify_signature-IsAccepted a = rw (verify_signature_lem, a.parsed, a.anchored, a.signed)

      -- On a report of the right size, verify succeeds exactly when its first 32 bytes of user
      -- data are the hash of the TLS key, its signature over the first 672 bytes verifies under
      -- the key of the trust anchor, and its measurement is the expected one or the expected one
      -- is all zeros.
      pub verify_iff :
          (verify c r.raw key expected pubkey ≡ ok tt) ↔ IsAccepted c r key expected pubkey
      unfolding verify new
      verify_iff = (
        λ e.
            let (b, s, m) =
              (checks_iff (verify_key_binding c r pubkey) (verify_signature c r key)
                  (verify_measurement c r expected)).0
                e in
            let (sig, vk, parsed, anchored, signed) =
              signed-eq-ok (λ k x. c.verify k (part 0 672 r.raw) x) _ _
                (rw verify_signature_lem at s) in
            record {
              bound = (verify_key_binding_iff pubkey).0 b;
              sig = sig;
              vk = vk;
              parsed = parsed;
              anchored = anchored;
              signed = signed;
              measured = (verify_measurement_iff expected).0 m;
            },
        λ a.
            (checks_iff (verify_key_binding c r pubkey) (verify_signature c r key)
                (verify_measurement c r expected)).1
              (
                (verify_key_binding_iff pubkey).1 a.bound,
                verify_signature-IsAccepted a,
                (verify_measurement_iff expected).1 a.measured,
              ),
      )
