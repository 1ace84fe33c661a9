-- ===== src/Attest/Verify/Errors.antt =====
-- How `verify` fails: the order of its checks, what its errors carry, and that it never panics.
use sifir.Base.{
  refl, ◌≡◌, ◌≢◌, inr, inl, ◌⊎◌, Bool, replicate, arith, ===_iff, Outcome, ok, err, panic, ◌>>=◌,
  ◌>>◌, attempt, guard,
}
use sifir.Base.Slices.{part}
use sifir.Base.Text.{Str, Bytes}
use sifir.Crates.{Crates}
use sifir.Crates.Laws.{IsP384}
use sifir.Attest.Report.{Report, new, IsReport}
use sifir.Attest.Error.{
  AttestationKey, mock, amd, VerifyError, key_binding_mismatch, measurement_mismatch, bad_signature,
}
use sifir.Attest.Mock.{mock_verifying_key_sec1, mock_signing_key}
use sifir.Attest.Mock.Signed.{mock_signing_key_total}
use sifir.Attest.AmdCerts.Errors.{FailsByChain, vcek_verifying_key-FailsByChain}
use sifir.Attest.Verify.{anchor_key, verify_signature, verify}
use sifir.Attest.Verify.Accept.{
  verify_key_binding_lem, verify_measurement_lem, IsAccepted, verify_signature-IsAccepted,
  verify_signature_lem,
}

module _ (c : Crates) (r : Report) (h : IsReport r) (key : AttestationKey)
    (expected pubkey : Bytes) where
  -- A report that is not bound to the TLS key is rejected with the two hashes, whatever its
  -- signature, the trust anchor and the measurement are.
  pub verify_unbound :
      part 80 32 r.raw ≢ c.sha256 pubkey
      → verify c r.raw key expected pubkey
        ≡ err (
            key_binding_mismatch (c.hex_encode (part 80 32 r.raw)) (c.hex_encode (c.sha256 pubkey)))
  unfolding verify new
  verify_unbound ne =
      rw (verify_key_binding_lem c r h pubkey)
        (ground (arith, ===_iff (part 80 32 r.raw) (c.sha256 pubkey)))

  -- A report that is accepted for another measurement is rejected with both measurements if it
  -- does not hold the expected one and that is not all zeros.
  pub verify_wrong_measurement :
      (other : Bytes)
      → IsAccepted c r key other pubkey
      → expected ≢ replicate 48 0
      → part 144 48 r.raw ≢ expected
      → verify c r.raw key expected pubkey
        ≡ err (measurement_mismatch (c.hex_encode expected) (c.hex_encode (part 144 48 r.raw)))
  unfolding verify new
  verify_wrong_measurement other a nz ne =
      let bound = a.bound in
      rw
        (
          verify_key_binding_lem c r h pubkey,
          verify_signature-IsAccepted c r h key other pubkey a,
          verify_measurement_lem c r h expected,
        )
        (ground (
          arith,
          ===_iff (part 80 32 r.raw) (c.sha256 pubkey),
          ===_iff expected (replicate 48 0),
          ===_iff (part 144 48 r.raw) expected,
        ))

ne_panic_of_FailsByChain : {A : Type 0} (m : Outcome VerifyError A) → FailsByChain m → m ≢ panic
ne_panic_of_FailsByChain (ok a) h e = cc
ne_panic_of_FailsByChain (err x) h e = cc
ne_panic_of_FailsByChain panic h e = elim h [ ]

anchor_key-ne-panic : (c : Crates) → IsP384 c → (key : AttestationKey) → anchor_key c key ≢ panic
unfolding anchor_key mock_verifying_key_sec1 mock_signing_key
anchor_key-ne-panic c p mock e =
    let (k, ek) = mock_signing_key_total c p in
    cc (ek, p.key_from_sec1-key_to_sec1 (c.verifying_key k))
anchor_key-ne-panic c p (amd chain) e =
    ne_panic_of_FailsByChain _ (vcek_verifying_key-FailsByChain c chain) e

signed-ne-panic :
    {S K : Type 0} (test : K → S → Bool) (s : Str ⊎ S) (k : Outcome VerifyError K)
    → k ≢ panic
    → (do sig ← attempt (λ _. bad_signature) s; vk ← k; guard bad_signature (test vk sig)) ≢ panic
signed-ne-panic test (inl e) k ne p = cc
signed-ne-panic test (inr sig) (ok vk) ne p = ground arith
signed-ne-panic test (inr sig) (err e) ne p = cc
signed-ne-panic test (inr sig) panic ne p = absurd (ne refl)

checks-ne-panic :
    (a b d : Outcome VerifyError (Unit {0}))
    → a ≢ panic
    → b ≢ panic
    → d ≢ panic
    → (do a; b; d; ok tt) ≢ panic
checks-ne-panic a b d ha hb hd p = ground arith

module _ (c : Crates) (p : IsP384 c) (r : Report) (h : IsReport r) (key : AttestationKey)
    (expected pubkey : Bytes) where
  verify_signature-ne-panic : verify_signature c r key ≢ panic
  verify_signature-ne-panic =
      rw (verify_signature_lem c r h key)
        (signed-ne-panic (λ k x. c.verify k (part 0 672 r.raw) x) _ _ (anchor_key-ne-panic c p key))

  -- On an array of the size of a report verify never panics, whatever bytes it holds, under
  -- either trust anchor, for every chain, if the P-384 package keeps its laws.
  pub verify-ne-panic : verify c r.raw key expected pubkey ≢ panic
  unfolding verify new
  verify-ne-panic =
      checks-ne-panic _ _ _ (rw (verify_key_binding_lem c r h pubkey) (λ e. ground arith))
        verify_signature-ne-panic (rw (verify_measurement_lem c r h expected) (λ e. ground arith))
