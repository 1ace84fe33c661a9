-- ===== src/Attest/Verify/Mock.antt =====
-- The mock signer and `verify` together.
use sifir.Base.{◌≡◌, refl, ◌∙◌, ap, ◌⊎◌, inr, ok, ◌>>=◌, length, replicate}
use sifir.Base.Slices.{part}
use sifir.Base.Text.{Bytes}
use sifir.Crates.{Crates}
use sifir.Crates.Laws.{IsP384, IsSha2}
use sifir.Attest.Report.{Report}
use sifir.Attest.Error.{mock, VerifyError}
use sifir.Attest.Mock.{
  mock_private_key_scalar, mock_verifying_key_sec1, mock_signing_key, sign_mock_report,
  tls_pubkey_hash,
}
use sifir.Attest.Mock.Signed.{IsMockReport, sign_mock_report_lem}
use sifir.Attest.Verify.{anchor_key, verify}
use sifir.Attest.Verify.Accept.{verify_iff}

module _ (c : Crates) (p : IsP384 c) where
  pub anchor_key-mock :
      (k : c.SigningKey)
      → c.signing_key_from_slice mock_private_key_scalar ≡ inr k
      → anchor_key c mock ≡ ok (c.verifying_key k)
  unfolding anchor_key mock_verifying_key_sec1 mock_signing_key
  anchor_key-mock k e = rw (e, p.key_from_sec1-key_to_sec1 (c.verifying_key k))

  -- A mock report passes under the mock key, for the TLS key whose hash it holds, if its measurement
  -- is the expected one or the expected one is all zeros.
  pub verify-IsMockReport :
      (r : Report) (pubkey m expected : Bytes)
      → IsMockReport c (c.sha256 pubkey) m r
      → (expected ≡ replicate 48 0) ⊎ (m ≡ expected)
      → verify c r.raw mock expected pubkey ≡ ok tt
  verify-IsMockReport r pubkey m expected s e =
      (verify_iff c r s.size mock expected pubkey).1 (record {
        bound = s.hashed;
        sig = c.sign s.key (part 0 672 r.raw);
        vk = c.verifying_key s.key;
        parsed =
            ap c.signature_try_from s.signature
            ∙ p.signature_try_from-signature_to_bytes (c.sign s.key (part 0 672 r.raw));
        anchored = anchor_key-mock s.key s.mock_key;
        signed = p.verify-sign s.key (part 0 672 r.raw);
        measured = rw s.measured e;
      })

  -- A report made by sign_mock_report from the hash of a TLS key is accepted under the mock key
  -- for that key, with its own measurement of 48 bytes as the expected one.
  pub verify-sign_mock_report :
      IsSha2 c
      → (pubkey m : Bytes) → length m ≡ 48
      → (do r ← sign_mock_report c (tls_pubkey_hash c pubkey) m; verify c r.raw mock m pubkey)
        ≡ ok tt
  unfolding tls_pubkey_hash
  verify-sign_mock_report h pubkey m hm =
      let (r, e, s) =
        sign_mock_report_lem {E = VerifyError} c p (c.sha256 pubkey) m (h.length-sha256 pubkey)
          hm in
      rw e (verify-IsMockReport r pubkey m m s (inr refl))
