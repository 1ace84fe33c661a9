-- ===== src/Attest/AmdCerts/Tests.antt =====
-- The unit tests of poc/crates/sifir-attest/src/amd_certs.rs.
use sifir.Base.{[], ◌∷◌, ◌≡◌, refl, ok, ◌>>=◌, Bool, true, false, Test, assert, unwrap_err}
use sifir.Crates.{Crates}
use sifir.Attest.Error.{VerifyError, cert_chain}
use sifir.Attest.AmdCerts.{vcek_verifying_key}

-- `matches!(err, VerifyError::CertChain(_))`
abbrev is_cert_chain : VerifyError → Bool
is_cert_chain (cert_chain s) = true
is_cert_chain _ = false

module _ (c : Crates) where
  unfoldable empty_chain_returns_error : Test
  empty_chain_returns_error = do e ← unwrap_err (vcek_verifying_key c []); assert (is_cert_chain e)

  unfoldable short_chain_returns_error : Test
  short_chain_returns_error = do
    e ← unwrap_err (vcek_verifying_key c ((0 ∷ []) ∷ (0 ∷ []) ∷ []))
    assert (is_cert_chain e)

  -- The tests on short chains pass, whatever the packages do.
  short_chain_tests_pass : (empty_chain_returns_error ≡ ok tt) × (short_chain_returns_error ≡ ok tt)
  unfolding empty_chain_returns_error short_chain_returns_error vcek_verifying_key
  short_chain_tests_pass = (refl, refl)
