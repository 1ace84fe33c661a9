-- ===== src/Examples/Provider.antt =====
-- A crypto provider with one scheme, whose signature is the sum of the message and the certificate's
-- key.
use sifir.Base.{ℕ, ◌+◌, ◌===◌, [], ◌∷◌, inl, inr, ◌⊎◌, if◌then◌else◌}
use sifir.Base.Text.{Bytes, text}
use sifir.Client.Verifier.{TlsError, general, DigitallySignedStruct, CryptoProvider}
use sifir.Examples.Packages.{sum}

abbrev pub key_of : Bytes → ℕ
key_of [] = 0
key_of (k ∷ _) = k

abbrev pub toy_check : Bytes → Bytes → DigitallySignedStruct → TlsError ⊎ Unit {0}
toy_check message cert dss =
    if dss.sig === ((key_of cert + sum message) ∷ [])
    then inr tt
    else inl (general (text "bad signature"))

abbrev pub toy_provider : CryptoProvider
toy_provider = record {
  signature_verification_algorithms = record {
    supported_schemes = 0x0403 ∷ [];
    verify_tls12_signature = toy_check;
    verify_tls13_signature = toy_check;
  };
}
