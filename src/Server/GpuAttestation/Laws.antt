-- ===== src/Server/GpuAttestation/Laws.antt =====
-- When the sidecar's token is returned.
use sifir.Base.{
  ◌≡◌, ◌↔◌, ◌∷◌, [], inr, ok, true, guard, guard-eq-ok, >>=-ok_elim, attempt-eq-ok, ok-injective,
}
use sifir.Base.Text.{Str, Bytes, text}
use sifir.Crates.{Crates}
use sifir.Server.Kds.{context}
use sifir.Server.GpuAttestation.{Sidecar, ProcessOutput, GpuAttestResult, get_gpu_jwt}

module _ (c : Crates) (sidecar : Sidecar) (tls_pubkey_hash : Bytes) (script_path jwt : Str) where
  -- A token is returned exactly when the script runs with the hexadecimal hash as its nonce, ends
  -- with success, and prints a result with that token.
  pub get_gpu_jwt_iff : (get_gpu_jwt c sidecar tls_pubkey_hash script_path ≡ ok jwt) ↔ (
      (output : ProcessOutput) × (result : GpuAttestResult) × (sidecar.run
          (text "python3")
          (script_path ∷ text "--nonce" ∷ c.hex_encode tls_pubkey_hash ∷ [])
        ≡ inr output)
      × (output.success ≡ true)
      × (sidecar.from_slice output.stdout ≡ inr result)
      × (result.jwt ≡ jwt))
  unfolding get_gpu_jwt
  get_gpu_jwt_iff = (
    λ h. >>=-ok_elim (context _ (sidecar.run _ _)) _ h λ output a h1.
        >>=-ok_elim (guard _ output.success) _ h1 λ _ b h2.
          >>=-ok_elim (context _ (sidecar.from_slice output.stdout)) _ h2 λ result d e. (
            output,
            result,
            attempt-eq-ok _ _ a,
            guard-eq-ok _ _ b,
            attempt-eq-ok _ _ d,
            ok-injective e,
          ),
    λ (output, result, a, b, d, e). rw (a, b, d, e),
  )
