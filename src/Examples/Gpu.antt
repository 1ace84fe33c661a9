-- ===== src/Examples/Gpu.antt =====
-- A sidecar that answers with a token over the nonce that it is given, and the claims of the token.
use sifir.Base.{◌≡◌, refl, ap, List, [], ◌∷◌, inl, inr, ◌⊎◌, some, ok, true}
use sifir.Base.Text.{Str, Bytes, text, to_lowercase}
use sifir.Client.GpuVerify.{NvidiaClaims, GpuClaims}
use sifir.Client.GpuVerify.Laws.{IsValidJwt, token, split-token}
use sifir.Server.GpuAttestation.{Sidecar, ProcessOutput, get_gpu_jwt}
use sifir.Examples.Packages.{toy, toy_hex, toy_sha256, shift, unshift-shift, shift-Lacks}

abbrev pub toy_nvidia : Bytes → Str ⊎ NvidiaClaims
toy_nvidia b =
    inr (record { nonce = some b; cc_mode = some (text "On"); gpu_model = some (text "H100") })

abbrev pub toy_token : Bytes → Str
toy_token nonce = token toy toy_nvidia (b'h' ∷ []) (shift nonce) (b's' ∷ [])

abbrev toy_run : Str → List Str → Str ⊎ ProcessOutput
toy_run program (script ∷ flag ∷ nonce ∷ []) = inr (record {
  success = true;
  status = text "exit status: 0";
  stdout = toy_token nonce;
  stderr = text "";
})
toy_run program _ = inl (text "usage")

abbrev pub toy_sidecar : Sidecar
toy_sidecar = record { run = toy_run; from_slice = λ b. inr (record { jwt = b }) }

abbrev pub toy_claims : GpuClaims
toy_claims = record { gpu_model = text "H100"; cc_mode = text "On" }

lowercase_lem : to_lowercase (text "On") ≡ text "on"
unfolding to_lowercase text
lowercase_lem = refl

pub toy_token-IsValidJwt :
    (spki : Bytes)
    → IsValidJwt toy toy_nvidia (toy_token (toy_hex (toy_sha256 spki))) spki toy_claims
toy_token-IsValidJwt spki =
    let nonce = toy_hex (toy_sha256 spki) in
    record {
      header = b'h' ∷ [];
      payload = shift nonce;
      signature = b's' ∷ [];
      three_parts =
          split-token toy toy_nvidia (b'h' ∷ []) (shift nonce) (b's' ∷ []) (refl, tt)
            (shift-Lacks nonce) (refl, tt);
      payload_bytes = nonce;
      decodes = ap inr (unshift-shift nonce);
      claims = record {
        nonce = some nonce;
        cc_mode = some (text "On");
        gpu_model = some (text "H100");
      };
      parses = refl;
      bound = record { nonce = refl; cc_mode = refl; cc_on = lowercase_lem; gpu_model = refl };
    }

pub get_gpu_jwt_lem :
    (script spki jwt : Bytes)
    → get_gpu_jwt toy toy_sidecar (toy_sha256 spki) script ≡ ok jwt
    → (claims : GpuClaims) × IsValidJwt toy toy_nvidia jwt spki claims
unfolding get_gpu_jwt
get_gpu_jwt_lem script spki jwt h =
    let e : toy_token (toy_hex (toy_sha256 spki)) ≡ jwt = cc h in
    rw (← e) (toy_claims, toy_token-IsValidJwt spki)
