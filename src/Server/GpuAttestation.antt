-- ===== src/Server/GpuAttestation.antt =====
-- poc/crates/sifir-server/src/gpu_attestation.rs: the GPU token from the Python sidecar.
pub mod Laws
use sifir.Base.{List, [], ◌∷◌, ◌++◌, ◌⊎◌, Bool, Outcome, ok, ◌>>=◌, ◌>>◌, guard}
use sifir.Base.Text.{Str, Bytes, text}
use sifir.Crates.{Crates}
use sifir.Server.Kds.{context}

-- `std::process::Output`: whether the exit status is a success, the text that the status displays,
-- the output, and the text that `from_utf8_lossy` makes of the error output.
pub record ProcessOutput : Type 0 where
  pub success : Bool
  pub status : Str
  pub stdout : Bytes
  pub stderr : Str

pub record GpuAttestResult : Type 0 where
  pub jwt : Str

-- Running a command with its arguments, and the deserialiser of the result.
pub record Sidecar : Type 0 where
  pub run : Str → List Str → Str ⊎ ProcessOutput
  pub from_slice : Bytes → Str ⊎ GpuAttestResult

unfoldable pub get_gpu_jwt : Crates → Sidecar → Bytes → Str → Outcome Str Str
get_gpu_jwt c sidecar tls_pubkey_hash script_path = do
  let nonce = c.hex_encode tls_pubkey_hash
  output ←
      context (text "spawn gpu_attest.py (script_path=" ++ script_path ++ text ")")
        (sidecar.run (text "python3") (script_path ∷ text "--nonce" ∷ nonce ∷ []))
  guard (text "gpu_attest.py exited with " ++ output.status ++ text ": " ++ output.stderr)
      output.success
  result ← context (text "parse gpu_attest.py JSON output") (sidecar.from_slice output.stdout)
  ok result.jwt
