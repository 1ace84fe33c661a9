-- ===== src/Server/Tls.antt =====
-- poc/crates/sifir-server/src/tls.rs: the certificate with the attestation in it.
pub mod Served
pub mod NoPanic
use sifir.Base.{ℕ, ◌+◌, List, [], ◌∷◌, ◌⊎◌, Outcome, ok, ◌>>=◌, ◌>>◌, map_err, replicate}
use sifir.Base.Slices.{range, to_array, copy_from_slice}
use sifir.Base.Text.{Str, Bytes, text}
use sifir.Crates.{Crates, Serde, Extension}
use sifir.Attest.Report.{as_bytes}
use sifir.Attest.Payload.{AttestationExtension, attest_oid_arcs}
use sifir.Attest.Extension.{new_mock, new_amd, with_gpu_jwt, to_bytes}
use sifir.Attest.Mock.{sign_mock_report}
use sifir.Server.Kds.{Http, context, get_report_and_chain}
use sifir.Server.SnpGuest.{Kernel}
use sifir.Server.GpuAttestation.{Sidecar, get_gpu_jwt}

-- rcgen and rustls: key pairs, self-signed certificates with custom extensions, and the server
-- configuration. `generate` is the key pair that this run draws.
pub record Rcgen : Type 1 where
  pub KeyPair : Type 0
  pub ServerConfig : Type 0
  pub generate : Str ⊎ KeyPair
  pub serialized_der : KeyPair → Bytes
  pub self_signed : List Extension → KeyPair → Str ⊎ Bytes
  pub with_single_cert : List Bytes → Bytes → Str ⊎ ServerConfig

pub record TlsSetup (Config : Type 0) : Type 0 where
  pub server_config : Config
  pub measurement : Bytes

unfoldable pub extract_measurement : Bytes → Outcome Str Bytes
extract_measurement report_bytes = do m ← range report_bytes 0x090 (0x090 + 48); to_array 48 m

module _ (c : Crates) (g : Rcgen) where
  open g use {KeyPair, ServerConfig}

  unfoldable pub extract_spki_der : KeyPair → Outcome Str Bytes
  extract_spki_der key_pair = do
    temp_cert ← context (text "generate temp cert") (g.self_signed [] key_pair)
    x509 ← context (text "parse temp cert DER") (c.certificate_from_der temp_cert)
    context (text "encode SPKI DER") (c.spki_to_der x509)

  -- The key pair, the hash of its public key, and the user data for the report.
  unfoldable pub generate_keypair_and_hash : Outcome Str (KeyPair × Bytes × Bytes)
  generate_keypair_and_hash = do
    key_pair ← context (text "generate P-256 keypair") g.generate
    spki_der ← extract_spki_der key_pair
    let pubkey_hash = c.sha256 spki_der
    user_data ← copy_from_slice (replicate 64 0) 0 32 pubkey_hash
    ok (key_pair, pubkey_hash, user_data)

  module _ (s : Serde AttestationExtension) where
    unfoldable pub build_server_cert : KeyPair → AttestationExtension → Outcome Str ServerConfig
    build_server_cert key_pair ext = do
      let ext_bytes = to_bytes s ext
      cert ← context (text "generate attested cert") (
          g.self_signed (record { extn_id = attest_oid_arcs; extn_value = ext_bytes } ∷ [])
            key_pair)
      context (text "build ServerConfig")
          (g.with_single_cert (cert ∷ []) (g.serialized_der key_pair))

    unfoldable pub build_mock_setup : Outcome Str (TlsSetup ServerConfig)
    build_mock_setup = do
      key_pair ← context (text "generate P-256 keypair") g.generate
      spki_der ← extract_spki_der key_pair
      let pubkey_hash = c.sha256 spki_der
      report ← sign_mock_report c pubkey_hash (replicate 48 0)
      config ← build_server_cert key_pair (new_mock c (as_bytes report))
      ok (record { server_config = config; measurement = replicate 48 0 })

    module _ (http : Http) (kernel : Kernel) where
      unfoldable pub build_amd_setup : Str → Outcome Str (TlsSetup ServerConfig)
      build_amd_setup product = do
        (key_pair, pubkey_hash, user_data) ← generate_keypair_and_hash
        (report_bytes, vcek_chain) ←
            map_err (λ _. text "get AMD SNP report + VCEK chain")
              (get_report_and_chain c http kernel user_data product)
        measurement ← extract_measurement report_bytes
        config ← build_server_cert key_pair (new_amd c report_bytes vcek_chain)
        ok (record { server_config = config; measurement = measurement })

      unfoldable pub build_amd_gpu_setup : Sidecar → Str → Str → Outcome Str (TlsSetup ServerConfig)
      build_amd_gpu_setup sidecar product script_path = do
        (key_pair, pubkey_hash, user_data) ← generate_keypair_and_hash
        (report_bytes, vcek_chain) ←
            map_err (λ _. text "get AMD SNP report + VCEK chain")
              (get_report_and_chain c http kernel user_data product)
        measurement ← extract_measurement report_bytes
        gpu_jwt ←
            map_err (λ _. text "get GPU attestation JWT")
              (get_gpu_jwt c sidecar pubkey_hash script_path)
        let ext = with_gpu_jwt gpu_jwt (new_amd c report_bytes vcek_chain)
        config ← build_server_cert key_pair ext
        ok (record { server_config = config; measurement = measurement })
