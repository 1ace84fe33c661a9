-- ===== src/Lib.antt =====
-- sifir: remote attestation over TLS, modelled from the three crates of poc/crates.
--
-- The server makes a key pair, gets an attestation report that is bound to the public key, and
-- presents a self-signed certificate with the report in an extension. The client checks the report
-- in the handshake and sends its prompt only then; the server hands the request on to a backend.
--
-- Base: lists, slices with the panics of indexing, results with errors and panics, text, decimal
--   numbers, lines.
-- Crates: the third-party packages as parameters, and the laws that theorems ask of them (Crates.Laws).
-- Attest: poc/crates/sifir-attest/src.
--   Report is report.rs; Payload and Extension are attest_ext.rs; Mock is mock.rs; AmdCerts is
--   amd_certs.rs; Error and Verify are verify.rs. A function of the code has its name here.
-- Client: poc/crates/sifir-client/src.
--   GpuVerify is gpu_verify.rs; Verifier is verifier.rs; Request is request.rs; Main is main.rs.
-- Server: poc/crates/sifir-server/src.
--   SnpGuest, Kds and Pem are amd_attestation.rs: the firmware, the key distribution service and
--   `parse_pem_bundle`. GpuAttestation is gpu_attestation.rs; Tls is tls.rs; Proxy is proxy.rs. main.rs
--   is in three: App, the router's table, the handlers and the answer to a request; Main, the choice
--   of the setup, the accept loop and `main`; Tasks, the tasks that the loop spawns, as a process that
--   makes the steps of a schedule.
-- System: the two programs together: what the server presents in the client's hands, with what it
--   expects of the key distribution service for that (KeyService), the client's request in the
--   server's handler (Inference), and a whole run with the handshake, of TLS 1.2 or 1.3 (Session).
-- A module Tests below a part has the unit tests of its file, as definitions that panic when a test
--   fails.
-- Examples: the parameters as small functions, and the theorems applied to them.
--
-- A byte and a character are natural numbers; a fixed array is a list, with its length as a hypothesis
-- where the type of the code says it. A function that can fail returns an `Outcome`: a value, an error
-- with the text that the code displays, or a panic. An `anyhow::Error` is the text that it displays
-- outermost. State that the code mutates in place is passed on. The request number of the ioctl is
-- computed in 64 bits.
--
-- The only fuel is in `decimal`, the printing of numbers: the number itself and one more, which is
-- enough since every step divides by ten.
--
-- A schedule of the server is a list of steps: a connection is accepted, the listener fails, or a
-- task goes on. `run` makes them one after the other, and has no result if a step cannot be made. A
-- request brings the backend with it, as it is while the request is served, so that the answers of a
-- backend may change from one request to the next. Serving a request is one step: the tasks share
-- nothing that one of them could change.
--
-- Not modelled: the parsing of arguments by clap, log lines, the records of TLS below the calls of
-- the verifier, HTTP's framing by hyper, the panics in the task of a connection
-- (reqwest::Client::new() in proxy.rs without a TLS backend, Response::builder().unwrap() in
-- main.rs), the Python programs in poc/inference. Cryptography, base64, hexadecimal text, X.509,
-- JSON, HTTP, axum's router, the kernel and processes are parameters, with what their packages
-- document as laws.
pub mod Base
pub mod Attest
pub mod Crates
pub mod Client
pub mod Server
pub mod System
pub mod Examples
