-- ===== src/Examples.antt =====
-- Concrete runs: the parameters of the model as small functions that keep the laws, the tests, and
-- an application of each theorem that has hypotheses.
mod Packages
mod Payload
mod Hardware
mod Rcgen
mod Gpu
mod Provider
mod Axum
mod Setups
mod Runs
mod Attestation
mod Client
mod Server
mod App
mod System
mod Session
