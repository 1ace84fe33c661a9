-- ===== src/Client/Main/NoPanic.antt =====
-- The client never panics.
use sifir.Base.{
  ℕ, ◌≢◌, inl, inr, ◌⊎◌, ◌++◌, ◌==◌, length, Bool-cases, ==_iff, panic, attempt, >>=-ne-panic,
  attempt-ne-panic, map_err-ne-panic,
}
use sifir.Base.Text.{Str, text}
use sifir.Base.Text.Lines.{trim}
use sifir.Crates.{Crates}
use sifir.Crates.Web.{Reqwest}
use sifir.Client.Verifier.{AttestationVerifier, CryptoProvider}
use sifir.Client.Request.{Codec, generate}
use sifir.Client.Main.{main, Args, parse_measurement, build_verifier}
use sifir.Client.Main.Laws.{copied}

generate-ne-panic :
    (j : Codec) (client : Reqwest) (base_url prompt : Str) (max_tokens : ℕ)
    → generate j client base_url prompt max_tokens ≢ panic
unfolding generate
generate-ne-panic j client base_url prompt max_tokens =
    >>=-ne-panic (attempt _ (client.send _)) _ (attempt-ne-panic _ _) λ resp _.
      >>=-ne-panic (attempt _ (client.error_for_status _ resp.status)) _ (attempt-ne-panic _ _)
        λ _ _.
          >>=-ne-panic (attempt _ resp.bytes) _ (attempt-ne-panic _ _)
            λ body _. attempt-ne-panic _ _

module _ (c : Crates) where
  parse_measurement-ne-panic : (s : Str) → parse_measurement c s ≢ panic
  unfolding parse_measurement
  parse_measurement-ne-panic s =
      >>=-ne-panic (attempt _ (c.hex_decode (trim s))) _ (attempt-ne-panic _ _) λ b _.
        elim (Bool-cases (length b == 48)) [
          | inl sized ↦ rw (sized, copied b ((==_iff (length b) 48).0 sized)) (λ e. cc e)
          | inr other ↦ rw other (λ e. cc e)
        ]

  -- The client never panics, whatever its arguments are and whatever the HTTP client and the
  -- decoders return.
  pub main-ne-panic :
      (provider : CryptoProvider) (j : Codec) (build : AttestationVerifier → Str ⊎ Reqwest)
      (args : Args)
      → main c provider j build args ≢ panic
  unfolding main build_verifier
  main-ne-panic provider j build args =
      >>=-ne-panic (build_verifier c provider args) _
        (>>=-ne-panic (parse_measurement c args.expected_measurement) _
          (parse_measurement-ne-panic args.expected_measurement) λ m _ e. cc e)
        λ v _. >>=-ne-panic (attempt _ (build v)) _ (attempt-ne-panic _ _) λ client _.
          map_err-ne-panic _ _ (
            generate-ne-panic j client (text "https://" ++ args.server) args.prompt args.max_tokens)
