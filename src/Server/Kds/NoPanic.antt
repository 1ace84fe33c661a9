-- ===== src/Server/Kds/NoPanic.antt =====
-- Getting the report and the chain never panics.
use sifir.Base.{
  List, [], ◌∷◌, ◌++◌, Bool, true, false, ◌≡◌, ◌≢◌, refl, arith, length, not, ltb, guard, ◌∙◌, ap,
  ok, panic, ◌>>=◌, attempt, map_err, guard-eq-ok, >>=-ne-panic, attempt-ne-panic, map_err-ne-panic,
  guard-ne-panic,
}
use sifir.Base.Slices.{part, range_lem, index, length-part}
use sifir.Base.Text.{Str, Bytes}
use sifir.Base.Text.Lines.{lines, trim}
use sifir.Crates.{Crates}
use sifir.Attest.Report.{report_size}
use sifir.Server.Pem.{kind, pem_loop, parse_pem_bundle, begin_mark, end_mark, blank, body, LineKind}
use sifir.Server.SnpGuest.{Kernel, get_snp_report, snp_get_report, snp_request}
use sifir.Server.SnpGuest.Laws.{copied, get_snp_report_iff}
use sifir.Server.Kds.{
  Http, context, fetch_vcek_chain, get_report_and_chain, vcek_url, cert_chain_url,
}
use sifir.Server.Kds.Chain.{from_report_lem, tcb_of}

module _ (c : Crates) where
  -- One turn of the loop, by the kind of the line.
  pem_turn :
      (line : Str) (ls : List Str) (in_cert : Bool) (k : LineKind)
      → kind (trim line) ≡ k
      → ((i : Bool) (b64 : Str) (certs : List Bytes) → pem_loop c ls i b64 certs ≢ panic)
      → (b64 : Str) (certs : List Bytes) → pem_loop c (line ∷ ls) in_cert b64 certs ≢ panic
  unfolding pem_loop
  pem_turn line ls false begin_mark e ih b64 certs = rw (e, pem_loop) (ih true [] certs)
  pem_turn line ls false end_mark e ih b64 certs = rw (e, pem_loop) (λ p. cc p)
  pem_turn line ls false blank e ih b64 certs = rw (e, pem_loop) (ih false b64 certs)
  pem_turn line ls false body e ih b64 certs = rw (e, pem_loop) (ih false b64 certs)
  pem_turn line ls true begin_mark e ih b64 certs = rw (e, pem_loop) (ih true [] certs)
  pem_turn line ls true end_mark e ih b64 certs =
      rw (e, pem_loop)
        (>>=-ne-panic (attempt _ (c.b64_decode b64)) _ (attempt-ne-panic _ _)
          λ der _. ih false b64 (certs ++ (der ∷ [])))
  pem_turn line ls true blank e ih b64 certs = rw (e, pem_loop) (ih true b64 certs)
  pem_turn line ls true body e ih b64 certs = rw (e, pem_loop) (ih true (b64 ++ trim line) certs)

  pem_loop-ne-panic :
      (ls : List Str) (in_cert : Bool) (b64 : Str) (certs : List Bytes)
      → pem_loop c ls in_cert b64 certs ≢ panic
  unfolding pem_loop
  pem_loop-ne-panic [] true b64 certs = λ p. cc p
  pem_loop-ne-panic [] false b64 certs = λ p. cc p
  pem_loop-ne-panic (line ∷ ls) in_cert b64 certs =
      pem_turn line ls in_cert (kind (trim line)) refl (pem_loop-ne-panic ls) b64 certs

module _ (c : Crates) (http : Http) (raw : Bytes) (h : length raw ≡ report_size)
    (product : Str) where
  two_indices :
      (certs : List Bytes)
      → not (ltb (length certs) 2) ≡ true
      → (vcek : Bytes)
      → (do ask ← index {E = Str} certs 0; ark ← index certs 1; ok (vcek ∷ ask ∷ ark ∷ [])) ≢ panic
  unfolding index
  two_indices [] e vcek = λ p. ground arith
  two_indices (a ∷ []) e vcek = λ p. ground arith
  two_indices (a ∷ b ∷ certs) e vcek = λ p. cc p

  fetch_vcek_chain-ne-panic : fetch_vcek_chain c http raw product ≢ panic
  unfolding fetch_vcek_chain parse_pem_bundle
  fetch_vcek_chain-ne-panic =
      rw
        (
          range_lem {E = Str} raw 392 456 (omega arith) (omega arith),
          from_report_lem {E = Str} raw h,
        )
        (>>=-ne-panic (context _ http.build) _ (attempt-ne-panic _ _) λ _ _.
          >>=-ne-panic
            (context _ (http.get (vcek_url product (c.hex_encode (part 392 64 raw)) (tcb_of raw))))
            _ (attempt-ne-panic _ _)
            λ r _. >>=-ne-panic (context _ r.error_for_status) _ (attempt-ne-panic _ _) λ _ _.
              >>=-ne-panic (context _ r.bytes) _ (attempt-ne-panic _ _) λ vcek _.
                >>=-ne-panic (context _ (http.get (cert_chain_url product))) _
                  (attempt-ne-panic _ _)
                  λ q _. >>=-ne-panic (context _ q.error_for_status) _ (attempt-ne-panic _ _) λ _ _.
                    >>=-ne-panic (context _ q.body_text) _ (attempt-ne-panic _ _) λ pem _.
                      >>=-ne-panic (map_err _ (pem_loop c (lines pem) false [] [])) _
                        (map_err-ne-panic _ _ (pem_loop-ne-panic c (lines pem) false [] []))
                        λ certs _.
                          >>=-ne-panic (guard _ (not (ltb (length certs) 2))) _ (guard-ne-panic _ _)
                            λ _ e. two_indices certs (guard-eq-ok _ _ e) vcek)

module _ (kernel : Kernel) (user_data : Bytes)
    (full : length (kernel.ioctl snp_get_report (snp_request user_data)).1.resp_data.bytes
      ≡ 4000) where
  get_snp_report-ne-panic : get_snp_report kernel user_data ≢ panic
  unfolding get_snp_report
  get_snp_report-ne-panic = rw (copied kernel user_data full) (λ p. ground arith)

  -- On a kernel that keeps the size of the response buffer, getting the report and the chain ends
  -- with both or with an error: it never panics, whatever the firmware, the service and the
  -- bundle hold.
  pub get_report_and_chain-ne-panic :
      (c : Crates) (http : Http) (product : Str)
      → get_report_and_chain c http kernel user_data product ≢ panic
  unfolding get_report_and_chain
  get_report_and_chain-ne-panic c http product =
      >>=-ne-panic (get_snp_report kernel user_data) _ get_snp_report-ne-panic λ raw e.
        let (_, _, _, first) = (get_snp_report_iff kernel user_data full raw).0 e in
        let size : length raw ≡ report_size =
          ap length first ∙ length-part 0 1184 _ (omega arith) in
        >>=-ne-panic (fetch_vcek_chain c http raw product) _
          (fetch_vcek_chain-ne-panic c http raw size product) λ chain _. λ p. cc p
