-- ===== src/Server/Kds/Chain.antt =====
-- What `fetch_vcek_chain` asks for, and what it returns.
use sifir.Base.{
  ◌∙◌, sym, refl, ◌≡◌, ◌↔◌, List, [], ◌∷◌, inr, arith, ltb, not, true, guard, get_or, length, ok,
  map_err, >>=-ok_elim, attempt-eq-ok, map_err-eq-ok, ok-injective,
}
use sifir.Base.Slices.{part, part-part, length-part, range_lem, index, index_lem, get_or-part}
use sifir.Base.Text.{Str, Bytes}
use sifir.Crates.{Crates}
use sifir.Attest.Report.{Report, IsReport, report_size, chip_id}
use sifir.Attest.Report.Fields.{field_lem}
use sifir.Server.Pem.{parse_pem_bundle}
use sifir.Server.Kds.{
  TcbVersion, from_report, vcek_url, cert_chain_url, Response, Http, context, fetch_vcek_chain,
}

-- Bytes 56, 57, 62 and 63 of the report.
abbrev pub tcb_of : Bytes → TcbVersion
tcb_of raw = record {
  bl_spl = get_or raw 56 0;
  tee_spl = get_or raw 57 0;
  snp_spl = get_or raw 62 0;
  ucode_spl = get_or raw 63 0;
}

pub from_report_lem {ℓ} :
    {E : Type ℓ} (raw : Bytes)
    → length raw ≡ report_size
    → from_report {E = E} raw ≡ ok (tcb_of raw)
unfolding from_report
from_report_lem raw h =
    let p : Bytes = part 56 8 raw in
    let l : length p ≡ 8 = length-part 56 8 raw (omega arith) in
    rw (
      range_lem raw 56 64 (omega arith) (omega arith),
      index_lem p 0 0 (omega arith),
      index_lem p 1 0 (omega arith),
      index_lem p 6 0 (omega arith),
      index_lem p 7 0 (omega arith),
      get_or-part 56 8 0 raw 0 (omega arith),
      get_or-part 56 8 1 raw 0 (omega arith),
      get_or-part 56 8 6 raw 0 (omega arith),
      get_or-part 56 8 7 raw 0 (omega arith),
    )

-- The two answers of the service, and the chain that is made of them.
pub record IsFetched (c : Crates) (http : Http) (raw : Bytes) (product : Str) (chain : List Bytes)
    : Type 0 where
  pub built : http.build ≡ inr tt
  pub vcek_response : Response
  pub vcek_answer :
      http.get (vcek_url product (c.hex_encode (part 392 64 raw)) (tcb_of raw)) ≡ inr vcek_response
  pub vcek_status : vcek_response.error_for_status ≡ inr tt
  pub vcek_der : Bytes
  pub vcek_body : vcek_response.bytes ≡ inr vcek_der
  pub chain_response : Response
  pub chain_answer : http.get (cert_chain_url product) ≡ inr chain_response
  pub chain_status : chain_response.error_for_status ≡ inr tt
  pub pem : Str
  pub chain_body : chain_response.body_text ≡ inr pem
  pub ask_der : Bytes
  pub ark_der : Bytes
  pub more : List Bytes
  pub parsed : parse_pem_bundle c pem ≡ ok (ask_der ∷ ark_der ∷ more)
  pub result : chain ≡ vcek_der ∷ ask_der ∷ ark_der ∷ []

two_of :
    (xs : List Bytes) (a b : Bytes)
    → index {E = Str} xs 0 ≡ ok a
    → index {E = Str} xs 1 ≡ ok b
    → (more : List Bytes) × (xs ≡ a ∷ b ∷ more)
unfolding index
two_of [] a b h k = cc
two_of (x ∷ []) a b h k = cc
two_of (x ∷ y ∷ more) a b h k = (more, cc)

enough : (a b : Bytes) (more : List Bytes) → not (ltb (length (a ∷ b ∷ more)) 2) ≡ true
enough a b more = ground arith

module _ (c : Crates) (http : Http) (raw : Bytes) (h : length raw ≡ report_size) (product : Str)
    (chain : List Bytes) where
  fetch_vcek_chain-eq-ok :
      fetch_vcek_chain c http raw product ≡ ok chain → IsFetched c http raw product chain
  unfolding fetch_vcek_chain
  fetch_vcek_chain-eq-ok e =
      let e0 =
        rw
          (
            range_lem {E = Str} raw 392 456 (omega arith) (omega arith),
            from_report_lem {E = Str} raw h,
          )
          at e in
      >>=-ok_elim (context _ http.build) _ e0 λ _ a1 e1.
        >>=-ok_elim
          (context _ (http.get (vcek_url product (c.hex_encode (part 392 64 raw)) (tcb_of raw)))) _
          e1
          λ r a2 e2. >>=-ok_elim (context _ r.error_for_status) _ e2 λ _ a3 e3.
            >>=-ok_elim (context _ r.bytes) _ e3 λ vcek a4 e4.
              >>=-ok_elim (context _ (http.get (cert_chain_url product))) _ e4 λ q a5 e5.
                >>=-ok_elim (context _ q.error_for_status) _ e5 λ _ a6 e6.
                  >>=-ok_elim (context _ q.body_text) _ e6 λ pem a7 e7.
                    >>=-ok_elim (map_err _ (parse_pem_bundle c pem)) _ e7 λ certs a8 e8.
                      >>=-ok_elim (guard _ (not (ltb (length certs) 2))) _ e8 λ _ a9 e9.
                        >>=-ok_elim (index certs 0) _ e9 λ ask a10 e10.
                          >>=-ok_elim (index certs 1) _ e10 λ ark a11 e11.
                            let (more, two) = two_of certs ask ark a10 a11 in
                            record {
                              built = attempt-eq-ok _ _ a1;
                              vcek_response = r;
                              vcek_answer = attempt-eq-ok _ _ a2;
                              vcek_status = attempt-eq-ok _ _ a3;
                              vcek_der = vcek;
                              vcek_body = attempt-eq-ok _ _ a4;
                              chain_response = q;
                              chain_answer = attempt-eq-ok _ _ a5;
                              chain_status = attempt-eq-ok _ _ a6;
                              pem = pem;
                              chain_body = attempt-eq-ok _ _ a7;
                              ask_der = ask;
                              ark_der = ark;
                              more = more;
                              parsed = rw two at (map_err-eq-ok _ _ a8);
                              result = sym (ok-injective e11);
                            }

  fetch_vcek_chain-IsFetched :
      IsFetched c http raw product chain → fetch_vcek_chain c http raw product ≡ ok chain
  unfolding fetch_vcek_chain index
  fetch_vcek_chain-IsFetched f = rw (
    range_lem {E = Str} raw 392 456 (omega arith) (omega arith),
    from_report_lem {E = Str} raw h,
    f.built,
    f.vcek_answer,
    f.vcek_status,
    f.vcek_body,
    f.chain_answer,
    f.chain_status,
    f.chain_body,
    f.parsed,
    enough f.ask_der f.ark_der f.more,
    f.result,
  )

  -- For a report of the right size, a chain is returned exactly when both answers of the key
  -- service are good; it is the chip's certificate in front of the first two certificates of the
  -- bundle, asked for by the bytes of the report.
  pub fetch_vcek_chain_iff :
      (fetch_vcek_chain c http raw product ≡ ok chain) ↔ IsFetched c http raw product chain
  fetch_vcek_chain_iff = (fetch_vcek_chain-eq-ok, fetch_vcek_chain-IsFetched)

-- The chip identity in the URL that fetch_vcek_chain asks for is read 24 bytes before the field
-- that Report::chip_id reads: its bytes from the 24th on are the first 40 of the field, whenever
-- a chain is returned for a report of the right size.
pub chip_id_shift :
    (c : Crates) (http : Http) (r : Report) (product : Str) (chain : List Bytes)
    → IsReport r
    → fetch_vcek_chain c http r.raw product ≡ ok chain
    → (url_id field_id : Bytes) × (response : Response) × (http.get
          (vcek_url product (c.hex_encode url_id) (tcb_of r.raw))
        ≡ inr response)
      × (url_id ≡ part 392 64 r.raw)
      × (chip_id {E = Str} r ≡ ok field_id)
      × (part 24 40 url_id ≡ part 0 40 field_id)
unfolding chip_id
chip_id_shift c http r product chain h fetched =
    let f = (fetch_vcek_chain_iff c http r.raw h product chain).0 fetched in
    (
      part 392 64 r.raw,
      part 416 64 r.raw,
      f.vcek_response,
      f.vcek_answer,
      refl,
      field_lem r h 416 64 (omega arith),
      part-part 24 40 392 64 r.raw (omega arith) ∙ sym (part-part 0 40 416 64 r.raw (omega arith)),
    )
