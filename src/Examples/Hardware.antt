-- ===== src/Examples/Hardware.antt =====
-- Small functions in place of the firmware and the key distribution service.
use sifir.Base.{
  ℕ, ◌+◌, ◌≤◌, ◌∙◌, ◌≡◌, refl, sym, ap, List, [], ◌∷◌, ◌++◌, inr, arith, ok, length, take,
  replicate, length-take, length-append, length-replicate, take-append_self, eq→==, drop, ◌===◌,
  All, false,
}
use sifir.Base.Slices.{
  part, patch, length-patch, part-part, part-patch_self, part-patch_before, index,
}
use sifir.Base.Text.{Str, Bytes, text}
use sifir.Attest.AmdCerts.{
  vcek_verifying_key, verify_chain, parse_cert, extract_p384_key, verify_cert_signature,
}
use sifir.Attest.Report.{report_size}
use sifir.Base.Text.Lines.{lines, trim, is_whitespace}
use sifir.Server.Pem.{kind, parse_pem_bundle, begin_line, end_line}
use sifir.Server.Kds.{Http, Response, fetch_vcek_chain}
use sifir.Server.Kds.Chain.{IsFetched, fetch_vcek_chain_iff}
use sifir.System.KeyService.{IsKeyService}
use sifir.Server.SnpGuest.{Kernel}
use sifir.Server.Pem.RoundTrip.{Block, IsBlock}
use sifir.Attest.AmdCerts.Chain.{IsChain, vcek_verifying_key_iff}
use sifir.System.AmdSetup.{IsFirmware}
use sifir.Examples.Packages.{toy, sum, toy_head}

-- The user data in 64 bytes.
unfoldable data_of : Bytes → Bytes
data_of d = take 64 (d ++ replicate 64 0)

unfoldable unsigned : Bytes → Bytes
unfolding data_of
unsigned d = patch 80 (data_of d) (replicate 4000 0)

-- The report of the key 9.
unfoldable pub signed : Bytes → Bytes
unfolding unsigned
signed d = patch 672 ((9 + sum (part 0 672 (unsigned d))) ∷ []) (unsigned d)

abbrev pub toy_kernel : Kernel
toy_kernel = record {
  open_device = inr tt;
  ioctl = λ cmd r. (0, record r { resp_data = record { bytes = signed r.req_data.user_data } });
  last_os_error = text "";
}

length-data_of : (d : Bytes) → length (data_of d) ≡ 64
unfolding data_of
length-data_of d = ground (
  arith,
  length-take 64 (d ++ replicate 64 0),
  length-append d (replicate 64 0),
  length-replicate {A = ℕ} 64 0,
)

data_of_lem : (d : Bytes) → length d ≡ 64 → data_of d ≡ d
unfolding data_of
data_of_lem d h = rw h at (take-append_self d (replicate 64 0))

length-unsigned : (d : Bytes) → length (unsigned d) ≡ 4000
unfolding unsigned
length-unsigned d = omega (
  arith,
  length-data_of d,
  length-replicate {A = ℕ} 4000 0,
  length-patch 80 (data_of d) (replicate 4000 0),
)

length-signed : (d : Bytes) → length (signed d) ≡ 4000
unfolding signed
length-signed d = omega (
  arith,
  length-unsigned d,
  length-patch 672 ((9 + sum (part 0 672 (unsigned d))) ∷ []) (unsigned d),
)

-- In front of the signature the two reports agree.
part-signed :
    (a n : ℕ) (d : Bytes) → a + n ≤ 672 → part a n (part 0 1184 (signed d)) ≡ part a n (unsigned d)
unfolding signed
part-signed a n d h =
    let z : 0 + a ≡ a = omega arith in
    (rw z at (part-part a n 0 1184 (signed d) (omega arith)))
    ∙ part-patch_before a n 672 _ (unsigned d) h (omega (arith, length-unsigned d))

part-unsigned : (d : Bytes) → part 80 64 (unsigned d) ≡ data_of d
unfolding unsigned
part-unsigned d = rw (length-data_of d) at (
    part-patch_self 80 (data_of d) (replicate 4000 0)
      (omega (arith, length-data_of d, length-replicate {A = ℕ} 4000 0)))

pub toy_kernel-IsFirmware : IsFirmware toy_kernel
toy_kernel-IsFirmware = record {
  length-response = length-signed;
  reports_data = λ d h. part-signed 80 64 d (omega arith) ∙ part-unsigned d ∙ data_of_lem d h;
}

toy_head_lem : (xs ys : Bytes) (s : ℕ) → part 0 1 xs ≡ s ∷ [] → toy_head (xs ++ ys) ≡ inr s
unfolding part drop take
toy_head_lem [] ys s h = let e : [] ≡ s ∷ [] = h in cc
toy_head_lem (x ∷ xs) ys s h = let e : x ∷ take 0 xs ≡ s ∷ [] = h in cc

first_of_signature :
    (d : Bytes)
    → part 0 1 (part 672 48 (part 0 1184 (signed d))) ≡ (9 + sum (part 0 672 (unsigned d))) ∷ []
unfolding signed
first_of_signature d =
    ap (part 0 1) (part-part 672 48 0 1184 (signed d) (omega arith))
    ∙ part-part 0 1 672 48 (signed d) (omega arith)
    ∙ part-patch_self 672 ((9 + sum (part 0 672 (unsigned d))) ∷ []) (unsigned d)
        (omega (arith, length-unsigned d))

-- The service: the certificates of the keys 9, 8 and 7, each signed by the next.
abbrev pub toy_vcek : Bytes
toy_vcek = 9 ∷ 17 ∷ []

abbrev pub toy_ask : Bytes
toy_ask = 8 ∷ 15 ∷ []

abbrev pub toy_ark : Bytes
toy_ark = 7 ∷ 14 ∷ []

abbrev pub toy_chain : List Bytes
toy_chain = toy_vcek ∷ toy_ask ∷ toy_ark ∷ []

abbrev pub pem_block : Bytes → Str
pem_block der = begin_line ++ (10 ∷ (der ++ (10 ∷ (end_line ++ (10 ∷ [])))))

abbrev pub toy_pem : Str
toy_pem = pem_block toy_ask ++ pem_block toy_ark

abbrev toy_response : Response
toy_response = record { error_for_status = inr tt; bytes = inr toy_vcek; body_text = inr toy_pem }

abbrev pub toy_http : Http
toy_http = record { build = inr tt; get = λ url. inr toy_response }

toy_pem_lem : parse_pem_bundle toy toy_pem ≡ ok (toy_ask ∷ toy_ark ∷ [])
unfolding parse_pem_bundle begin_line end_line lines kind ◌===◌ trim
toy_pem_lem = refl

pub toy_http-IsFetched :
    (raw : Bytes) (product : Str) → IsFetched toy toy_http raw product toy_chain
toy_http-IsFetched raw product = record {
  built = refl;
  vcek_response = toy_response;
  vcek_answer = refl;
  vcek_status = refl;
  vcek_der = toy_vcek;
  vcek_body = refl;
  chain_response = toy_response;
  chain_answer = refl;
  chain_status = refl;
  pem = toy_pem;
  chain_body = refl;
  ask_der = toy_ask;
  ark_der = toy_ark;
  more = [];
  parsed = toy_pem_lem;
  result = refl;
}

pub toy_http-fetch_vcek_chain :
    (raw : Bytes) (product : Str)
    → length raw ≡ report_size
    → fetch_vcek_chain toy toy_http raw product ≡ ok toy_chain
toy_http-fetch_vcek_chain raw product h =
    (fetch_vcek_chain_iff toy toy_http raw h product toy_chain).1 (toy_http-IsFetched raw product)

abbrev raw_of : Bytes → Bytes
raw_of d = part 0 1184 (signed d)

toy-signed :
    (d : Bytes)
    → (toy_head (part 672 48 (raw_of d) ++ part 744 48 (raw_of d))
        ≡ inr (9 + sum (part 0 672 (raw_of d))))
toy-signed d =
    toy_head_lem (part 672 48 (raw_of d)) (part 744 48 (raw_of d)) _ (first_of_signature d)
    ∙ ap (λ r. inr (9 + sum r)) (sym (part-signed 0 672 d (omega arith)))

toy_vcek_lem : vcek_verifying_key toy toy_chain ≡ ok 9
unfolding vcek_verifying_key verify_chain parse_cert extract_p384_key verify_cert_signature index
    sum
toy_vcek_lem = refl

abbrev toy_block : Bytes → Block
toy_block der = record { chunks = der ∷ []; der = der }

toy_blocks : All (IsBlock toy) (toy_block toy_ask ∷ toy_block toy_ark ∷ [])
unfolding is_whitespace
toy_blocks = (
  ((((λ e. cc e), (refl, (refl, tt)), (refl, (refl, tt))), tt), refl),
  (((((λ e. cc e), (refl, (refl, tt)), (refl, (refl, tt))), tt), refl), tt),
)

toy-IsChain : IsChain toy toy_vcek toy_ask toy_ark 9
toy-IsChain = (vcek_verifying_key_iff toy toy_vcek toy_ask toy_ark [] 9).0 toy_vcek_lem

-- The chip of the toy service signs what the toy firmware reports.
pub toy_http-SignsReports :
    (product : Str) (d : Bytes) → IsKeyService toy toy_http (raw_of d) product
unfolding begin_line end_line
toy_http-SignsReports product d = record {
  vcek = toy_vcek;
  ask = toy_block toy_ask;
  ark = toy_block toy_ark;
  more = [];
  crlf = false;
  vcek_answered = λ r der e k.
      let d : toy_response ≡ r = cc e in
      let b : inr toy_vcek ≡ r.bytes = ap (λ (x : Response). x.bytes) d in cc;
  chain_answered = λ r pem e k.
      let d : toy_response ≡ r = cc e in
      let b : inr toy_pem ≡ r.body_text = ap (λ (x : Response). x.body_text) d in cc;
  blocks = toy_blocks;
  vk = 9;
  chain = toy-IsChain;
  sig = 9 + sum (part 0 672 (raw_of d));
  parsed = toy-signed d;
  signed = eq→== (9 + sum (part 0 672 (raw_of d))) _ refl;
}
