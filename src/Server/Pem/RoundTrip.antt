-- ===== src/Server/Pem/RoundTrip.antt =====
-- A rendered bundle is read back, whatever its line width and its line ends are.
use sifir.Base.{
  List, [], ◌∷◌, ◌++◌, Bool, true, false, ◌≡◌, ◌≢◌, refl, inr, ◌===◌, ◌==◌, arith, ok, err,
  append_assoc, append-nil, All,
}
use sifir.Base.Text.{Str, Bytes, text}
use sifir.Base.Text.Lines.{
  lines, trim, IsSolid, trim_lem, HasNoBreak, lines-append, line_end, IsSolid-HasNoBreak,
}
use sifir.Crates.{Crates}
use sifir.Server.Pem.{
  begin_line, end_line, begin_mark, end_mark, body, kind, pem_loop, parse_pem_bundle,
}

-- A line of base64 text: not empty, without white space and without a dash.
abbrev pub IsChunk : Str → Type 0
IsChunk s = (s ≢ []) × IsSolid s × All (λ x. (x == b'-') ≡ false) s

kind-begin_line : kind (trim begin_line) ≡ begin_mark
unfolding kind trim begin_line ◌===◌
kind-begin_line = refl

kind-end_line : kind (trim end_line) ≡ end_mark
unfolding kind trim end_line begin_line ◌===◌
kind-end_line = refl

kind-chunk : (s : Str) → IsChunk s → kind (trim s) ≡ body
unfolding kind begin_line end_line ◌===◌
kind-chunk [] (ne, _, _) = absurd (ne refl)
kind-chunk (x ∷ s) (ne, solid, (dash, _)) = rw (trim_lem (x ∷ s) solid, dash)

-- A certificate, and the lines of its base64 text.
pub record Block : Type 0 where
  pub chunks : List Str
  pub der : Bytes

abbrev join : List Str → Str
join [] = []
join (s ∷ ss) = s ++ join ss

abbrev pub IsBlock : Crates → Block → Type 0
IsBlock c b = All IsChunk b.chunks × (c.b64_decode (join b.chunks) ≡ inr b.der)

module _ (crlf : Bool) where
  abbrev pub render_chunks : List Str → Str → Str
  render_chunks [] rest = rest
  render_chunks (s ∷ ss) rest = s ++ (line_end crlf ++ render_chunks ss rest)

  abbrev pub render : List Block → Str → Str
  render [] rest = rest
  render (b ∷ bs) rest =
      begin_line
      ++ (line_end crlf ++ render_chunks b.chunks (end_line ++ (line_end crlf ++ render bs rest)))

begin_line-HasNoBreak : HasNoBreak begin_line
unfolding begin_line
begin_line-HasNoBreak = ground arith

end_line-HasNoBreak : HasNoBreak end_line
unfolding end_line
end_line-HasNoBreak = ground arith

module _ (c : Crates) (line : Str) (rest : List Str) (b64 : Str) (certs : List Bytes) where
  pub pem_loop_begin :
      (in_cert : Bool)
      → kind (trim line) ≡ begin_mark
      → pem_loop c (line ∷ rest) in_cert b64 certs ≡ pem_loop c rest true [] certs
  unfolding pem_loop
  pem_loop_begin false e = rw (e, pem_loop)
  pem_loop_begin true e = rw (e, pem_loop)

  pub pem_loop_end :
      (der : Bytes)
      → kind (trim line) ≡ end_mark
      → c.b64_decode b64 ≡ inr der
      → pem_loop c (line ∷ rest) true b64 certs ≡ pem_loop c rest false b64 (certs ++ (der ∷ []))
  unfolding pem_loop
  pem_loop_end der e d = rw (e, d, pem_loop)

  pub pem_loop_body :
      kind (trim line) ≡ body
      → pem_loop c (line ∷ rest) true b64 certs ≡ pem_loop c rest true (b64 ++ trim line) certs
  unfolding pem_loop
  pem_loop_body e = rw (e, pem_loop)

  pub pem_loop_stray_end :
      kind (trim line) ≡ end_mark
      → pem_loop c (line ∷ rest) false b64 certs ≡ err (text "unexpected END CERTIFICATE")
  unfolding pem_loop
  pem_loop_stray_end e = rw (e, pem_loop)

module _ (c : Crates) (crlf : Bool) where
  pub pem_loop-render_chunks :
      (ss : List Str) (rest b64 : Str) (certs : List Bytes)
      → All IsChunk ss
      → pem_loop c (lines (render_chunks crlf ss rest)) true b64 certs
        ≡ pem_loop c (lines rest) true (b64 ++ join ss) certs
  pem_loop-render_chunks [] rest b64 certs h = rw (append-nil b64)
  pem_loop-render_chunks (s ∷ ss) rest b64 certs (hs, hss) = rw (
    lines-append s crlf (render_chunks crlf ss rest) (IsSolid-HasNoBreak s hs.1),
    pem_loop_body c s (lines (render_chunks crlf ss rest)) b64 certs (kind-chunk s hs),
    trim_lem s hs.1,
    pem_loop-render_chunks ss rest (b64 ++ s) certs hss,
    append_assoc b64 s (join ss),
  )

-- Outside a block the collected text is not used.
pub pem_loop_outside :
    (c : Crates) (ls : List Str) (b64 b64' : Str) (certs : List Bytes)
    → pem_loop c ls false b64 certs ≡ pem_loop c ls false b64' certs
unfolding pem_loop
pem_loop_outside c [] b64 b64' certs = refl
pem_loop_outside c (line ∷ ls) b64 b64' certs = ground (arith, pem_loop_outside c ls b64 b64' certs)

abbrev pub ders : List Block → List Bytes
ders [] = []
ders (b ∷ bs) = b.der ∷ ders bs

module _ (c : Crates) (crlf : Bool) where
  pub pem_loop-render :
      (bs : List Block) (rest b64 : Str) (certs : List Bytes)
      → All (IsBlock c) bs
      → pem_loop c (lines (render crlf bs rest)) false b64 certs
        ≡ pem_loop c (lines rest) false [] (certs ++ ders bs)
  pem_loop-render [] rest b64 certs h =
      rw (append-nil certs) (pem_loop_outside c (lines rest) b64 [] certs)
  pem_loop-render (b ∷ bs) rest b64 certs ((hc, hd), hs) =
      let tail = end_line ++ (line_end crlf ++ render crlf bs rest) in
      rw (
        lines-append begin_line crlf (render_chunks crlf b.chunks tail) begin_line-HasNoBreak,
        pem_loop_begin c begin_line (lines (render_chunks crlf b.chunks tail)) b64 certs false
            kind-begin_line,
        pem_loop-render_chunks c crlf b.chunks tail [] certs hc,
        lines-append end_line crlf (render crlf bs rest) end_line-HasNoBreak,
        pem_loop_end c end_line (lines (render crlf bs rest)) (join b.chunks) certs b.der
            kind-end_line hd,
        pem_loop-render bs rest (join b.chunks) (certs ++ (b.der ∷ [])) hs,
        append_assoc certs (b.der ∷ []) (ders bs),
      )

  -- A bundle of any number of certificates, whose base64 texts decode to them, rendered with
  -- lines of any width and either line end, is parsed to the certificates in their order.
  pub parse_pem_bundle-render :
      (bs : List Block) → All (IsBlock c) bs → parse_pem_bundle c (render crlf bs []) ≡ ok (ders bs)
  unfolding parse_pem_bundle lines
  parse_pem_bundle-render bs h = pem_loop-render bs [] [] [] h

  -- A bundle that breaks off inside a block is an error, whatever blocks stand in front of it.
  pub parse_pem_bundle_unterminated :
      (bs : List Block) (chunks : List Str)
      → All (IsBlock c) bs
      → All IsChunk chunks
      → parse_pem_bundle c
          (render crlf bs (begin_line ++ (line_end crlf ++ render_chunks crlf chunks [])))
        ≡ err (text "unterminated PEM cert block")
  unfolding parse_pem_bundle
  parse_pem_bundle_unterminated bs chunks h hc =
      let part = render_chunks crlf chunks [] in
      rw
        (
          pem_loop-render bs (begin_line ++ (line_end crlf ++ part)) [] [] h,
          lines-append begin_line crlf part begin_line-HasNoBreak,
          pem_loop_begin c begin_line (lines part) [] (ders bs) false kind-begin_line,
          pem_loop-render_chunks c crlf chunks [] [] (ders bs) hc,
        )
        (unfold lines pem_loop in refl)

  -- An end mark outside a block is an error, whatever blocks stand in front of it and whatever
  -- follows.
  pub parse_pem_bundle_stray_end :
      (bs : List Block) (rest : Str)
      → All (IsBlock c) bs
      → parse_pem_bundle c (render crlf bs (end_line ++ (line_end crlf ++ rest)))
        ≡ err (text "unexpected END CERTIFICATE")
  unfolding parse_pem_bundle
  parse_pem_bundle_stray_end bs rest h =
      rw
        (
          pem_loop-render bs (end_line ++ (line_end crlf ++ rest)) [] [] h,
          lines-append end_line crlf rest end_line-HasNoBreak,
        )
        (pem_loop_stray_end c end_line (lines rest) [] (ders bs) kind-end_line)
