-- ===== src/Server/Kds/Url.antt =====
-- The URL of a chip's certificate: what it is made of, and that it tells chips and versions apart.
use sifir.Base.{ℕ, ◌≡◌, refl, [], ◌∷◌, ◌++◌, arith, length}
use sifir.Base.Text.{Str, Bytes, text, Lacks, append-separator_injective}
use sifir.Base.Text.Decimal.{decimal, decimal-injective, decimal-Lacks}
use sifir.Crates.{Crates}
use sifir.Crates.Laws.{IsHex}
use sifir.Server.Kds.{kds_base, TcbVersion, tcb_query, vcek_url}

-- A common prefix cancels.
append_cancel : (p q r : Str) → p ++ q ≡ p ++ r → q ≡ r
append_cancel [] q r e = e
append_cancel (x ∷ p) q r e = append_cancel p q r (cc e)

-- Prefixes of one length are equal, and so are the rests.
append_split : (p p' q q' : Str) → length p ≡ length p' → p ++ q ≡ p' ++ q' → (p ≡ p') × (q ≡ q')
append_split [] [] q q' l e = (refl, e)
append_split [] (y ∷ p') q q' l e = absurd (omega arith)
append_split (x ∷ p) [] q q' l e = absurd (omega arith)
append_split (x ∷ p) (y ∷ p') q q' l e = ground (arith, append_split p p' q q' (omega arith))

TcbVersion_eq :
    (t u : TcbVersion)
    → t.bl_spl ≡ u.bl_spl
    → t.tee_spl ≡ u.tee_spl
    → t.snp_spl ≡ u.snp_spl
    → t.ucode_spl ≡ u.ucode_spl
    → t ≡ u
TcbVersion_eq t u a b d e = ground arith

tcb_query-injective : (t u : TcbVersion) → tcb_query t ≡ tcb_query u → t ≡ u
unfolding tcb_query text
tcb_query-injective t u e =
    let amp : (n : ℕ) → Lacks b'&' (decimal n) = λ n. decimal-Lacks b'&' n (omega arith) in
    let (bl, r1) =
      append-separator_injective b'&' (decimal t.bl_spl) (decimal u.bl_spl) _ _ (amp t.bl_spl)
        (amp u.bl_spl) (append_cancel (text "?blSPL=") _ _ e) in
    let (tee, r2) =
      append-separator_injective b'&' (decimal t.tee_spl) (decimal u.tee_spl) _ _ (amp t.tee_spl)
        (amp u.tee_spl) (append_cancel (text "teeSPL=") _ _ r1) in
    let (snp, r3) =
      append-separator_injective b'&' (decimal t.snp_spl) (decimal u.snp_spl) _ _ (amp t.snp_spl)
        (amp u.snp_spl) (append_cancel (text "snpSPL=") _ _ r2) in
    let ucode = append_cancel (text "ucodeSPL=") (decimal t.ucode_spl) (decimal u.ucode_spl) r3 in
    TcbVersion_eq t u (decimal-injective t.bl_spl u.bl_spl bl)
      (decimal-injective t.tee_spl u.tee_spl tee) (decimal-injective t.snp_spl u.snp_spl snp)
      (decimal-injective t.ucode_spl u.ucode_spl ucode)

-- Two requests for a product have one URL only if they name the same chip and the same version of
-- its trusted computing base, if the two identities are of one length.
pub vcek_url-injective :
    (c : Crates)
    → IsHex c
    → (product : Str) (chip chip' : Bytes) (t u : TcbVersion) → length chip ≡ length chip'
    → vcek_url product (c.hex_encode chip) t ≡ vcek_url product (c.hex_encode chip') u
    → (chip ≡ chip') × (t ≡ u)
unfolding vcek_url
vcek_url-injective c x product chip chip' t u l e =
    let tails =
      append_cancel (text "/") _ _
        (append_cancel product _ _ (append_cancel (text "/") _ _ (append_cancel kds_base _ _ e))) in
    let same : length (c.hex_encode chip) ≡ length (c.hex_encode chip') =
      omega (arith, x.length-hex_encode chip, x.length-hex_encode chip') in
    let (hex, query) = append_split (c.hex_encode chip) (c.hex_encode chip') _ _ same tails in
    (
      cc (hex, x.hex_decode-hex_encode chip, x.hex_decode-hex_encode chip'),
      tcb_query-injective t u query,
    )
