-- ===== src/Examples/Payload.antt =====
-- A small function in place of serde: the fields of an extension, framed by their lengths.
use sifir.Base.{
  ℕ, suc, ◌+◌, ◌≡◌, refl, ◌∙◌, List, [], ◌∷◌, ◌++◌, inl, inr, ◌⊎◌, arith, length, take, drop,
  Option, none, some, take-append_self, drop-append_right, drop-zero,
}
use sifir.Base.Text.{Str, Bytes, text}
use sifir.Crates.{Serde}
use sifir.Crates.Laws.{IsSerde}
use sifir.Attest.Payload.{AttestationExtension, AttestationMode, mock, amd_sev_snp}

unfoldable pub frames : List Str → Bytes
frames [] = []
frames (s ∷ ss) = length s ∷ (s ++ frames ss)

unfoldable pub unframe : ℕ → Bytes → List Str
unframe (suc n) (l ∷ b) = take l b ∷ unframe n (drop l b)
unframe _ _ = []

unframe-frames : (ss : List Str) → unframe (length ss) (frames ss) ≡ ss
unfolding frames unframe
unframe-frames [] = refl
unframe-frames (s ∷ ss) =
    let z : length s + 0 ≡ length s = omega arith in
    let d : drop (length s) (s ++ frames ss) ≡ frames ss =
      (rw z at (drop-append_right s (frames ss) 0)) ∙ drop-zero (frames ss) in
    rw (take-append_self s (frames ss), d, unframe-frames ss)

abbrev mode_field : AttestationMode → Str
mode_field mock = []
mode_field amd_sev_snp = 1 ∷ []

abbrev jwt_field : Option Str → Str
jwt_field none = []
jwt_field (some jwt) = 1 ∷ jwt

abbrev jwt_of : Str → Option Str
jwt_of [] = none
jwt_of (_ ∷ jwt) = some jwt

abbrev mode_of : Str → AttestationMode
mode_of [] = mock
mode_of (_ ∷ _) = amd_sev_snp

abbrev fields : AttestationExtension → List Str
fields e = mode_field e.mode ∷ e.report_b64 ∷ jwt_field e.gpu_jwt ∷ e.vcek_chain_b64

abbrev of_fields : List Str → Str ⊎ AttestationExtension
of_fields (m ∷ r ∷ j ∷ chain) =
    inr (record { report_b64 = r; vcek_chain_b64 = chain; mode = mode_of m; gpu_jwt = jwt_of j })
of_fields _ = inl (text "missing field")

abbrev read : Bytes → Str ⊎ AttestationExtension
read [] = inl (text "empty")
read (n ∷ b) = of_fields (unframe n b)

abbrev pub toy_serde : Serde AttestationExtension
toy_serde = record { to_vec = λ e. length (fields e) ∷ frames (fields e); from_slice = read }

mode_lem : (m : AttestationMode) → mode_of (mode_field m) ≡ m
mode_lem mock = refl
mode_lem amd_sev_snp = refl

jwt_lem : (j : Option Str) → jwt_of (jwt_field j) ≡ j
jwt_lem none = refl
jwt_lem (some jwt) = refl

pub toy_serde-IsSerde : IsSerde toy_serde
toy_serde-IsSerde = record {
  from_slice-to_vec = λ e. rw (unframe-frames (fields e), mode_lem e.mode, jwt_lem e.gpu_jwt);
}
