-- ===== src/Base/Text.antt =====
-- Strings and byte strings, and the functions of Rust's standard library that the program calls on
-- them. A `String` is the list of its code points, a `Vec<u8>` the list of its bytes.
pub mod Decimal
pub mod Lines
use Prim.Native.Nat.{ℕ, zero, suc, ◌+◌, ◌*◌, ◌-◌, ◌/◌, ◌%◌, ◌^◌, ◌<◌}
use Prim.Native.Char.{code}
use Prim.Native.String.{String}
use mathlib.Core.Path.{◌≡◌, refl}
use mathlib.Core.Bool.{Bool, true, false, ◌&&◌}
use mathlib.Core.List.{List, [], ◌∷◌, ◌++◌}
use native.Mathlib.Omega.{arith}
use sifir.Base.Lists.{length}
use sifir.Base.Tests.{leb, ◌==◌, if◌then◌else◌}

abbrev pub Str : Type 0
Str = List ℕ

abbrev pub Bytes : Type 0
Bytes = List ℕ

-- The code points of a literal. Shut, so that a message stands in a proof as one term.
unfoldable pub text : String → Str
text String.[] = []
text (String.◌∷◌ c s) = code c ∷ text s

-- `u32::to_le_bytes` and `u32::from_le_bytes`; a slice of another length is no array of four.
unfoldable pub to_le_bytes : ℕ → Bytes
to_le_bytes n = n % 256 ∷ n / 256 % 256 ∷ n / 65536 % 256 ∷ n / 16777216 % 256 ∷ []

unfoldable pub from_le_bytes : Bytes → ℕ
from_le_bytes (a ∷ b ∷ c ∷ d ∷ []) = a + 256 * b + 65536 * c + 16777216 * d
from_le_bytes _ = 0

pub length-to_le_bytes : (n : ℕ) → length (to_le_bytes n) ≡ 4
unfolding to_le_bytes
length-to_le_bytes n = refl

pub from_le_bytes-to_le_bytes : (n : ℕ) → n < 2 ^ 32 → from_le_bytes (to_le_bytes n) ≡ n
unfolding from_le_bytes to_le_bytes
from_le_bytes-to_le_bytes n h = omega arith

-- `str::to_lowercase`, on ASCII letters. The program compares its result with an ASCII word whose
-- letters are the lower case of no character outside ASCII, so other characters are kept.
unfoldable pub to_lowercase : Str → Str
to_lowercase [] = []
to_lowercase (c ∷ s) = (if leb b'A' c && leb c b'Z' then c + 32 else c) ∷ to_lowercase s

-- One more character in front of the pieces of the rest.
abbrev extend : ℕ → List Str → List Str
extend c [] = (c ∷ []) ∷ []
extend c (piece ∷ pieces) = (c ∷ piece) ∷ pieces

-- `str::split` by a character: the pieces between the separators, the empty ones too.
unfoldable pub split : ℕ → Str → List Str
split sep [] = [] ∷ []
split sep (c ∷ s) = let pieces = split sep s in if c == sep then [] ∷ pieces else extend c pieces

-- The text has no character `sep`.
abbrev pub Lacks : ℕ → Str → Type 0
Lacks sep [] = Unit
Lacks sep (c ∷ s) = ((c == sep) ≡ false) × Lacks sep s

pub split-Lacks : (sep : ℕ) (s : Str) → Lacks sep s → split sep s ≡ s ∷ []
unfolding split
split-Lacks sep [] h = refl
split-Lacks sep (c ∷ s) (hc, hs) = rw (hc, split-Lacks sep s hs)

-- A piece without separators, then a separator, then the rest.
pub split-append :
    (sep : ℕ) (p rest : Str) → Lacks sep p → split sep (p ++ (sep ∷ rest)) ≡ p ∷ split sep rest
unfolding split
split-append sep [] rest h = ground arith
split-append sep (c ∷ p) rest (hc, hp) = rw (hc, split-append sep p rest hp)

-- The text before the first separator, and the text behind it, are determined.
pub append-separator_injective :
    (sep : ℕ) (p q r s : Str)
    → Lacks sep p
    → Lacks sep q
    → p ++ (sep ∷ r) ≡ q ++ (sep ∷ s)
    → (p ≡ q) × (r ≡ s)
append-separator_injective sep [] [] r s hp hq e = (refl, cc)
append-separator_injective sep [] (d ∷ q) r s hp (hd, hq) e = ground arith
append-separator_injective sep (c ∷ p) [] r s (hc, hp) hq e = ground arith
append-separator_injective sep (c ∷ p) (d ∷ q) r s (hc, hp) (hd, hq) e =
    ground (arith, append-separator_injective sep p q r s hp hq)
