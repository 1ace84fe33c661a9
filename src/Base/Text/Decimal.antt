-- ===== src/Base/Text/Decimal.antt =====
-- `{}` of an unsigned integer: its decimal digits, without leading zeros.
use Prim.Native.Nat.{ℕ, zero, suc, ◌+◌, ◌-◌, ◌*◌, ◌/◌, ◌%◌, ◌<◌}
use mathlib.Core.Path.{◌≡◌, refl, sym, ◌∙◌, ap}
use mathlib.Core.Logic.{inl, inr}
use mathlib.Core.Bool.{false}
use mathlib.Core.List.{[], ◌∷◌, ◌++◌}
use native.Mathlib.Omega.{arith}
use sifir.Base.Tests.{ltb, ◌==◌, if◌then◌else◌, Bool-cases}
use sifir.Base.Text.{Str, text, Lacks}

-- The digits of `n`, at most as many as the fuel.
digits : ℕ → ℕ → Str
digits zero n = []
digits (suc fuel) n =
    let front = digits fuel (n / 10) in (if ltb n 10 then [] else front) ++ ((b'0' + n % 10) ∷ [])

-- A number is below ten to the power of itself, so this fuel suffices (`value-decimal`).
unfoldable pub decimal : ℕ → Str
unfolding digits
decimal n = digits (suc n) n

-- Reading digits back.
pub value : ℕ → Str → ℕ
value acc [] = acc
value acc (c ∷ s) = value (acc * 10 + (c - b'0')) s

value-append :
    (acc : ℕ) (s : Str) (c : ℕ) → value acc (s ++ (c ∷ [])) ≡ value acc s * 10 + (c - b'0')
unfolding value
value-append acc [] c = refl
value-append acc (d ∷ s) c = value-append (acc * 10 + (d - b'0')) s c

value-nil : value 0 [] ≡ 0
unfolding value
value-nil = refl

value-digits : (fuel n : ℕ) → n < fuel → value 0 (digits fuel n) ≡ n
unfolding digits
value-digits zero n h = absurd (omega arith)
value-digits (suc fuel) n h = elim (Bool-cases (ltb n 10)) [
  | inl small ↦ rw (small, value-append) (ground (arith, value-nil))
  | inr large ↦ rw (large, value-append, value-digits fuel (n / 10) (ground arith)) (ground arith)
]

pub value-decimal : (n : ℕ) → value 0 (decimal n) ≡ n
unfolding decimal
value-decimal n = value-digits (suc n) n (omega arith)

pub decimal-injective : (n m : ℕ) → decimal n ≡ decimal m → n ≡ m
decimal-injective n m e = sym (value-decimal n) ∙ ap (value 0) e ∙ value-decimal m

Lacks-append : (sep : ℕ) (s t : Str) → Lacks sep s → Lacks sep t → Lacks sep (s ++ t)
Lacks-append sep [] t hs ht = ht
Lacks-append sep (c ∷ s) t (hc, hs) ht = (hc, Lacks-append sep s t hs ht)

digit-ne : (d sep : ℕ) → sep < b'0' → (b'0' + d == sep) ≡ false
digit-ne d sep h = ground arith

digits-Lacks : (sep fuel n : ℕ) → sep < b'0' → Lacks sep (digits fuel n)
unfolding digits
digits-Lacks sep zero n h = tt
digits-Lacks sep (suc fuel) n h = elim (Bool-cases (ltb n 10)) [
  | inl small ↦ rw small (digit-ne (n % 10) sep h, tt)
  | inr large ↦
      rw large
        (Lacks-append sep _ _ (digits-Lacks sep fuel (n / 10) h) (digit-ne (n % 10) sep h, tt))
]

-- A decimal number holds no character below the digits, such as `&`.
pub decimal-Lacks : (sep n : ℕ) → sep < b'0' → Lacks sep (decimal n)
unfolding decimal
decimal-Lacks sep n h = digits-Lacks sep (suc n) n h

decimal_example : decimal 1184 ≡ text "1184"
unfolding decimal text
decimal_example = refl
