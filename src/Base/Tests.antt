-- ===== src/Base/Tests.antt =====
-- Boolean tests on the native numbers and on byte strings, and the conditional.
use Prim.Native.Nat.{ℕ, ◌≤◌, compare, Ordering}
use mathlib.Core.Path.{◌≡◌, refl}
use mathlib.Core.Logic.{◌≢◌, ◌↔◌, ◌⊎◌, inl, inr}
use mathlib.Core.Bool.{Bool, true, false, ◌&&◌}
use mathlib.Core.Option.{Option, none, some}
use mathlib.Core.List.{List, [], ◌∷◌}
use native.Mathlib.Omega.{arith}

abbrev pub ltb : ℕ → ℕ → Bool
ltb a b = elim (compare a b) [ Ordering.lt ↦ true | _ ↦ false ]

abbrev pub leb : ℕ → ℕ → Bool
leb a b = elim (compare a b) [ Ordering.gt ↦ false | _ ↦ true ]

infix 50 ◌==◌
abbrev pub ◌==◌ : ℕ → ℕ → Bool
a == b = elim (compare a b) [ Ordering.eq ↦ true | _ ↦ false ]

infix 1 if◌then◌else◌
abbrev pub if◌then◌else◌ {ℓ} : {A : Type ℓ} → Bool → A → A → A
if true then x else y = x
if false then x else y = y

pub leb→le : (a b : ℕ) → leb a b ≡ true → a ≤ b
leb→le a b h = ground arith

pub le→leb : (a b : ℕ) → a ≤ b → leb a b ≡ true
le→leb a b h = ground arith

pub eq→== : (a b : ℕ) → a ≡ b → (a == b) ≡ true
eq→== a b h = ground arith

pub ==_iff : (a b : ℕ) → ((a == b) ≡ true) ↔ (a ≡ b)
==_iff a b = ground arith

-- To split on a computed value and keep the equation.
pub Bool-cases : (b : Bool) → (b ≡ true) ⊎ (b ≡ false)
Bool-cases true = inl refl
Bool-cases false = inr refl

pub Option-cases {ℓ} : {A : Type ℓ} (o : Option A) → (o ≡ none) ⊎ ((a : A) × (o ≡ some a))
Option-cases none = inl refl
Option-cases (some a) = inr (a, refl)

pub Sum-cases {ℓ κ} :
    {E : Type ℓ} {A : Type κ} (r : E ⊎ A) → ((e : E) × (r ≡ inl e)) ⊎ ((a : A) × (r ≡ inr a))
Sum-cases (inl e) = inl (e, refl)
Sum-cases (inr a) = inr (a, refl)

-- `==` on slices, strings and arrays: element by element.
infix 50 ◌===◌
unfoldable pub ◌===◌ : List ℕ → List ℕ → Bool
[] === [] = true
[] === (y ∷ ys) = false
(x ∷ xs) === [] = false
(x ∷ xs) === (y ∷ ys) = x == y && xs === ys

pub ===_iff : (xs ys : List ℕ) → ((xs === ys) ≡ true) ↔ (xs ≡ ys)
unfolding ◌===◌
===_iff [] [] = (λ _. refl, λ _. refl)
===_iff [] (y ∷ ys) = (λ h. cc, λ h. cc)
===_iff (x ∷ xs) [] = (λ h. cc, λ h. cc)
===_iff (x ∷ xs) (y ∷ ys) = ground (arith, ===_iff xs ys)

pub ===_self : (s : List ℕ) → (s === s) ≡ true
===_self s = (===_iff s s).1 refl

pub ===_ne : (s t : List ℕ) → s ≢ t → (s === t) ≡ false
===_ne s t ne = elim (Bool-cases (s === t)) [ inl e ↦ absurd (ne ((===_iff s t).0 e)) | inr e ↦ e ]
