-- ===== src/Base/Elements.antt =====
-- Lists read and written at an index.
use Prim.Native.Nat.{ℕ, zero, suc}
use mathlib.Core.Path.{◌≡◌, refl, ap}
use mathlib.Core.Logic.{◌≢◌}
use mathlib.Core.Option.{Option, none, some}
use mathlib.Core.List.{List, [], ◌∷◌, ◌++◌}
use sifir.Base.Lists.{All, length, drop}

-- Reading and writing at an index. A write out of range changes nothing.
module _ {ℓ} {A : Type ℓ} where
  abbrev pub get_elem? : List A → ℕ → Option A
  get_elem? [] i = none
  get_elem? (x ∷ xs) zero = some x
  get_elem? (x ∷ xs) (suc i) = get_elem? xs i

  abbrev pub set : List A → ℕ → A → List A
  set [] i v = []
  set (x ∷ xs) zero v = v ∷ xs
  set (x ∷ xs) (suc i) v = x ∷ set xs i v

  pub get_elem?-set_self :
      (xs : List A) (i : ℕ) (v x : A) → get_elem? xs i ≡ some x → get_elem? (set xs i v) i ≡ some v
  get_elem?-set_self [] i v x h = cc
  get_elem?-set_self (y ∷ xs) zero v x h = refl
  get_elem?-set_self (y ∷ xs) (suc i) v x h = get_elem?-set_self xs i v x h

  pub get_elem?-set_ne :
      (xs : List A) (i j : ℕ) (v : A) → i ≢ j → get_elem? (set xs i v) j ≡ get_elem? xs j
  get_elem?-set_ne [] i j v ne = refl
  get_elem?-set_ne (y ∷ xs) zero zero v ne = absurd (ne refl)
  get_elem?-set_ne (y ∷ xs) zero (suc j) v ne = refl
  get_elem?-set_ne (y ∷ xs) (suc i) zero v ne = refl
  get_elem?-set_ne (y ∷ xs) (suc i) (suc j) v ne = get_elem?-set_ne xs i j v (λ e. ne (ap suc e))

  pub get_elem?-append :
      (xs ys : List A) (i : ℕ) (x : A) → get_elem? xs i ≡ some x → get_elem? (xs ++ ys) i ≡ some x
  get_elem?-append [] ys i x h = cc
  get_elem?-append (y ∷ xs) ys zero x h = h
  get_elem?-append (y ∷ xs) ys (suc i) x h = get_elem?-append xs ys i x h

  pub set-set : (xs : List A) (i : ℕ) (v w : A) → set (set xs i v) i w ≡ set xs i w
  set-set [] i v w = refl
  set-set (x ∷ xs) zero v w = refl
  set-set (x ∷ xs) (suc i) v w = ap (λ r. x ∷ r) (set-set xs i v w)

  pub set_same : (xs : List A) (i : ℕ) (v : A) → get_elem? xs i ≡ some v → set xs i v ≡ xs
  set_same [] i v h = refl
  set_same (x ∷ xs) zero v h = let d : x ≡ v = cc h in rw d refl
  set_same (x ∷ xs) (suc i) v h = ap (λ r. x ∷ r) (set_same xs i v h)

  -- The element behind a list.
  pub get_elem?-last : (xs : List A) (v : A) → get_elem? (xs ++ (v ∷ [])) (length xs) ≡ some v
  get_elem?-last [] v = refl
  get_elem?-last (x ∷ xs) v = get_elem?-last xs v

  pub set_last : (xs : List A) (v w : A) → set (xs ++ (v ∷ [])) (length xs) w ≡ xs ++ (w ∷ [])
  set_last [] v w = refl
  set_last (x ∷ xs) v w = ap (λ r. x ∷ r) (set_last xs v w)

  pub length-set : (xs : List A) (i : ℕ) (v : A) → length (set xs i v) ≡ length xs
  length-set [] i v = refl
  length-set (x ∷ xs) zero v = refl
  length-set (x ∷ xs) (suc i) v = ap suc (length-set xs i v)

  pub length-append_one : (xs : List A) (v : A) → length (xs ++ (v ∷ [])) ≡ suc (length xs)
  length-append_one [] v = refl
  length-append_one (x ∷ xs) v = ap suc (length-append_one xs v)

  pub drop-get_elem? :
      (xs : List A) (i : ℕ) (v : A) → get_elem? xs i ≡ some v → drop i xs ≡ v ∷ drop (suc i) xs
  unfolding drop
  drop-get_elem? [] i v h = cc h
  drop-get_elem? (x ∷ xs) zero v h = let d : x ≡ v = cc h in rw d refl
  drop-get_elem? (x ∷ xs) (suc i) v h = drop-get_elem? xs i v h

module _ {ℓ κ} {A : Type ℓ} (P : A → Type κ) where
  pub All-append : (xs ys : List A) → All P xs → All P ys → All P (xs ++ ys)
  All-append [] ys hx hy = hy
  All-append (x ∷ xs) ys (h, hx) hy = (h, All-append xs ys hx hy)

  pub All-set : (xs : List A) (i : ℕ) (v : A) → All P xs → P v → All P (set xs i v)
  All-set [] i v h p = tt
  All-set (x ∷ xs) zero v (h, hs) p = (p, hs)
  All-set (x ∷ xs) (suc i) v (h, hs) p = (h, All-set xs i v hs p)

  pub All-get_elem? : (xs : List A) (i : ℕ) (x : A) → All P xs → get_elem? xs i ≡ some x → P x
  All-get_elem? [] i x h e = cc
  All-get_elem? (y ∷ xs) zero x (h, hs) e = let d : y ≡ x = cc e in rw (← d) h
  All-get_elem? (y ∷ xs) (suc i) x (h, hs) e = All-get_elem? xs i x hs e

pub All-weaken {ℓ κ μ} :
    {A : Type ℓ} {P : A → Type κ} {Q : A → Type μ} (xs : List A)
    → ((x : A) → P x → Q x)
    → All P xs
    → All Q xs
All-weaken [] w h = tt
All-weaken (x ∷ xs) w (h, hs) = (w x h, All-weaken xs w hs)
