-- ===== src/Base/Results.antt =====
-- How a call ends: `Ok`, `Err`, or a panic of the thread. `?` and `.map_err(f)?` are binds.
use mathlib.Core.Path.{◌≡◌, refl}
use mathlib.Core.Logic.{◌≢◌, ◌⊎◌, inl, inr}
use mathlib.Core.Bool.{Bool, true, false}
use mathlib.Core.Option.{Option, none, some}

pub data Outcome {ℓ κ} (E : Type ℓ) (A : Type κ) : Type (ℓ ⊔ κ) where
  ok : A → Outcome E A
  err : E → Outcome E A
  panic : Outcome E A

module _ {ℓ κ} {E : Type ℓ} {A B : Type κ} where
  infixl 5 ◌>>=◌ ◌>>◌
  -- `abbrev`, so that a bind of a known outcome computes wherever it stands.
  abbrev pub ◌>>=◌ : Outcome E A → (A → Outcome E B) → Outcome E B
  ok a >>= f = f a
  err e >>= f = err e
  panic >>= f = panic

  abbrev pub ◌>>◌ : Outcome E A → Outcome E B → Outcome E B
  m >> n = m >>= λ _. n

  -- Inversion of a successful bind, with the rest of a proof as the last argument: what it binds are
  -- variables.
  pub >>=-ok_elim {μ} :
      {R : Type μ} (m : Outcome E A) (f : A → Outcome E B) {b : B}
      → (m >>= f) ≡ ok b
      → ((a : A) → m ≡ ok a → f a ≡ ok b → R)
      → R
  >>=-ok_elim (ok a) f h k = k a refl h
  >>=-ok_elim (err e) f h k = absurd (cc h)
  >>=-ok_elim panic f h k = absurd (cc h)

  -- The same as a pair.
  pub >>=-eq-ok :
      (first : Outcome E A) (rest : A → Outcome E B) {done : B}
      → (first >>= rest) ≡ ok done
      → (a : A) × (first ≡ ok a) × (rest a ≡ ok done)
  >>=-eq-ok first rest h = >>=-ok_elim first rest h λ a p q. (a, p, q)

module _ {ℓ κ μ} {E : Type ℓ} {D : Type μ} {A : Type κ} where
  -- A call of a library function that returns a `Result`, with `map_err`.
  abbrev pub attempt : (E → D) → E ⊎ A → Outcome D A
  attempt f (inl e) = err (f e)
  attempt f (inr a) = ok a

  abbrev pub map_err : (E → D) → Outcome E A → Outcome D A
  map_err f (ok a) = ok a
  map_err f (err e) = err (f e)
  map_err f panic = panic

  pub attempt-eq-ok : (f : E → D) (r : E ⊎ A) {a : A} → attempt f r ≡ ok a → r ≡ inr a
  attempt-eq-ok f (inl e) h = cc
  attempt-eq-ok f (inr a) h = cc

  pub map_err-eq-ok : (f : E → D) (r : Outcome E A) {a : A} → map_err f r ≡ ok a → r ≡ ok a
  map_err-eq-ok f (ok a) h = cc
  map_err-eq-ok f (err e) h = cc
  map_err-eq-ok f panic h = cc

module _ {ℓ κ} {E : Type ℓ} {A : Type κ} where
  -- `ok_or_else`
  abbrev pub ok_or : E → Option A → Outcome E A
  ok_or e none = err e
  ok_or e (some a) = ok a

  -- `unwrap` and `expect`
  abbrev pub expect {μ} : {D : Type μ} → D ⊎ A → Outcome E A
  expect (inl _) = panic
  expect (inr a) = ok a

  pub ok_or-eq-ok : (e : E) (o : Option A) {a : A} → ok_or e o ≡ ok a → o ≡ some a
  ok_or-eq-ok e none h = cc
  ok_or-eq-ok e (some a) h = cc

-- A unit test: it passes if it does not panic.
abbrev pub Test : Type 0
Test = Outcome (Unit {0}) (Unit {0})

module _ {E A : Type 0} where
  -- `unwrap` and `unwrap_err` in a unit test.
  abbrev pub unwrap : Outcome E A → Outcome (Unit {0}) A
  unwrap (ok a) = ok a
  unwrap (err e) = panic
  unwrap panic = panic

  abbrev pub unwrap_err : Outcome E A → Outcome (Unit {0}) E
  unwrap_err (ok a) = panic
  unwrap_err (err e) = ok e
  unwrap_err panic = panic

-- `assert!`
abbrev pub assert : Bool → Test
assert true = ok tt
assert false = panic

abbrev pub guard {ℓ} : {E : Type ℓ} → E → Bool → Outcome E (Unit {0})
guard e true = ok tt
guard e false = err e

pub guard-eq-ok {ℓ} : {E : Type ℓ} (e : E) (b : Bool) {u : Unit {0}} → guard e b ≡ ok u → b ≡ true
guard-eq-ok e true h = refl
guard-eq-ok e false h = cc

pub ok-injective {ℓ κ} :
    {E : Type ℓ} {A : Type κ} {a b : A} → ◌≡◌ {A = Outcome E A} (ok a) (ok b) → a ≡ b
ok-injective h = cc

-- Steps that do not panic.
module _ {ℓ κ} {E : Type ℓ} {A B : Type κ} where
  pub >>=-ne-panic :
      (m : Outcome E A) (f : A → Outcome E B)
      → m ≢ panic
      → ((a : A) → m ≡ ok a → f a ≢ panic)
      → (m >>= f) ≢ panic
  >>=-ne-panic (ok a) f h k = k a refl
  >>=-ne-panic (err e) f h k = λ e. cc e
  >>=-ne-panic panic f h k = absurd (h refl)

module _ {ℓ κ μ} {E : Type ℓ} {D : Type μ} {A : Type κ} where
  pub attempt-ne-panic : (f : E → D) (r : E ⊎ A) → attempt f r ≢ panic
  attempt-ne-panic f (inl e) = λ e. cc e
  attempt-ne-panic f (inr a) = λ e. cc e

  pub map_err-ne-panic : (f : E → D) (m : Outcome E A) → m ≢ panic → map_err f m ≢ panic
  map_err-ne-panic f (ok a) h = λ e. cc e
  map_err-ne-panic f (err x) h = λ e. cc e
  map_err-ne-panic f panic h = absurd (h refl)

module _ {ℓ κ} {E : Type ℓ} {A : Type κ} where
  pub ok_or-ne-panic : (e : E) (o : Option A) → ok_or e o ≢ panic
  ok_or-ne-panic e none = λ e. cc e
  ok_or-ne-panic e (some a) = λ e. cc e

pub guard-ne-panic {ℓ} : {E : Type ℓ} (e : E) (b : Bool) → guard e b ≢ panic
guard-ne-panic e true = λ e. cc e
guard-ne-panic e false = λ e. cc e
