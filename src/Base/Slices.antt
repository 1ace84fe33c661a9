-- ===== src/Base/Slices.antt =====
-- Byte ranges of slices and arrays, with the panics of Rust's indexing written out.
use Prim.Native.Nat.{ℕ, zero, suc, ◌+◌, ◌-◌, ◌≤◌, ◌<◌}
use mathlib.Core.Path.{◌≡◌, refl, sym, ap, ◌∙◌}
use mathlib.Core.Bool.{◌&&◌}
use mathlib.Core.List.{List, [], ◌∷◌, ◌++◌, append-nil}
use native.Mathlib.Omega.{arith}
use sifir.Base.Tests.{leb, ◌==◌, if◌then◌else◌, le→leb, eq→==}
use sifir.Base.Lists.{
  get_or, get_or-take, get_or-drop, length, take, drop, length-append, length-take, length-drop,
  take-append_self, drop-append_right, drop-zero, take_all, take-append-drop, replicate,
  drop-replicate, take-replicate, take-zero, drop_all, drop-drop, take-take, drop-take,
}
use sifir.Base.Results.{Outcome, ok, panic}

module _ {ℓ} {A : Type ℓ} where
  -- The `n` elements from `lo` on.
  unfoldable pub part : ℕ → ℕ → List A → List A
  part lo n xs = take n (drop lo xs)

  -- `xs` with `src` in place of the elements from `lo` on.
  unfoldable pub patch : ℕ → List A → List A → List A
  patch lo src xs = take lo xs ++ (src ++ drop (lo + length src) xs)

module _ {ℓ κ} {E : Type κ} {A : Type ℓ} where
  -- `xs[lo..hi]`
  unfoldable pub range : List A → ℕ → ℕ → Outcome E (List A)
  range xs lo hi = if leb lo hi && leb hi (length xs) then ok (part lo (hi - lo) xs) else panic

  -- `xs.try_into().unwrap()` into an array of `n` elements
  unfoldable pub to_array : ℕ → List A → Outcome E (List A)
  to_array n xs = if length xs == n then ok xs else panic

  -- `dst[lo..hi].copy_from_slice(src)`, returning the written array
  unfoldable pub copy_from_slice : List A → ℕ → ℕ → List A → Outcome E (List A)
  copy_from_slice dst lo hi src =
      if leb lo hi && leb hi (length dst) && hi - lo == length src
      then ok (patch lo src dst)
      else panic

  -- `xs[i]`
  unfoldable pub index : List A → ℕ → Outcome E A
  index [] i = panic
  index (x ∷ xs) zero = ok x
  index (x ∷ xs) (suc i) = index xs i

  pub index_lem : (xs : List A) (i : ℕ) (d : A) → i < length xs → index xs i ≡ ok (get_or xs i d)
  unfolding index
  index_lem [] i d h = absurd (omega arith)
  index_lem (x ∷ xs) zero d h = refl
  index_lem (x ∷ xs) (suc i) d h = index_lem xs i d (omega arith)

  pub range_lem :
      (xs : List A) (lo hi : ℕ)
      → lo ≤ hi
      → hi ≤ length xs
      → range xs lo hi ≡ ok (part lo (hi - lo) xs)
  unfolding range
  range_lem xs lo hi h k = rw (le→leb lo hi h, le→leb hi (length xs) k)

  pub to_array_lem : (n : ℕ) (xs : List A) → length xs ≡ n → to_array n xs ≡ ok xs
  unfolding to_array
  to_array_lem n xs h = rw (eq→== (length xs) n h)

  pub copy_from_slice_lem :
      (dst : List A) (lo hi : ℕ) (src : List A)
      → lo ≤ hi
      → hi ≤ length dst
      → hi - lo ≡ length src
      → copy_from_slice dst lo hi src ≡ ok (patch lo src dst)
  unfolding copy_from_slice
  copy_from_slice_lem dst lo hi src h k e =
      rw (le→leb lo hi h, le→leb hi (length dst) k, eq→== (hi - lo) (length src) e)

module _ {ℓ} {A : Type ℓ} where
  pub length-part : (lo n : ℕ) (xs : List A) → lo + n ≤ length xs → length (part lo n xs) ≡ n
  unfolding part
  length-part lo n xs h = omega (arith, length-take n (drop lo xs), length-drop lo xs)

  pub length-patch :
      (lo : ℕ) (src xs : List A)
      → lo + length src ≤ length xs
      → length (patch lo src xs) ≡ length xs
  unfolding patch
  length-patch lo src xs h = omega (
    arith,
    length-append (take lo xs) (src ++ drop (lo + length src) xs),
    length-append src (drop (lo + length src) xs),
    length-take lo xs,
    length-drop (lo + length src) xs,
  )

  pub get_or-part :
      (lo n i : ℕ) (xs : List A) (d : A) → i < n → get_or (part lo n xs) i d ≡ get_or xs (lo + i) d
  unfolding part
  get_or-part lo n i xs d h = get_or-take n i (drop lo xs) d h ∙ get_or-drop lo i xs d

  -- A part of a part.
  pub part-part :
      (a n lo m : ℕ) (xs : List A) → a + n ≤ m → part a n (part lo m xs) ≡ part (lo + a) n xs
  unfolding part
  part-part a n lo m xs h =
      let e : a + (m - a) ≡ m = omega arith in
      rw (← e, drop-take, take-take n (m - a) (drop a (drop lo xs)) (omega arith), drop-drop)

  -- What lies behind the first `lo` elements of a patched list.
  drop-patch :
      (lo : ℕ) (src xs : List A)
      → lo ≤ length xs
      → (n : ℕ) → drop (lo + n) (patch lo src xs) ≡ drop n (src ++ drop (lo + length src) xs)
  unfolding patch
  drop-patch lo src xs h n =
      let e : length (take lo xs) ≡ lo = omega (arith, length-take lo xs) in
      rw e at (drop-append_right (take lo xs) (src ++ drop (lo + length src) xs) n)

  take-patch : (lo : ℕ) (src xs : List A) → lo ≤ length xs → take lo (patch lo src xs) ≡ take lo xs
  unfolding patch
  take-patch lo src xs h =
      let e : length (take lo xs) ≡ lo = omega (arith, length-take lo xs) in
      rw e at (take-append_self (take lo xs) (src ++ drop (lo + length src) xs))

  -- What was written is read back.
  pub part-patch_self :
      (lo : ℕ) (src xs : List A)
      → lo + length src ≤ length xs
      → part lo (length src) (patch lo src xs) ≡ src
  unfolding part
  part-patch_self lo src xs h =
      let e : lo + 0 ≡ lo = omega arith in
      let d : drop lo (patch lo src xs) ≡ src ++ drop (lo + length src) xs =
        rw (e, drop-zero) at (drop-patch lo src xs (omega arith) 0) in
      rw d (take-append_self src (drop (lo + length src) xs))

  -- What ends before the written range is as it was.
  pub part-patch_before :
      (a n lo : ℕ) (src xs : List A)
      → a + n ≤ lo
      → lo ≤ length xs
      → part a n (patch lo src xs) ≡ part a n xs
  unfolding part
  part-patch_before a n lo src xs h k =
      let e : take (a + n) (patch lo src xs) ≡ take (a + n) xs =
        sym (take-take (a + n) lo (patch lo src xs) h)
        ∙ ap (take (a + n)) (take-patch lo src xs k)
        ∙ take-take (a + n) lo xs h in
      sym (drop-take a n (patch lo src xs)) ∙ ap (drop a) e ∙ drop-take a n xs

  -- What begins behind the written range is as it was.
  pub part-patch_after :
      (a n lo : ℕ) (src xs : List A)
      → lo + length src ≤ a
      → lo ≤ length xs
      → part a n (patch lo src xs) ≡ part a n xs
  unfolding part
  part-patch_after a n lo src xs h k =
      let d : ℕ = a - (lo + length src) in
      let e : lo + (length src + d) ≡ a = omega arith in
      let f : lo + length src + d ≡ a = omega arith in
      let g : drop (lo + (length src + d)) (patch lo src xs) ≡ drop (lo + length src + d) xs =
        drop-patch lo src xs k (length src + d)
        ∙ drop-append_right src (drop (lo + length src) xs) d
        ∙ drop-drop d (lo + length src) xs in
      ap (take n) (rw e at (rw f at g))

  -- An array that is written in two halves holds the halves.
  pub patch_halves :
      (r s z : List A) → length z ≤ length r + length s → patch (length r) s (patch 0 r z) ≡ r ++ s
  unfolding patch
  patch_halves r s z h =
      let e : 0 + length r ≡ length r = omega arith in
      rw (
        take-zero z,
        e,
        take-append_self r (drop (length r) z),
        drop-append_right r (drop (length r) z) (length s),
        drop_all (length s) (drop (length r) z) (omega (arith, length-drop (length r) z)),
        append-nil s,
      )

  -- The two halves of a list, side by side.
  -- A write of the whole array leaves what was written.
  pub patch_whole : (src dst : List A) → length dst ≡ length src → patch 0 src dst ≡ src
  unfolding patch
  patch_whole src dst h =
      rw (take-zero dst, drop_all (0 + length src) dst (omega arith), append-nil src)

  pub part-append-part :
      (n m : ℕ) (xs : List A) → length xs ≡ n + m → part 0 n xs ++ part n m xs ≡ xs
  unfolding part
  part-append-part n m xs h =
      rw (drop-zero xs, take_all m (drop n xs) (omega (arith, length-drop n xs)))
        (take-append-drop n xs)

  -- A part of a uniform array.
  pub part-replicate : (lo n k : ℕ) (a : A) → lo + n ≤ k → part lo n (replicate k a) ≡ replicate n a
  unfolding part
  part-replicate lo n k a h = rw (drop-replicate lo k a) (take-replicate n (k - lo) a (omega arith))
