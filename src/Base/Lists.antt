-- ===== src/Base/Lists.antt =====
-- Lists measured by native numbers, under the library's names.
use Prim.Native.Nat.{ℕ, suc, ◌+◌}
use mathlib.Core.Path.{◌≡◌, refl, ap}
use mathlib.Core.List.{List, [], ◌∷◌, ◌++◌}
use native.Mathlib.Omega.{arith}

module _ {ℓ} {A : Type ℓ} where
  abbrev pub length : List A → ℕ
  length [] = 0
  length (x ∷ xs) = suc (length xs)

  pub length-append : (xs ys : List A) → length (xs ++ ys) ≡ length xs + length ys
  length-append [] ys = omega arith
  length-append (x ∷ xs) ys = omega (arith, length-append xs ys)

  -- `v.push_back(x)`
  abbrev pub push_back : List A → A → List A
  push_back [] a = a ∷ []
  push_back (x ∷ xs) a = x ∷ push_back xs a

  pub length-push_back : (xs : List A) (a : A) → length (push_back xs a) ≡ suc (length xs)
  length-push_back [] a = omega arith
  length-push_back (x ∷ xs) a = omega (arith, length-push_back xs a)

  pub push_back-append : (xs : List A) (a : A) → push_back xs a ≡ xs ++ (a ∷ [])
  push_back-append [] a = refl
  push_back-append (x ∷ xs) a = ap (λ ys. x ∷ ys) (push_back-append xs a)
