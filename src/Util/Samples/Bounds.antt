-- ===== src/Util/Samples/Bounds.antt =====
-- The reads of `summarize_samples` of src/util.cpp stay within the samples.
use bittorrent_peer_linking.Base.{
  ℕ, zero, suc, ◌-◌, ◌≤◌, ◌<◌, ◌≡◌, refl, arith, pos, true, Option, some, List, [], ◌∷◌, length,
  ◌>>=◌, Bool-cases, inl, inr,
}
use bittorrent_peer_linking.Double.{Double}
use bittorrent_peer_linking.Util.Samples.{
  at, insert_sample, sort_samples, position_of, interpolate, percentile,
}

-- 2 ^ 53, up to which `double` has all whole numbers.
abbrev pub exact_limit : ℕ
exact_limit = 9007199254740992

-- A number from zero to a whole number.
abbrev pub IsWithin : (D : Double) → D.Real → ℕ → Type 0
IsWithin D x m = (D.le (D.of_ℤ (pos 0)) x ≡ true) × (D.le x (D.of_ℤ (pos m)) ≡ true)

-- What the percentiles rely on in the arithmetic of `double`, for the whole numbers that it has
-- exactly: the two fractions of such a number are from zero to it, and for a number from zero to it
-- `ceil` does not pass it, and `floor` is at most `ceil`.
pub record IsRounding (D : Double) : Type 0 where
  pub half : (m : ℕ) → m < exact_limit → IsWithin D (D.mul (D.literal 50 100) (D.of_ℤ (pos m))) m
  pub most : (m : ℕ) → m < exact_limit → IsWithin D (D.mul (D.literal 95 100) (D.of_ℤ (pos m))) m
  pub ceil_le : (x : D.Real) (m : ℕ) → m < exact_limit → IsWithin D x m → D.to_size (D.ceil x) ≤ m
  pub floor_le :
      (x : D.Real) (m : ℕ)
      → m < exact_limit
      → IsWithin D x m
      → D.to_size (D.floor x) ≤ D.to_size (D.ceil x)

-- A value is found, which has a property.
abbrev pub Finds : {A : Type 0} → Option A → (A → Type 0) → Type 0
Finds {A} x P = (a : A) × (x ≡ some a) × P a

pub bind-Finds :
    {A B : Type 0} {P : B → Type 0} (x : Option A) (f : A → Option B) (a : A)
    → x ≡ some a
    → Finds (f a) P
    → Finds (x >>= f) P
bind-Finds x f a e (b, g, p) = (b, rw e g, p)

pub at-some :
    {A : Type 0} (values : List A) (index : ℕ)
    → index < length values
    → (a : A) × (at values index ≡ some a)
unfolding at
at-some [] index h = absurd (omega (arith, h))
at-some (value ∷ values) zero h = (value, refl)
at-some (value ∷ values) (suc index) h = at-some values index (omega (arith, h))

module _ (D : Double) (rounds : IsRounding D) where
  interpolate-some :
      (samples : List D.Real) (x : D.Real) (m : ℕ)
      → length samples ≡ suc m
      → m < exact_limit
      → IsWithin D x m
      → Finds (interpolate D samples x) (λ p. Unit)
  unfolding interpolate
  interpolate-some samples x m e small h =
      let top = rounds.ceil_le x m small h in
      let low = rounds.floor_le x m small h in
      let (a, f) = at-some samples (D.to_size (D.floor x)) (omega (arith, e, top, low)) in
      let (b, g) = at-some samples (D.to_size (D.ceil x)) (omega (arith, e, top)) in
      bind-Finds _ _ a f (bind-Finds _ _ b g (_, refl, tt))

  pub percentile-some :
      (samples : List D.Real) (fraction : D.Real)
      → ((m : ℕ) → m < exact_limit → IsWithin D (D.mul fraction (D.of_ℤ (pos m))) m)
      → length samples ≤ exact_limit
      → Finds (percentile D samples fraction) (λ p. Unit)
  unfolding percentile position_of
  percentile-some [] fraction h small = (_, refl, tt)
  percentile-some (sample ∷ []) fraction h small = (_, refl, tt)
  percentile-some (sample ∷ next ∷ samples) fraction h small =
      let m = length (sample ∷ next ∷ samples) - 1 in
      interpolate-some (sample ∷ next ∷ samples) _ m (omega arith) (omega arith) (h m (omega arith))

module _ (D : Double) where
  length-insert :
      (sample : D.Real) (samples : List D.Real)
      → length (insert_sample D sample samples) ≡ suc (length samples)
  unfolding insert_sample
  length-insert sample [] = refl
  length-insert sample (first ∷ rest) = elim (Bool-cases (D.lt first sample)) [
    | inl e ↦ rw e (omega (arith, length-insert sample rest))
    | inr e ↦ rw e refl
  ]

  pub length-sort : (samples : List D.Real) → length (sort_samples D samples) ≡ length samples
  unfolding sort_samples
  length-sort [] = refl
  length-sort (sample ∷ samples) =
      omega (arith, length-insert sample (sort_samples D samples), length-sort samples)
