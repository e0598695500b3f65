-- ===== src/Util/Samples/Extremes.antt =====
-- The least and the greatest sample in `summarize_samples` of src/util.cpp.
use mathlib.Core.Path.{subst}
use mathlib.Core.Option.{some-injective}
use mathlib.Core.List.{Mem, Perm, mem-cons_self, mem-cons_of_mem}
use mathlib.Core.List.Perm
use bittorrent_peer_linking.Base.{
  ℕ, zero, suc, ◌-◌, ◌≤◌, ◌≡◌, refl, arith, true, false, none, some, List, [], ◌∷◌, length,
  Bool-cases, inl, inr,
}
use bittorrent_peer_linking.Double.{Double}
use bittorrent_peer_linking.Util.Samples.{
  DistributionSummary, at, insert_sample, sort_samples, summarize_sorted, summarize_samples,
}
use bittorrent_peer_linking.Util.Samples.Bounds.{
  exact_limit, IsRounding, Finds, bind-Finds, at-some, percentile-some, length-sort,
}

-- A number, which is not NaN.
abbrev pub IsNumber : (D : Double) → D.Real → Type 0
IsNumber D x = D.le x x ≡ true

-- The order of `double`, where what is compared in between is a number.
pub record IsOrder (D : Double) : Type 0 where
  pub lt_asym : (a b : D.Real) → D.lt a b ≡ true → D.lt b a ≡ false
  pub le_trans :
      (a b c : D.Real) → IsNumber D b → D.lt b a ≡ false → D.lt c b ≡ false → D.lt c a ≡ false

abbrev pub Each : {A : Type 0} → (A → Type 0) → List A → Type 0
Each P [] = Unit
Each P (a ∷ l) = P a × Each P l

at-Each :
    {A : Type 0} (P : A → Type 0) (l : List A) (i : ℕ) (a : A) → Each P l → at l i ≡ some a → P a
unfolding at
at-Each P [] i a h e = absurd (cc e)
at-Each P (b ∷ l) zero a (p, h) e = subst P (some-injective _ _ e) p
at-Each P (b ∷ l) (suc i) a (p, h) e = at-Each P l i a h e

at-Mem : {A : Type 0} (l : List A) (i : ℕ) (a : A) → at l i ≡ some a → Mem a l
unfolding at
at-Mem [] i a e = absurd (cc e)
at-Mem (b ∷ l) zero a e = subst (λ c. Mem c (b ∷ l)) (some-injective _ _ e) mem-cons_self
at-Mem (b ∷ l) (suc i) a e = mem-cons_of_mem b (at-Mem l i a e)

map-Each :
    {A : Type 0} (P Q : A → Type 0) (l : List A) → ((a : A) → P a → Q a) → Each P l → Each Q l
map-Each P Q [] f h = tt
map-Each P Q (a ∷ l) f (p, h) = (f a p, map-Each P Q l f h)

module _ (D : Double) where
  abbrev pub AtLeast : D.Real → List D.Real → Type 0
  AtLeast low = Each (λ s. D.lt s low ≡ false)

  abbrev pub AtMost : D.Real → List D.Real → Type 0
  AtMost high = Each (λ s. D.lt high s ≡ false)

  abbrev AreSorted : List D.Real → Type 0
  AreSorted [] = Unit
  AreSorted (s ∷ l) = AtLeast s l × AreSorted l

  insert-Each :
      (P : D.Real → Type 0) (s : D.Real) (l : List D.Real)
      → P s
      → Each P l
      → Each P (insert_sample D s l)
  unfolding insert_sample
  insert-Each P s [] p h = (p, tt)
  insert-Each P s (t ∷ l) p (q, h) = elim (Bool-cases (D.lt t s)) [
    | inl e ↦ rw e (q, insert-Each P s l p h)
    | inr e ↦ rw e (p, (q, h))
  ]

  insert-Perm : (s : D.Real) (l : List D.Real) → Perm (s ∷ l) (insert_sample D s l)
  unfolding insert_sample
  insert-Perm s [] = Perm.refl (s ∷ [])
  insert-Perm s (t ∷ l) = elim (Bool-cases (D.lt t s)) [
    | inl e ↦ rw e (Perm.trans (Perm.swap t s l) (Perm.cons t (insert-Perm s l)))
    | inr e ↦ rw e (Perm.refl (s ∷ t ∷ l))
  ]

  sort-Perm : (l : List D.Real) → Perm l (sort_samples D l)
  unfolding sort_samples
  sort-Perm [] = Perm.refl []
  sort-Perm (s ∷ l) = Perm.trans (Perm.cons s (sort-Perm l)) (insert-Perm s (sort_samples D l))

  from_sorted : (l : List D.Real) (a : D.Real) → Mem a (sort_samples D l) → Mem a l
  from_sorted l a = (Perm.mem_iff (sort-Perm l)).1

  sort-Each : (P : D.Real → Type 0) (l : List D.Real) → Each P l → Each P (sort_samples D l)
  unfolding sort_samples
  sort-Each P [] h = tt
  sort-Each P (s ∷ l) (p, h) = insert-Each P s (sort_samples D l) p (sort-Each P l h)

  from_insert :
      (P : D.Real → Type 0) (s : D.Real) (l : List D.Real)
      → Each P (insert_sample D s l)
      → Each P (s ∷ l)
  unfolding insert_sample
  from_insert P s [] h = h
  from_insert P s (t ∷ l) h = elim (Bool-cases (D.lt t s)) [
    | inl e ↦ let k = rw e at h in (let (p, q) = from_insert P s l k.1 in (p, (k.0, q)))
    | inr e ↦ rw e at h
  ]

  from_sort : (P : D.Real → Type 0) (l : List D.Real) → Each P (sort_samples D l) → Each P l
  unfolding sort_samples
  from_sort P [] h = tt
  from_sort P (s ∷ l) h = let (p, q) = from_insert P s (sort_samples D l) h in (p, from_sort P l q)

module _ (D : Double) (order : IsOrder D) where
  insert-AreSorted :
      (s : D.Real) (l : List D.Real)
      → Each (IsNumber D) l
      → AreSorted D l
      → AreSorted D (insert_sample D s l)
  unfolding insert_sample
  insert-AreSorted s [] numbers h = (tt, tt)
  insert-AreSorted s (t ∷ l) (number, numbers) (least, h) = elim (Bool-cases (D.lt t s)) [
    | inl e ↦ rw e (
      insert-Each D (λ r. D.lt r t ≡ false) s l (order.lt_asym t s e) least,
      insert-AreSorted s l numbers h,
    )
    | inr e ↦ rw e ((e, map-Each _ _ l (λ r. order.le_trans s t r number e) least), (least, h))
  ]

  sort-AreSorted : (l : List D.Real) → Each (IsNumber D) l → AreSorted D (sort_samples D l)
  unfolding sort_samples
  sort-AreSorted [] numbers = tt
  sort-AreSorted (s ∷ l) (number, numbers) =
      insert-AreSorted s (sort_samples D l) (sort-Each D (IsNumber D) l numbers)
        (sort-AreSorted l numbers)

  lt_irrefl : (a : D.Real) → D.lt a a ≡ false
  lt_irrefl a = elim (Bool-cases (D.lt a a)) [ inl e ↦ order.lt_asym a a e | inr e ↦ e ]

  front-AtLeast :
      (l : List D.Real) (low : D.Real) → AreSorted D l → at l 0 ≡ some low → AtLeast D low l
  unfolding at
  front-AtLeast [] low h e = absurd (cc e)
  front-AtLeast (s ∷ l) low (least, h) e =
      subst (λ r. AtLeast D r (s ∷ l)) (some-injective _ _ e) (lt_irrefl s, least)

  back-AtMost :
      (s : D.Real) (l : List D.Real) (n : ℕ) (high : D.Real)
      → AreSorted D (s ∷ l)
      → length l ≡ n
      → at (s ∷ l) n ≡ some high
      → AtMost D high (s ∷ l)
  unfolding at
  back-AtMost s [] zero high h m e =
      subst (λ r. AtMost D r (s ∷ [])) (some-injective _ _ e) (lt_irrefl s, tt)
  back-AtMost s [] (suc n) high h m e = absurd (omega (arith, m))
  back-AtMost s (t ∷ l) zero high h m e = absurd (omega (arith, m))
  back-AtMost s (t ∷ l) (suc n) high (least, h) m e = (
    at-Each (λ r. D.lt r s ≡ false) (t ∷ l) n high least e,
    back-AtMost t l n high h (omega (arith, m)) e,
  )

-- No numbers for no samples. Otherwise the minimum and the maximum are samples, no sample is below
-- the one or above the other, and no number is missing.
abbrev pub IsSummary : (D : Double) → List D.Real → DistributionSummary D → Type 0
IsSummary D [] s = s ≡ record {
  count = 0;
  min = none;
  max = none;
  mean = none;
  stddev = none;
  p50 = none;
  p95 = none;
}
IsSummary D (sample ∷ samples) s =
    (low high mean stddev p50 p95 : D.Real) × (s.count ≡ length (sample ∷ samples))
    × (s.min ≡ some low)
    × (s.max ≡ some high)
    × (s.mean ≡ some mean)
    × (s.stddev ≡ some stddev)
    × (s.p50 ≡ some p50)
    × (s.p95 ≡ some p95)
    × Mem low (sample ∷ samples)
    × Mem high (sample ∷ samples)
    × AtLeast D low (sample ∷ samples)
    × AtMost D high (sample ∷ samples)

module _ (D : Double) (rounds : IsRounding D) (order : IsOrder D) where
  back_of :
      (l : List D.Real) (n : ℕ) (high : D.Real)
      → AreSorted D l
      → length l ≡ suc n
      → at l n ≡ some high
      → AtMost D high l
  back_of [] n high h m e = absurd (omega (arith, m))
  back_of (s ∷ l) n high h m e = back-AtMost D order s l n high h (omega (arith, m)) e

  -- For samples that are numbers, at most 2 ^ 53 of them, where `double` rounds as the percentiles need
  -- below 2 ^ 53 and orders its numbers, the summary reads no sample that is not there. Without samples it has no number; otherwise it has every number and the count,
  -- and its minimum and maximum are samples that no sample is below or above.
  pub summarize-IsSummary :
      (samples : List D.Real)
      → Each (IsNumber D) samples
      → length samples ≤ exact_limit
      → Finds (summarize_samples D samples) (IsSummary D samples)
  unfolding summarize_samples summarize_sorted
  summarize-IsSummary [] numbers small = (_, refl, refl)
  summarize-IsSummary (sample ∷ samples) numbers small =
      let l = sample ∷ samples in
      let sorted = sort_samples D l in
      let size : length sorted ≡ suc (length samples) = omega (arith, length-sort D l) in
      let (low, e) = at-some sorted 0 (omega (arith, size)) in
      let (high, f) = at-some sorted (length sorted - 1) (omega (arith, size)) in
      let (p50, g, _) =
        percentile-some D rounds sorted (D.literal 50 100) rounds.half (omega (arith, size)) in
      let (p95, h, _) =
        percentile-some D rounds sorted (D.literal 95 100) rounds.most (omega (arith, size)) in
      bind-Finds _ _ low e (
        bind-Finds _ _ high f (
          bind-Finds _ _ p50 g (
            bind-Finds _ _ p95 h (
              _,
              refl,
              (
                low,
                high,
                _,
                _,
                p50,
                p95,
                omega (arith, size),
                refl,
                refl,
                refl,
                refl,
                refl,
                refl,
                from_sorted D l _ (at-Mem sorted 0 low e),
                from_sorted D l _ (at-Mem sorted (length sorted - 1) high f),
                from_sort D _ l
                    (front-AtLeast D order sorted low (sort-AreSorted D order l numbers) e),
                from_sort D _ l (
                    back_of sorted (length sorted - 1) high (sort-AreSorted D order l numbers)
                      (omega (arith, size)) f),
              ),
            ))))
