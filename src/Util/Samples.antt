-- ===== src/Util/Samples.antt =====
-- `summarize_samples` of src/util.cpp. A read outside of a vector is `none`, where the program's
-- behaviour is undefined. `std::sort` is an insertion by the same comparison.
pub mod Bounds
pub mod Extremes
use bittorrent_peer_linking.Base.{
  ℕ, zero, suc, ◌-◌, pos, String, Option, none, some, List, [], ◌∷◌, length, ◌>>=◌, if◌then◌else◌,
}
use bittorrent_peer_linking.Double.{Double}
use bittorrent_peer_linking.Json.{Json, members_of, object, integer, optional_number}

pub record DistributionSummary (D : Double) : Type 0 where
  pub count : ℕ
  pub min : Option D.Real
  pub max : Option D.Real
  pub mean : Option D.Real
  pub stddev : Option D.Real
  pub p50 : Option D.Real
  pub p95 : Option D.Real

-- `values[index]`
unfoldable pub at : {A : Type 0} → List A → ℕ → Option A
at [] index = none
at (value ∷ values) zero = some value
at (value ∷ values) (suc index) = at values index

module _ (D : Double) where
  open D use {Real, add, sub, mul, div, of_ℤ, literal, floor, ceil, to_size}

  unfoldable pub insert_sample : Real → List Real → List Real
  insert_sample sample [] = sample ∷ []
  insert_sample sample (first ∷ rest) =
      let after = insert_sample sample rest in
      if D.lt first sample then first ∷ after else sample ∷ first ∷ rest

  unfoldable pub sort_samples : List Real → List Real
  sort_samples [] = []
  sort_samples (sample ∷ samples) = insert_sample sample (sort_samples samples)

  unfoldable pub position_of : List Real → Real → Real
  position_of sorted_samples fraction = mul fraction (of_ℤ (pos (length sorted_samples - 1)))

  -- Between the samples at the indices below and above the position.
  unfoldable pub interpolate : List Real → Real → Option Real
  interpolate sorted_samples position =
      let lower_index = to_size (floor position) in
      let weight = sub position (of_ℤ (pos lower_index)) in
      do
        lower ← at sorted_samples lower_index
        upper ← at sorted_samples (to_size (ceil position))
        some (add (mul lower (sub (literal 1 1) weight)) (mul upper weight))

  unfoldable pub percentile : List Real → Real → Option Real
  percentile [] fraction = some (literal 0 1)
  percentile (sample ∷ []) fraction = some sample
  percentile (sample ∷ next ∷ samples) fraction =
      let sorted_samples = sample ∷ next ∷ samples in
      interpolate sorted_samples (position_of sorted_samples fraction)

  -- `std::accumulate`
  unfoldable pub sum_from : Real → List Real → Real
  sum_from total [] = total
  sum_from total (sample ∷ samples) = sum_from (add total sample) samples

  unfoldable pub squares_from : Real → Real → List Real → Real
  squares_from mean variance [] = variance
  squares_from mean variance (sample ∷ samples) =
      let delta = sub sample mean in squares_from mean (add variance (mul delta delta)) samples

  -- The summary of sorted samples, of which there are some.
  unfoldable pub summarize_sorted : List Real → Option (DistributionSummary D)
  summarize_sorted sorted =
      let count = length sorted in
      let mean = div (sum_from (literal 0 1) sorted) (of_ℤ (pos count)) in
      let variance = div (squares_from mean (literal 0 1) sorted) (of_ℤ (pos count)) in
      do
        front ← at sorted 0
        back ← at sorted (count - 1)
        p50 ← percentile sorted (literal 50 100)
        p95 ← percentile sorted (literal 95 100)
        some (record {
          count = count;
          min = some front;
          max = some back;
          mean = some mean;
          stddev = some (D.sqrt variance);
          p50 = some p50;
          p95 = some p95;
        })

  unfoldable pub summarize_samples : List Real → Option (DistributionSummary D)
  summarize_samples [] = some (record {
    count = 0;
    min = none;
    max = none;
    mean = none;
    stddev = none;
    p50 = none;
    p95 = none;
  })
  summarize_samples (sample ∷ samples) = summarize_sorted (sort_samples (sample ∷ samples))

  unfoldable pub distribution_summary_to_json : DistributionSummary D → Json D
  distribution_summary_to_json summary = object (
      members_of (
        ("count", integer (pos summary.count))
        ∷ ("min", optional_number D summary.min)
        ∷ ("max", optional_number D summary.max)
        ∷ ("mean", optional_number D summary.mean)
        ∷ ("stddev", optional_number D summary.stddev)
        ∷ ("p50", optional_number D summary.p50)
        ∷ ("p95", optional_number D summary.p95)
        ∷ []))
