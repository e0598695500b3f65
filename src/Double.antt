-- ===== src/Double.antt =====
-- The type `double` and the operations that the program uses on it, which the compiler and the
-- C library supply. Comparisons are those of the language, false where a side is NaN.
use bittorrent_peer_linking.Base.{ℕ, ℤ, Bool, if◌then◌else◌}

pub record Double : Type 1 where
  pub Real : Type 0
  -- `static_cast<double>` of an integer.
  pub of_ℤ : ℤ → Real
  -- A decimal constant of the source, as a numerator and a denominator.
  pub literal : ℕ → ℕ → Real
  pub add : Real → Real → Real
  pub sub : Real → Real → Real
  pub mul : Real → Real → Real
  pub div : Real → Real → Real
  pub lt : Real → Real → Bool
  pub le : Real → Real → Bool
  pub sqrt : Real → Real
  pub floor : Real → Real
  pub ceil : Real → Real
  -- `static_cast<std::size_t>`
  pub to_size : Real → ℕ

module _ (D : Double) where
  open D use {Real, lt}

  -- `std::max`: the first argument, unless it is less than the second.
  abbrev pub max_real : Real → Real → Real
  max_real a b = if lt a b then b else a

  -- `std::min`: the first argument, unless the second is less.
  abbrev pub min_real : Real → Real → Real
  min_real a b = if lt b a then b else a
