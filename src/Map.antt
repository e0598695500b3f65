-- ===== src/Map.antt =====
-- `std::map`: entries in the order of a comparator, one for each key. The unordered maps of the
-- program are only searched, written and cleared, and are kept the same way.
pub mod Laws
use bittorrent_peer_linking.Base.{
  Bool, true, false, not, ◌&&◌, ◌≡◌, List, [], ◌∷◌, Option, none, some, if◌then◌else◌,
}

-- A comparator with what the container demands of it: a strict order that tells keys apart.
pub record Ord {ℓ} (K : Type ℓ) : Type ℓ where
  pub lt : K → K → Bool
  pub lt_irrefl : (a : K) → lt a a ≡ false
  pub lt_trans : (a b c : K) → lt a b ≡ true → lt b c ≡ true → lt a c ≡ true
  pub lt_tri : (a b : K) → lt a b ≡ false → lt b a ≡ false → a ≡ b

abbrev pub Map {ℓ κ} : Type ℓ → Type κ → Type (ℓ ⊔ κ)
Map K V = List (K × V)

-- Neither key is less than the other.
unfoldable pub same {ℓ} : {K : Type ℓ} ⦃o : Ord K⦄ → K → K → Bool
same ⦃o⦄ a b = not (o.lt a b) && not (o.lt b a)

module _ {ℓ κ} {K : Type ℓ} {V : Type κ} where
  -- Each value of the map through `f`: a loop over the entries that writes their values.
  unfoldable pub map_values : (V → V) → Map K V → Map K V
  map_values f [] = []
  map_values f ((k, v) ∷ m) = (k, f v) ∷ map_values f m

module _ {ℓ κ} {K : Type ℓ} {V : Type κ} ⦃o : Ord K⦄ where
  -- `m.find(k)`
  unfoldable pub find : K → Map K V → Option V
  find k [] = none
  find k ((j, v) ∷ m) = if same k j then some v else find k m

  -- `m[k] = v`
  unfoldable pub insert : K → V → Map K V → Map K V
  insert k v [] = (k, v) ∷ []
  insert k v ((j, w) ∷ m) =
      if o.lt k j
      then (k, v) ∷ (j, w) ∷ m
      else if o.lt j k
      then (j, w) ∷ insert k v m
      else (k, v) ∷ m

  -- `m.erase(k)`
  unfoldable pub erase : K → Map K V → Map K V
  erase k [] = []
  erase k ((j, w) ∷ m) = let rest = erase k m in if same k j then rest else (j, w) ∷ rest

  -- `m.emplace(k, v)` leaves an entry that is there.
  unfoldable pub emplace : K → V → Map K V → Map K V
  emplace k v m = elim (find k m) [ none ↦ insert k v m | some old ↦ m ]

  -- A write through a reference to the value of `k`.
  unfoldable pub update_at : K → (V → V) → Map K V → Map K V
  update_at k f m = elim (find k m) [ none ↦ m | some v ↦ insert k (f v) m ]
