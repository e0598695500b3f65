-- ===== src/Map/Laws.antt =====
-- The laws of the map's operations, by which the other modules reason.
use mathlib.Core.Option
use bittorrent_peer_linking.Base.{
  ◌≡◌, suc, true, false, refl, arith, [], ◌∷◌, none, some, length, inl, inr, Bool-cases,
  Option-cases, if◌then◌else◌,
}
use bittorrent_peer_linking.Map.{
  Ord, Map, same, find, insert, erase, emplace, update_at, map_values,
}

module _ {ℓ} {K : Type ℓ} ⦃o : Ord K⦄ where
  pub same_refl : (a : K) → same a a ≡ true
  unfolding same
  same_refl a = ground (arith, o.lt_irrefl a)

  pub same-eq : (a b : K) → same a b ≡ true → a ≡ b
  unfolding same
  same-eq a b h = ground (arith, o.lt_tri a b)

  pub same_of_eq : (a b : K) → a ≡ b → same a b ≡ true
  same_of_eq a b e = ground (arith, same_refl a)

  -- An order is never both ways round.
  lt-asymm : (a b : K) → o.lt a b ≡ true → o.lt b a ≡ false
  lt-asymm a b h = ground (arith, o.lt_irrefl a, o.lt_trans a b a)

  lt-same : (a b : K) → o.lt a b ≡ true → (same a b ≡ false) × (same b a ≡ false)
  unfolding same
  lt-same a b h = ground (arith, lt-asymm a b)

module _ {ℓ κ} {K : Type ℓ} {V : Type κ} ⦃o : Ord K⦄ where
  -- Every key of the map comes after `k`.
  abbrev pub Above : K → Map K V → Type 0
  Above k [] = Unit {0}
  Above k ((j, v) ∷ m) = (o.lt k j ≡ true) × Above k m

  -- The keys rise along the list, as the container keeps them.
  abbrev pub IsSorted : Map K V → Type 0
  IsSorted [] = Unit {0}
  IsSorted ((k, v) ∷ m) = Above k m × IsSorted m

  pub find-insert :
      (j k : K) (v : V) (m : Map K V)
      → find j (insert k v m) ≡ (if same j k then some v else find j m)
  unfolding find insert
  find-insert j k v [] = refl
  find-insert j k v ((i, w) ∷ m) = ground (
    arith,
    find-insert j k v m,
    o.lt_tri k i,
    same-eq j k,
    same-eq j i,
    same_of_eq j k,
    same_of_eq j i,
    lt-same k i,
    lt-same i k,
  )

  pub find-erase :
      (j k : K) (m : Map K V) → find j (erase k m) ≡ (if same j k then none else find j m)
  unfolding find erase
  find-erase j k [] = ground arith
  find-erase j k ((i, w) ∷ m) = ground (
    arith,
    find-erase j k m,
    same-eq j k,
    same-eq j i,
    same-eq k i,
    same_of_eq j k,
    same_of_eq j i,
    same_of_eq k i,
  )

  pub emplace_new : (k : K) (v : V) (m : Map K V) → find k m ≡ none → emplace k v m ≡ insert k v m
  unfolding emplace
  emplace_new k v m h = rw (h, emplace)

  Above-trans : (a b : K) (m : Map K V) → o.lt a b ≡ true → Above b m → Above a m
  Above-trans a b [] h u = tt
  Above-trans a b ((j, v) ∷ m) h (p, u) = (o.lt_trans a b j h p, Above-trans a b m h u)

  insert-Above :
      (a k : K) (v : V) (m : Map K V) → o.lt a k ≡ true → Above a m → Above a (insert k v m)
  unfolding insert
  insert-Above a k v [] h u = (h, tt)
  insert-Above a k v ((j, w) ∷ m) h u = ground (arith, insert-Above a k v m h u.1)

  pub insert-IsSorted : (k : K) (v : V) (m : Map K V) → IsSorted m → IsSorted (insert k v m)
  unfolding insert
  insert-IsSorted k v [] s = (tt, tt)
  insert-IsSorted k v ((j, w) ∷ m) s =
      ground
        (arith, insert-IsSorted k v m s.1, insert-Above j k v m, Above-trans k j m, o.lt_tri k j)

  erase-Above : (a k : K) (m : Map K V) → Above a m → Above a (erase k m)
  unfolding erase
  erase-Above a k [] u = tt
  erase-Above a k ((j, w) ∷ m) u = ground (arith, erase-Above a k m u.1)

  pub erase-IsSorted : (k : K) (m : Map K V) → IsSorted m → IsSorted (erase k m)
  unfolding erase
  erase-IsSorted k [] s = tt
  erase-IsSorted k ((j, w) ∷ m) s = ground (arith, erase-IsSorted k m s.1, erase-Above j k m s.0)

  find-Above : (k : K) (m : Map K V) → Above k m → find k m ≡ none
  unfolding find
  find-Above k [] u = refl
  find-Above k ((j, w) ∷ m) u = ground (arith, lt-same k j u.0, find-Above k m u.1)

  -- An entry after the first is found past it.
  pub find-tail :
      (j k : K) (v w : V) (m : Map K V)
      → Above j m
      → find k m ≡ some w
      → find k ((j, v) ∷ m) ≡ some w
  unfolding find
  find-tail j k v w m a e = ground (arith, find-Above k m, same-eq k j, e)

  pub length-insert_new :
      (k : K) (v : V) (m : Map K V) → find k m ≡ none → length (insert k v m) ≡ suc (length m)
  unfolding find insert
  length-insert_new k v [] h = refl
  length-insert_new k v ((j, w) ∷ m) h =
      ground (arith, length-insert_new k v m, o.lt_tri k j, same_of_eq k j)

  pub length-insert_old :
      (k : K) (v w : V) (m : Map K V)
      → IsSorted m
      → find k m ≡ some w
      → length (insert k v m) ≡ length m
  unfolding find insert
  length-insert_old k v w [] s h = cc
  length-insert_old k v w ((j, x) ∷ m) s h = elim (Bool-cases (o.lt k j)) [
    | inl before ↦
        absurd (ground (arith, lt-same k j before, find-Above k m (Above-trans k j m before s.0)))
    | inr e ↦ rw e (elim (Bool-cases (o.lt j k)) [
      | inl after ↦ rw after (ground (arith, length-insert_old k v w m s.1, lt-same j k after))
      | inr f ↦ rw f refl
    ])
  ]

  pub erase-eq_of_none : (k : K) (m : Map K V) → find k m ≡ none → erase k m ≡ m
  unfolding find erase
  erase-eq_of_none k [] h = refl
  erase-eq_of_none k ((j, w) ∷ m) h = ground (arith, erase-eq_of_none k m)

  pub length-erase :
      (k : K) (w : V) (m : Map K V)
      → IsSorted m
      → find k m ≡ some w
      → length m ≡ suc (length (erase k m))
  unfolding find erase
  length-erase k w [] s h = cc
  length-erase k w ((j, x) ∷ m) s h =
      ground (arith, length-erase k w m s.1, erase-eq_of_none k m, find-Above k m, same-eq k j)

  pub find-update_at :
      (j k : K) (f : V → V) (m : Map K V)
      → find j (update_at k f m) ≡ (if same j k then Option.map f (find j m) else find j m)
  unfolding update_at
  find-update_at j k f m = elim (Option-cases (find k m)) [
    | inl e ↦ rw (e, update_at) (ground (arith, same-eq j k, e))
    | inr (v, e) ↦ rw (e, update_at) (ground (arith, find-insert j k (f v) m, same-eq j k, e))
  ]

  pub update_at-IsSorted :
      (k : K) (f : V → V) (m : Map K V) → IsSorted m → IsSorted (update_at k f m)
  unfolding update_at
  update_at-IsSorted k f m s = elim (Option-cases (find k m)) [
    | inl e ↦ rw (e, update_at) s
    | inr (v, e) ↦ rw (e, update_at) (insert-IsSorted k (f v) m s)
  ]

  pub length-update_at :
      (k : K) (f : V → V) (m : Map K V) → IsSorted m → length (update_at k f m) ≡ length m
  unfolding update_at
  length-update_at k f m s = elim (Option-cases (find k m)) [
    | inl e ↦ rw (e, update_at)
    | inr (v, e) ↦ rw (e, update_at) (length-insert_old k (f v) v m s e)
  ]

  pub find-map_values :
      (f : V → V) (k : K) (m : Map K V) → find k (map_values f m) ≡ Option.map f (find k m)
  unfolding find map_values
  find-map_values f k [] = refl
  find-map_values f k ((j, v) ∷ m) = ground (arith, find-map_values f k m)

  map_values-Above : (f : V → V) (k : K) (m : Map K V) → Above k m → Above k (map_values f m)
  unfolding map_values
  map_values-Above f k [] u = tt
  map_values-Above f k ((j, v) ∷ m) u = (u.0, map_values-Above f k m u.1)

  pub map_values-IsSorted : (f : V → V) (m : Map K V) → IsSorted m → IsSorted (map_values f m)
  unfolding map_values
  map_values-IsSorted f [] s = tt
  map_values-IsSorted f ((j, v) ∷ m) s = (map_values-Above f j m s.0, map_values-IsSorted f m s.1)

module _ {ℓ κ} {K : Type ℓ} {V : Type κ} where
  pub length-map_values : (f : V → V) (m : Map K V) → length (map_values f m) ≡ length m
  unfolding map_values
  length-map_values f [] = refl
  length-map_values f ((k, v) ∷ m) = ground (arith, length-map_values f m)
