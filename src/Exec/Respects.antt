-- ===== src/Exec/Respects.antt =====
-- Calls that relate the state before to the state after, by any relation that composes, whether
-- they return or throw.
use bittorrent_peer_linking.Base.{String, ◌≡◌, refl}
use bittorrent_peer_linking.Base.Results.{Result, ok, err}
use bittorrent_peer_linking.Exec.{Exec, continue, handle, try_catch, ◌>>=◌}

pub record Relation {ℓ} (S : Type ℓ) : Type (ℓ + 1) where
  pub Leads : S → S → Type ℓ
  pub stays : (s : S) → Leads s s
  pub chains : (s t u : S) → Leads s t → Leads t u → Leads s u

abbrev pub Respects {ℓ} : {S A : Type ℓ} → Relation S → Exec S A → Type ℓ
Respects {S} R m = (s : S) → R.Leads s (m s).1

module _ {ℓ} {S A B : Type ℓ} (R : Relation S) where
  continue-Respects :
      (r : Result A) (f : A → Exec S B) → ((a : A) → Respects R (f a)) → Respects R (continue r f)
  continue-Respects (ok a) f h = h a
  continue-Respects (err message) f h = R.stays

  pub bind-Respects :
      (m : Exec S A) (f : A → Exec S B)
      → Respects R m
      → ((a : A) → Respects R (f a))
      → Respects R (m >>= f)
  bind-Respects m f h k s = R.chains s (m s).1 _ (h s) (continue-Respects (m s).0 f k (m s).1)

module _ {ℓ} {S A : Type ℓ} (R : Relation S) where
  handle-Respects :
      (r : Result A) (recover : String → Exec S A)
      → ((message : String) → Respects R (recover message))
      → Respects R (handle r recover)
  handle-Respects (ok a) recover h = R.stays
  handle-Respects (err message) recover h = h message

  pub try_catch-Respects :
      (m : Exec S A) (recover : String → Exec S A)
      → Respects R m
      → ((message : String) → Respects R (recover message))
      → Respects R (try_catch m recover)
  try_catch-Respects m recover h k s =
      R.chains s (m s).1 _ (h s) (handle-Respects (m s).0 recover k (m s).1)

module _ {ℓ} {S A B : Type ℓ} where
  continue-returns :
      (r : Result A) (f : A → Exec S B) (s : S) (b : B)
      → (continue r f s).0 ≡ ok b
      → (a : A) × (r ≡ ok a) × (continue r f s ≡ f a s)
  continue-returns (ok a) f s b e = (a, refl, refl)
  continue-returns (err message) f s b e = absurd (cc e)

  -- A block that returns has run its first call to the end, and then the rest.
  pub bind-returns :
      (m : Exec S A) (f : A → Exec S B) (s : S) (b : B)
      → ((m >>= f) s).0 ≡ ok b
      → (a : A) × ((m s).0 ≡ ok a) × ((m >>= f) s ≡ f a (m s).1)
  bind-returns m f s b e = continue-returns (m s).0 f (m s).1 b e
