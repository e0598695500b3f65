-- ===== src/Exec.antt =====
-- Calls that change a state and may throw. What was written before an exception stays written, so
-- the state comes back beside the exception too, which is the text of its `what()`.
pub mod Respects
pub mod Gives
pub mod Comes
use bittorrent_peer_linking.Base.Results.{Result, ok, err}
use bittorrent_peer_linking.Base.{String}

abbrev pub Exec {ℓ} : Type ℓ → Type ℓ → Type ℓ
Exec S A = S → Result A × S

module _ {ℓ} {S A : Type ℓ} where
  abbrev pub pure : A → Exec S A
  pure a s = (ok a, s)

  abbrev pub answer : Result A → Exec S A
  answer r s = (r, s)

  abbrev pub raise : String → Exec S A
  raise message s = (err message, s)

  -- A value that is read off the state.
  abbrev pub gets : (S → A) → Exec S A
  gets f s = (ok (f s), s)

  abbrev pub handle : Result A → (String → Exec S A) → Exec S A
  handle (ok a) recover s = (ok a, s)
  handle (err message) recover s = recover message s

  -- `try { m } catch (...) { recover }`
  abbrev pub try_catch : Exec S A → (String → Exec S A) → Exec S A
  try_catch m recover s = let (r, s') = m s in handle r recover s'

module _ {ℓ} {S A B : Type ℓ} where
  abbrev pub continue : Result A → (A → Exec S B) → Exec S B
  continue (ok a) f s = f a s
  continue (err message) f s = (err message, s)

  infixl 5 ◌>>=◌ ◌>>◌
  abbrev pub ◌>>=◌ : Exec S A → (A → Exec S B) → Exec S B
  ◌>>=◌ m f s = let (r, s') = m s in continue r f s'

  abbrev pub ◌>>◌ : Exec S A → Exec S B → Exec S B
  m >> n = m >>= λ _. n
