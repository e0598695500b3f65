-- ===== src/Exec/Gives.antt =====
-- What a call gives where it returns: a condition on its value and on the state after it, from one
-- on the state before.
use mathlib.Core.Path.{subst}
use bittorrent_peer_linking.Base.{◌≡◌, sym, ap, ◌∙◌}
use bittorrent_peer_linking.Base.Results.{Result, ok, ok_injective}
use bittorrent_peer_linking.Exec.{Exec, pure, ◌>>=◌}
use bittorrent_peer_linking.Exec.Respects.{bind-returns}

abbrev pub Gives : {S A : Type 0} → (S → Type 0) → Exec S A → (A → S → Type 0) → Type 0
Gives {S} {A} before m after = (s : S) (a : A) → before s → (m s).0 ≡ ok a → after a (m s).1

module _ {S A B : Type 0} where
  pub bind-Gives :
      (m : Exec S A) (f : A → Exec S B) (P : S → Type 0) (Q : A → S → Type 0) (R : B → S → Type 0)
      → Gives P m Q
      → ((a : A) → Gives (Q a) (f a) R)
      → Gives P (m >>= f) R
  bind-Gives m f P Q R g k s b p e =
      let (a, e1, go) = bind-returns m f s b e in
      let e2 = sym (ap (λ (x : Result B × S). x.0) go) ∙ e in
      subst (λ (x : Result B × S). R b x.1) (sym go) (k a (m s).1 b (g s a p e1) e2)

module _ {S A : Type 0} where
  pub pure-Gives :
      (a : A) (P : S → Type 0) (Q : A → S → Type 0) → ((s : S) → P s → Q a s) → Gives P (pure a) Q
  pure-Gives a P Q h s b p e = subst (λ c. Q c s) (ok_injective a b e) (h s p)
