-- ===== src/Exec/Comes.antt =====
-- Calls that throw and change nothing, or go on.
use bittorrent_peer_linking.Base.{◌≡◌, String, ◌⊎◌, inl, inr}
use bittorrent_peer_linking.Base.Results.{err}
use bittorrent_peer_linking.Exec.{Exec, pure, ◌>>=◌}

-- A call that throws and changes nothing, or goes on as another one, under a condition.
abbrev pub Comes : {S A : Type 0} → Exec S A → Exec S A → (S → Type 0) → Type 0
Comes {S} m k P = (w : S) → (P w × (m w ≡ k w)) ⊎ ((message : String) × (m w ≡ (err message, w)))

module _ {S A B : Type 0} where
  pub bind-Comes :
      (m : Exec S A) (f : A → Exec S B) (k : Exec S B) (a : A) (P Q : S → Type 0)
      → Comes m (pure a) P
      → Comes (f a) k Q
      → Comes (m >>= f) k (λ w. P w × Q w)
  bind-Comes m f k a P Q first rest w = elim (first w) [
    | inr (message, e) ↦ inr (message, rw e)
    | inl (p, e) ↦ elim (rest w) [
      | inr (message, e') ↦ inr (message, rw e e')
      | inl (q, e') ↦ inl ((p, q), rw e e')
    ]
  ]

  pub skip-Comes :
      (m : Exec S A) (f : A → Exec S B) (k : Exec S B) (a : A) (Q : S → Type 0)
      → Comes m (pure a) (λ w. Unit {0})
      → Comes (f a) k Q
      → Comes (m >>= f) k Q
  skip-Comes m f k a Q first rest w = elim (bind-Comes m f k a (λ v. Unit {0}) Q first rest w) [
    | inl ((_, q), e) ↦ inl (q, e)
    | inr thrown ↦ inr thrown
  ]
