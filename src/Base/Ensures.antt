-- ===== src/Base/Ensures.antt =====
-- Conditions on the value of a chain of steps that may fail.
use mathlib.Core.Path.{◌≡◌, refl, subst}
use mathlib.Core.Option.{Option, none, some, some-injective}
use bittorrent_peer_linking.Base.Options.{◌>>=◌}

-- The value, where there is one, meets the condition.
abbrev pub Ensures : {A : Type 0} → Option A → (A → Type 0) → Type 0
Ensures {A} x P = (a : A) → x ≡ some a → P a

pub some-Ensures : {A : Type 0} (P : A → Type 0) (a : A) → P a → Ensures (some a) P
some-Ensures P a p b e = subst P (some-injective a b e) p

pub bind-Ensures :
    {A B : Type 0} {P : B → Type 0} (x : Option A) (f : A → Option B)
    → ((a : A) → x ≡ some a → Ensures (f a) P)
    → Ensures (x >>= f) P
bind-Ensures none f h b e = absurd (cc e)
bind-Ensures (some a) f h b e = h a refl b e
