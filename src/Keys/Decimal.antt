-- ===== src/Keys/Decimal.antt =====
-- Decimal texts determine their number and hold no `#`.
use Prim.Native.String.{String}
use Prim.Native.Char.{code}
use text.Mathlib.TextEquality.{Char-path}
use text.Mathlib.TextLemmas.{nil-append, cons-append}
use native.Mathlib.Decide.{dec_lt}
use bittorrent_peer_linking.Base.{
  ℕ, zero, suc, ◌≡◌, ◌≢◌, ◌+◌, ◌-◌, ◌*◌, ◌/◌, ◌%◌, ◌<◌, refl, ap, sym, ◌∙◌, List, [], ◌∷◌, ◌++◌,
  arith, codes, decimal_rounds, digit_text, to_string, ◌<>◌, lt→ltb, le→ltb,
}

-- No character is `#`.
abbrev pub NoHash : List ℕ → Type 0
NoHash [] = Unit {0}
NoHash (c ∷ s) = (c ≢ b'#') × NoHash s

pub NoHash-append : (s t : List ℕ) → NoHash s → NoHash t → NoHash (s ++ t)
NoHash-append [] t a b = b
NoHash-append (c ∷ s) t a b = (a.0, NoHash-append s t a.1 b)

pub codes-append : (s t : String) → codes (s <> t) ≡ codes s ++ codes t
codes-append String.[] t = rw nil-append
codes-append (String.◌∷◌ c s) t = rw cons-append (cc (codes-append s t))

pub codes_inj : (s t : String) → codes s ≡ codes t → s ≡ t
codes_inj String.[] String.[] h = refl
codes_inj String.[] (String.◌∷◌ d t) h = cc
codes_inj (String.◌∷◌ c s) String.[] h = cc
codes_inj (String.◌∷◌ c s) (String.◌∷◌ d t) h =
    let same_code : code c ≡ code d = cc in
    let rest : s ≡ t = codes_inj s t (cc) in λ i. String.◌∷◌ (Char-path c d same_code i) (rest i)

-- The number that a text of digits stands for.
abbrev value_onto : ℕ → List ℕ → ℕ
value_onto n [] = n
value_onto n (c ∷ s) = value_onto (n * 10 + (c - b'0')) s

value_onto-append : (n : ℕ) (s t : List ℕ) → value_onto n (s ++ t) ≡ value_onto (value_onto n s) t
value_onto-append n [] t = refl
value_onto-append n (c ∷ s) t = value_onto-append (n * 10 + (c - b'0')) s t

codes-digit_text : (n : ℕ) → n < 10 → codes (digit_text n) ≡ (b'0' + n) ∷ []
codes-digit_text zero h = refl
codes-digit_text (suc zero) h = refl
codes-digit_text (suc (suc zero)) h = refl
codes-digit_text (suc (suc (suc zero))) h = refl
codes-digit_text (suc (suc (suc (suc zero)))) h = refl
codes-digit_text (suc (suc (suc (suc (suc zero))))) h = refl
codes-digit_text (suc (suc (suc (suc (suc (suc zero)))))) h = refl
codes-digit_text (suc (suc (suc (suc (suc (suc (suc zero))))))) h = refl
codes-digit_text (suc (suc (suc (suc (suc (suc (suc (suc zero)))))))) h = refl
codes-digit_text (suc (suc (suc (suc (suc (suc (suc (suc (suc n))))))))) h = ground (arith, nine n)
  where
    nine : (n : ℕ) → suc (suc (suc (suc (suc (suc (suc (suc (suc n)))))))) < 10 → n ≡ 0
    nine n h = omega arith

decimal_rounds_last :
    (f n : ℕ)
    → 9 < n
    → codes (decimal_rounds (suc f) n) ≡ codes (decimal_rounds f (n / 10)) ++ ((b'0' + n % 10) ∷ [])
unfolding decimal_rounds
decimal_rounds_last f n h =
    rw (le→ltb n 10 h, codes-append, codes-digit_text (n % 10) (omega arith))

decimal_rounds_first : (f n : ℕ) → n < 10 → codes (decimal_rounds (suc f) n) ≡ (b'0' + n) ∷ []
unfolding decimal_rounds
decimal_rounds_first f n h = rw (lt→ltb n 10 h) (codes-digit_text n h)

-- The digits of `n` read back as `n`, and none is `#`.
decimal_rounds_value :
    (f n : ℕ)
    → n < f
    → (value_onto 0 (codes (decimal_rounds f n)) ≡ n) × NoHash (codes (decimal_rounds f n))
decimal_rounds_value zero n h = absurd (omega arith)
decimal_rounds_value (suc f) n h = elim (dec_lt n 10) [
  | yes small ↦ rw (decimal_rounds_first f n small) (omega arith, (omega arith, tt))
  | no large ↦
      let ih = decimal_rounds_value f (n / 10) (omega arith) in
      rw (decimal_rounds_last f n (omega arith)) (
        rw (value_onto-append 0 (codes (decimal_rounds f (n / 10))), ih.0) (omega arith),
        NoHash-append (codes (decimal_rounds f (n / 10))) _ ih.1 (omega arith, tt),
      )
]

pub to_string-NoHash : (n : ℕ) → NoHash (codes (to_string n))
unfolding to_string
to_string-NoHash n = (decimal_rounds_value (suc n) n (omega arith)).1

pub to_string_inj : (m n : ℕ) → codes (to_string m) ≡ codes (to_string n) → m ≡ n
unfolding to_string
to_string_inj m n h =
    sym (decimal_rounds_value (suc m) m (omega arith)).0
    ∙ ap (value_onto 0) h
    ∙ (decimal_rounds_value (suc n) n (omega arith)).0
