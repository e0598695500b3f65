-- ===== src/Keys.antt =====
-- The keys of the program's maps: texts in the order of `std::string`, and the peer keys
-- `<endpoint>#<sequence>` of src/peer_stats.cpp.
mod Decimal
use Prim.Native.String.{String}
use Prim.Native.Char.{code}
use text.Mathlib.TextEquality.{Char-path}
use bittorrent_peer_linking.Base.{
  ℕ, suc, ◌≡◌, refl, ap, sym, ◌∙◌, true, false, not, List, [], ◌∷◌, ◌++◌, arith, codes, str_lt,
  to_string, ◌<>◌, ℤ, ltb_ℤ, eq_of_parts,
}
use bittorrent_peer_linking.Map.{Ord}
use Decimal.{NoHash, to_string-NoHash, to_string_inj, codes-append, codes_inj}

pub str_lt_irrefl : (s : String) → str_lt s s ≡ false
unfolding str_lt
str_lt_irrefl String.[] = refl
str_lt_irrefl (String.◌∷◌ c s) = ground (arith, str_lt_irrefl s)

pub str_lt_trans : (s t u : String) → str_lt s t ≡ true → str_lt t u ≡ true → str_lt s u ≡ true
unfolding str_lt
str_lt_trans String.[] String.[] u h k = cc
str_lt_trans String.[] (String.◌∷◌ d t) String.[] h k = cc
str_lt_trans String.[] (String.◌∷◌ d t) (String.◌∷◌ e u) h k = refl
str_lt_trans (String.◌∷◌ c s) String.[] u h k = cc
str_lt_trans (String.◌∷◌ c s) (String.◌∷◌ d t) String.[] h k = cc
str_lt_trans (String.◌∷◌ c s) (String.◌∷◌ d t) (String.◌∷◌ e u) h k =
    ground (arith, str_lt_trans s t u)

pub str_lt_tri : (s t : String) → str_lt s t ≡ false → str_lt t s ≡ false → s ≡ t
unfolding str_lt
str_lt_tri String.[] String.[] h k = refl
str_lt_tri String.[] (String.◌∷◌ d t) h k = cc
str_lt_tri (String.◌∷◌ c s) String.[] h k = cc
str_lt_tri (String.◌∷◌ c s) (String.◌∷◌ d t) h k =
    let same_code : code c ≡ code d = ground arith in
    let rest : s ≡ t = ground (arith, str_lt_tri s t) in
    λ i. String.◌∷◌ (Char-path c d same_code i) (rest i)

instance abbrev pub string_ord : Ord String
string_ord = record {
  lt = str_lt;
  lt_irrefl = str_lt_irrefl;
  lt_trans = str_lt_trans;
  lt_tri = str_lt_tri;
}

-- The keys of the map from piece indices.
pub ltb_ℤ_irrefl : (a : ℤ) → ltb_ℤ a a ≡ false
ltb_ℤ_irrefl a = ground arith

pub ltb_ℤ_trans : (a b c : ℤ) → ltb_ℤ a b ≡ true → ltb_ℤ b c ≡ true → ltb_ℤ a c ≡ true
ltb_ℤ_trans a b c h k = ground arith

pub ltb_ℤ_tri : (a b : ℤ) → ltb_ℤ a b ≡ false → ltb_ℤ b a ≡ false → a ≡ b
ltb_ℤ_tri a b h k = eq_of_parts a b (ground arith)

instance abbrev pub int_ord : Ord ℤ
int_ord = record {
  lt = ltb_ℤ;
  lt_irrefl = ltb_ℤ_irrefl;
  lt_trans = ltb_ℤ_trans;
  lt_tri = ltb_ℤ_tri;
}

-- `endpoint_key + "#" + std::to_string(sequence)`
unfoldable pub peer_key_for : String → ℕ → String
peer_key_for endpoint sequence = endpoint <> ("#" <> to_string sequence)

-- A text with no `#` is no text that holds one.
not_hash : (ds ys es : List ℕ) → NoHash ds → ds ≡ ys ++ (b'#' ∷ es) → ⊥
not_hash [] [] es n h = cc
not_hash [] (y ∷ ys) es n h = cc
not_hash (d ∷ ds) [] es n h = n.0 (cc)
not_hash (d ∷ ds) (y ∷ ys) es n h = not_hash ds ys es n.1 (cc)

split_hash :
    (xs ys ds es : List ℕ)
    → NoHash ds
    → NoHash es
    → xs ++ (b'#' ∷ ds) ≡ ys ++ (b'#' ∷ es)
    → (xs ≡ ys) × (ds ≡ es)
split_hash [] [] ds es n m h = (refl, cc)
split_hash [] (y ∷ ys) ds es n m h = absurd (not_hash ds ys es n (cc))
split_hash (x ∷ xs) [] ds es n m h = absurd (not_hash es xs ds m (cc))
split_hash (x ∷ xs) (y ∷ ys) ds es n m h = ground (arith, split_hash xs ys ds es n m)

hash_codes :
    (d : String) (m : ℕ)
    → codes (d <> ("#" <> to_string m)) ≡ codes d ++ (b'#' ∷ codes (to_string m))
hash_codes d m = codes-append d _ ∙ ap (◌++◌ (codes d)) (codes-append "#" (to_string m))

codes_path :
    (d e : String) (m n : ℕ)
    → d <> ("#" <> to_string m) ≡ e <> ("#" <> to_string n)
    → codes d ++ (b'#' ∷ codes (to_string m)) ≡ codes e ++ (b'#' ∷ codes (to_string n))
codes_path d e m n h = sym (hash_codes d m) ∙ ap codes h ∙ hash_codes e n

-- Two peer keys are equal only if the endpoints and the sequence numbers are.
pub peer_key_for_inj :
    (d e : String) (m n : ℕ) → peer_key_for d m ≡ peer_key_for e n → (d ≡ e) × (m ≡ n)
unfolding peer_key_for
peer_key_for_inj d e m n h =
    let parts =
      split_hash (codes d) (codes e) (codes (to_string m)) (codes (to_string n))
        (to_string-NoHash m) (to_string-NoHash n) (codes_path d e m n h) in
    (codes_inj d e parts.0, to_string_inj m n parts.1)
