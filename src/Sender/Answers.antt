-- ===== src/Sender/Answers.antt =====
-- The status line that the callbacks of src/artifact_sender.cpp keep.
use Prim.Native.String.append
use Prim.Native.Char.{code}
use bittorrent_peer_linking.Base.{
  ◌≡◌, refl, sym, ap, ◌∙◌, arith, Bool, true, false, ◌&&◌, ◌||◌, String, is_empty, starts_with,
  ◌<>◌, ◌==◌, List, [], ◌∷◌, ◌++◌, if◌then◌else◌, inl, inr, Bool-cases,
}
use bittorrent_peer_linking.Sender.{trim_http_line, capture_status_line, status_line_of}

-- Every character of the text is a line's end.
abbrev pub is_line_end : String → Bool
is_line_end String.[] = true
is_line_end (String.◌∷◌ c s) = (code c == 13 || code c == 10) && is_line_end s

-- The text stops at a line's end.
abbrev pub ends_line : String → Bool
ends_line String.[] = false
ends_line (String.◌∷◌ c s) = if is_empty s then (code c == 13 || code c == 10) else ends_line s

-- No line starts an answer.
abbrev pub no_answer : List String → Bool
no_answer [] = true
no_answer (line ∷ lines) = if starts_with line "HTTP/" then false else no_answer lines

true_apart : true ≡ false → ⊥
true_apart e = cc e

empty-eq : (s : String) → is_empty s ≡ true → s ≡ ""
empty-eq String.[] h = refl
empty-eq (String.◌∷◌ c s) h = absurd (cc h)

and_both : (a b : Bool) → (a && b) ≡ true → (a ≡ true) × (b ≡ true)
and_both true b h = (refl, h)
and_both false b h = absurd (cc h)

trim-splits :
    (s : String) → (tail : String) × (s ≡ trim_http_line s <> tail) × (is_line_end tail ≡ true)
unfolding trim_http_line
trim-splits String.[] = ("", refl, refl)
trim-splits (String.◌∷◌ c s) =
    let (tail, e, ends) = trim-splits s in
    elim (Bool-cases (is_empty (trim_http_line s) && (code c == 13 || code c == 10))) [
      | inr h ↦
          (tail, rw h (ap (String.◌∷◌ c) e ∙ sym (append.cons c (trim_http_line s) tail)), ends)
      | inl h ↦
          let (bare, stop) =
            and_both (is_empty (trim_http_line s)) (code c == 13 || code c == 10) h in
          (
            String.◌∷◌ c tail,
            rw h (
                ap (String.◌∷◌ c)
                  (e ∙ ap (λ t. t <> tail) (empty-eq (trim_http_line s) bare) ∙ append.nil tail)
                ∙ sym (append.nil (String.◌∷◌ c tail))),
            rw (stop, ends),
          )
    ]

trim-stops : (s : String) → ends_line (trim_http_line s) ≡ false
unfolding trim_http_line
trim-stops String.[] = refl
trim-stops (String.◌∷◌ c s) = ground (arith, trim-stops s)

later_lines :
    (status : String) (lines : List String)
    → no_answer lines ≡ true
    → status_line_of status lines ≡ status
unfolding status_line_of capture_status_line
later_lines status [] h = refl
later_lines status (line ∷ lines) h = elim (Bool-cases (starts_with line "HTTP/")) [
  | inl e ↦ absurd (true_apart (sym h ∙ rw e))
  | inr e ↦ rw e (later_lines status lines (sym (rw e) ∙ h))
]

capture-line :
    (status line : String)
    → starts_with line "HTTP/" ≡ true
    → capture_status_line status line ≡ trim_http_line line
unfolding capture_status_line
capture-line status line h = rw h

last-line :
    (status line : String) (before after : List String)
    → starts_with line "HTTP/" ≡ true
    → no_answer after ≡ true
    → status_line_of status (before ++ (line ∷ after)) ≡ trim_http_line line
unfolding status_line_of
last-line status line [] after h rest =
    later_lines (capture_status_line status line) after rest ∙ capture-line status line h
last-line status line (b ∷ before) after h rest =
    last-line (capture_status_line status b) line before after h rest

-- After the last header line that starts an answer, the status line is that line without the
-- characters that end it: what is left out are such characters alone, and the status line does not
-- stop at one.
pub status-last :
    (status line : String) (before after : List String)
    → starts_with line "HTTP/" ≡ true
    → no_answer after ≡ true
    → ((tail : String) × (line ≡ status_line_of status (before ++ (line ∷ after)) <> tail)
        × (is_line_end tail ≡ true))
      × (ends_line (status_line_of status (before ++ (line ∷ after))) ≡ false)
status-last status line before after h rest =
    rw (last-line status line before after h rest) (trim-splits line, trim-stops line)
