-- ===== src/Artifacts/Order.antt =====
-- The order in which `find_pending_artifact_sessions` of src/artifact_lifecycle.cpp answers.
use mathlib.Core.Path.{subst}
use mathlib.Core.Bool.{Bool-set}
use mathlib.Core.HLevel.{hedberg}
use mathlib.Core.Logic.Or
use mathlib.Core.List.{Mem, Perm, mem-cons, mem-cons_self, not-mem-nil}
use mathlib.Core.List.Perm
use bittorrent_peer_linking.Base.{
  ◌≡◌, ◌≢◌, refl, sym, ap, ◌∙◌, true, false, String, List, [], ◌∷◌, Bool-cases, inl, inr, str_eq,
  str_eq_iff, str_lt,
}
use bittorrent_peer_linking.Keys.{str_lt_irrefl, str_lt_trans, str_lt_tri}
use bittorrent_peer_linking.Paths.{filename}
use bittorrent_peer_linking.Artifacts.Pending.{
  PendingArtifactSession, session_lt, insert_session, sort_sessions,
}

-- The name of the session's directory.
abbrev pub dir_name : PendingArtifactSession → String
dir_name s = filename s.output_paths.artifact_dir

abbrev pub All : (PendingArtifactSession → Type 0) → List PendingArtifactSession → Type 0
All P [] = Unit {0}
All P (s ∷ sessions) = P s × All P sessions

-- No two directories have the same name.
abbrev pub AreDistinct : List PendingArtifactSession → Type 0
AreDistinct [] = Unit {0}
AreDistinct (s ∷ sessions) = All (λ t. dir_name s ≢ dir_name t) sessions × AreDistinct sessions

-- The names of the directories ascend, by the codes of their characters.
abbrev pub Ascends : List PendingArtifactSession → Type 0
Ascends [] = Unit {0}
Ascends (s ∷ sessions) =
    All (λ t. str_lt (dir_name s) (dir_name t) ≡ true) sessions × Ascends sessions

true_apart : true ≡ false → ⊥
true_apart e = cc e

map-All :
    (P Q : PendingArtifactSession → Type 0) (l : List PendingArtifactSession)
    → ((t : PendingArtifactSession) → P t → Q t)
    → All P l
    → All Q l
map-All P Q [] f h = tt
map-All P Q (t ∷ l) f (p, h) = (f t p, map-All P Q l f h)

insert-All :
    (P : PendingArtifactSession → Type 0) (s : PendingArtifactSession)
    (l : List PendingArtifactSession)
    → P s
    → All P l
    → All P (insert_session s l)
unfolding insert_session
insert-All P s [] p h = (p, tt)
insert-All P s (t ∷ l) p (q, h) = elim (Bool-cases (session_lt t s)) [
  | inl e ↦ rw e (q, insert-All P s l p h)
  | inr e ↦ rw e (p, (q, h))
]

sort-All :
    (P : PendingArtifactSession → Type 0) (l : List PendingArtifactSession)
    → All P l
    → All P (sort_sessions l)
unfolding sort_sessions
sort-All P [] h = tt
sort-All P (s ∷ l) (p, h) = insert-All P s (sort_sessions l) p (sort-All P l h)

-- Of two different names that are not in one order, the other is so.
other_order : (m n : String) → m ≢ n → str_lt n m ≡ false → str_lt m n ≡ true
other_order m n differ e = elim (Bool-cases (str_lt m n)) [
  | inl h ↦ h
  | inr h ↦ absurd (differ (str_lt_tri m n h e))
]

insert-Ascends :
    (s : PendingArtifactSession) (l : List PendingArtifactSession)
    → All (λ t. dir_name s ≢ dir_name t) l
    → Ascends l
    → Ascends (insert_session s l)
unfolding insert_session session_lt
insert-Ascends s [] differ h = (tt, tt)
insert-Ascends s (t ∷ l) (d, differ) (least, h) = elim (Bool-cases (session_lt t s)) [
  | inl e ↦ rw e (
    insert-All (λ u. str_lt (dir_name t) (dir_name u) ≡ true) s l e least,
    insert-Ascends s l differ h,
  )
  | inr e ↦
      let below = other_order (dir_name s) (dir_name t) d e in
      rw e (
        (
          below,
          map-All _ _ l (λ u. str_lt_trans (dir_name s) (dir_name t) (dir_name u) below) least,
        ),
        (least, h),
      )
]

sort-Ascends : (l : List PendingArtifactSession) → AreDistinct l → Ascends (sort_sessions l)
unfolding sort_sessions
sort-Ascends [] differ = tt
sort-Ascends (s ∷ l) (d, differ) =
    insert-Ascends s (sort_sessions l) (sort-All _ l d) (sort-Ascends l differ)

insert-Perm :
    (s : PendingArtifactSession) (l : List PendingArtifactSession)
    → Perm (s ∷ l) (insert_session s l)
unfolding insert_session
insert-Perm s [] = Perm.refl (s ∷ [])
insert-Perm s (t ∷ rest) = elim (Bool-cases (session_lt t s)) [
  | inl e ↦ rw e (Perm.trans (Perm.swap t s rest) (Perm.cons t (insert-Perm s rest)))
  | inr e ↦ rw e (Perm.refl (s ∷ t ∷ rest))
]

pub sort-Perm : (l : List PendingArtifactSession) → Perm l (sort_sessions l)
unfolding sort_sessions
sort-Perm [] = Perm.refl []
sort-Perm (s ∷ l) = Perm.trans (Perm.cons s (sort-Perm l)) (insert-Perm s (sort_sessions l))

String-discrete : Discrete String
String-discrete s t = elim (Bool-cases (str_eq s t)) [
  | inl e ↦ yes ((str_eq_iff s t).0 e)
  | inr e ↦ no (λ p. true_apart (sym ((str_eq_iff s t).1 p) ∙ e))
]

PendingArtifactSession-set : IsSet PendingArtifactSession
PendingArtifactSession-set = hlevel (hedberg String-discrete)

later_name :
    (s t : PendingArtifactSession) (l : List PendingArtifactSession)
    → All (λ u. str_lt (dir_name s) (dir_name u) ≡ true) l
    → Mem t l
    → str_lt (dir_name s) (dir_name t) ≡ true
later_name s t [] h m = absurd (not-mem-nil m)
later_name s t (u ∷ l) (p, h) m =
    Or.elim (Bool-set _ _) (mem-cons.0 m) (λ e. rw e p) (later_name s t l h)

-- Two arrangements of the same sessions that ascend begin with the same one.
same_first :
    (s t : PendingArtifactSession) (l m : List PendingArtifactSession)
    → Perm (s ∷ l) (t ∷ m)
    → Ascends (s ∷ l)
    → Ascends (t ∷ m)
    → s ≡ t
same_first s t l m p (a, _) (b, _) =
    let prop = PendingArtifactSession-set s t in
    Or.elim prop (mem-cons.0 ((Perm.mem_iff p).0 mem-cons_self)) (λ e. e)
      (λ in_m.
        Or.elim prop (mem-cons.0 ((Perm.mem_iff p).1 mem-cons_self)) (λ e. sym e)
          (λ in_l. absurd (
            true_apart (
              sym (
                str_lt_trans (dir_name s) (dir_name t) (dir_name s) (later_name s t l a in_l)
                  (later_name t s m b in_m))
              ∙ str_lt_irrefl (dir_name s)))))

one_arrangement : (l m : List PendingArtifactSession) → Perm l m → Ascends l → Ascends m → l ≡ m
one_arrangement [] [] p a b = refl
one_arrangement [] (t ∷ m) p a b = absurd (not-mem-nil ((Perm.mem_iff p).1 mem-cons_self))
one_arrangement (s ∷ l) [] p a b = absurd (not-mem-nil ((Perm.mem_iff p).0 mem-cons_self))
one_arrangement (s ∷ l) (t ∷ m) p a b =
    let e = same_first s t l m p a b in
    let rest = Perm.cons_inv (subst (λ u. Perm (s ∷ l) (u ∷ m)) (sym e) p) in
    ap (λ u. u ∷ l) e ∙ ap (λ r. t ∷ r) (one_arrangement l m rest a.1 b.1)

-- For sessions whose directories have different names, the answer is the collected sessions in some
-- order, the names of their directories ascend in it by the codes of their characters, and no other
-- arrangement of the sessions ascends, so that every algorithm of `std::sort` gives this answer.
pub sort-IsSorted :
    (sessions : List PendingArtifactSession)
    → AreDistinct sessions
    → Perm sessions (sort_sessions sessions)
      × Ascends (sort_sessions sessions)
      × ((other : List PendingArtifactSession)
          → Perm sessions other
          → Ascends other
          → other ≡ sort_sessions sessions)
sort-IsSorted sessions differ =
    let sorted = sort-Ascends sessions differ in
    (
      sort-Perm sessions,
      sorted,
      λ other p ascends.
          one_arrangement other (sort_sessions sessions)
            (Perm.trans (Perm.symm p) (sort-Perm sessions)) ascends sorted,
    )
