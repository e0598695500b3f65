-- ===== src/Disk/Made.antt =====
-- The directories that `create_directories` makes.
use mathlib.Core.List.{append_assoc, append-nil}
use bittorrent_peer_linking.Base.{
  ◌≡◌, refl, sym, ap, ◌∙◌, String, Option, none, some, List, [], ◌∷◌, ◌++◌, push_back,
  push_back-append,
}
use bittorrent_peer_linking.Base.Results.{Result, ok, err_apart}
use bittorrent_peer_linking.Double.{Double}
use bittorrent_peer_linking.Paths.{Place}
use bittorrent_peer_linking.Exec.Respects.{bind-returns}
use bittorrent_peer_linking.Disk.{
  Host, World, Entry, Access, granted, refused, cut_short, directory, document, other_file, put,
  make_at, make_directory, make_directories, create_directories,
}
use bittorrent_peer_linking.Disk.Laws.{Later, same_entry, made, same_place_refl}

-- A directory stays one.
pub stays_directory :
    {D : Double} (a b : Option (Entry D)) → Later a b → a ≡ some directory → b ≡ some directory
stays_directory a b (same_entry e) h = e ∙ h
stays_directory a b (made f g) h = g

module _ {D : Double} (h : Host) where
  at-entry :
      (o : Option (Entry D)) (a : Access) (p : Place) (w : World D)
      → w.entry p ≡ o
      → (make_at h o a p w).0 ≡ ok tt
      → (make_at h o a p w).1.entry p ≡ some directory
  unfolding make_at put
  at-entry (some directory) a p w e done = e
  at-entry (some (document value)) a p w e done = absurd (err_apart (h.filesystem_error p) tt done)
  at-entry (some other_file) a p w e done = absurd (err_apart (h.filesystem_error p) tt done)
  at-entry none granted p w e done = rw (same_place_refl p)
  at-entry none refused p w e done = absurd (err_apart (h.filesystem_error p) tt done)
  at-entry none cut_short p w e done = absurd (err_apart (h.filesystem_error p) tt done)

  directories-entry :
      (p : Place) (names : List String) (w : World D)
      → w.entry p ≡ some directory
      → (make_directories h p names w).0 ≡ ok tt
      → (make_directories h p names w).1.entry (p ++ names) ≡ some directory
  unfolding make_directories make_directory
  directories-entry p [] w e done = ap w.entry (append-nil p) ∙ e
  directories-entry p (n ∷ names) w e done =
      let here = push_back p n in
      let (_, first, f) =
        bind-returns (make_directory h here) (λ _. make_directories h here names) w tt done in
      let outcome : Result (Unit {0}) × World D → Result (Unit {0}) = λ x. x.0 in
      let v = (make_directory h here w).1 in
      ap (λ (x : Result (Unit {0}) × World D). x.1.entry (p ++ (n ∷ names))) f
      ∙ ap (make_directories h here names v).1.entry
          (sym (append_assoc p (n ∷ []) names) ∙ ap (λ q. q ++ names) (sym (push_back-append p n)))
      ∙ directories-entry here names v
          (at-entry (w.entry here) (h.access w.ticks here) here w refl first)
          (sym (ap outcome f) ∙ done)

  -- A directory that was created is there, below a root that is one.
  pub create-entry :
      (p : Place) (w : World D)
      → w.entry [] ≡ some directory
      → (create_directories h p w).0 ≡ ok tt
      → (create_directories h p w).1.entry p ≡ some directory
  unfolding create_directories
  create-entry p w root done = directories-entry [] p w root done
