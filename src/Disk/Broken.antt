-- ===== src/Disk/Broken.antt =====
-- What the calls on the disk leave of a file when they throw.
use bittorrent_peer_linking.Base.{
  ◌≡◌, refl, sym, ◌∙◌, false, String, Option, none, some, ◌⊎◌, inl, inr,
}
use bittorrent_peer_linking.Base.Results.{err, Result-cases}
use bittorrent_peer_linking.Double.{Double}
use bittorrent_peer_linking.Json.{Json, texts_of}
use bittorrent_peer_linking.Exec.{◌>>=◌}
use bittorrent_peer_linking.Exec.Respects.{Respects}
use bittorrent_peer_linking.Paths.{Place, parent_path}
use bittorrent_peer_linking.Disk.{
  Host, World, Io, Entry, Access, granted, refused, cut_short, directory, document, other_file, put,
  store, store_dumped, write_at, ensure_parent_directory, write_file, write_json_file,
}
use bittorrent_peer_linking.Disk.Laws.{
  Later, same_entry, made, Spares, sparing, same_place_refl, create-Spares,
}

some_apart : {A : Type 0} (a : A) → Option.some a ≡ none → ⊥
some_apart a e = cc e

module _ {D : Double} (h : Host) where
  -- What a write that throws leaves: the entry that was there, or a file that holds no JSON value.
  store-fails :
      (a : Access) (thrown : Option String) (p : Place) (value : Json D)
      (unopened unwritten message : String) (w : World D)
      → (store h a thrown p value unopened unwritten w).0 ≡ err message
      → ((store h a thrown p value unopened unwritten w).1.entry p ≡ w.entry p)
        ⊎ ((store h a thrown p value unopened unwritten w).1.entry p ≡ some other_file)
  unfolding store put
  store-fails refused thrown p value unopened unwritten message w done = inl refl
  store-fails granted none p value unopened unwritten message w done = absurd (cc done)
  store-fails granted (some _) p value unopened unwritten message w done =
      inr (rw (same_place_refl p))
  store-fails cut_short none p value unopened unwritten message w done =
      inr (rw (same_place_refl p))
  store-fails cut_short (some _) p value unopened unwritten message w done =
      inr (rw (same_place_refl p))

  dumped-fails :
      (p : Place) (value : Json D) (unopened unwritten message : String) (w : World D)
      → (store_dumped h p value unopened unwritten w).0 ≡ err message
      → ((store_dumped h p value unopened unwritten w).1.entry p ≡ w.entry p)
        ⊎ ((store_dumped h p value unopened unwritten w).1.entry p ≡ some other_file)
  unfolding store_dumped
  dumped-fails p value unopened unwritten message w done =
      store-fails (h.access w.ticks p) (h.dump_error (texts_of value)) p value unopened unwritten
        message w done

  write_at-fails :
      (o : Option (Entry D)) (p : Place) (value : Json D) (unopened unwritten message : String)
      (w : World D)
      → (write_at h o p value unopened unwritten w).0 ≡ err message
      → ((write_at h o p value unopened unwritten w).1.entry p ≡ w.entry p)
        ⊎ ((write_at h o p value unopened unwritten w).1.entry p ≡ some other_file)
  unfolding write_at
  write_at-fails (some directory) p value unopened unwritten message w done = inl refl
  write_at-fails (some (document old)) p value unopened unwritten message w done =
      dumped-fails p value unopened unwritten message w done
  write_at-fails (some other_file) p value unopened unwritten message w done =
      dumped-fails p value unopened unwritten message w done
  write_at-fails none p value unopened unwritten message w done =
      dumped-fails p value unopened unwritten message w done

  write_file-fails :
      (p : Place) (value : Json D) (unopened unwritten message : String) (w : World D)
      → (write_file h p value unopened unwritten w).0 ≡ err message
      → ((write_file h p value unopened unwritten w).1.entry p ≡ w.entry p)
        ⊎ ((write_file h p value unopened unwritten w).1.entry p ≡ some other_file)
  unfolding write_file
  write_file-fails p value unopened unwritten message w =
      write_at-fails (w.entry p) p value unopened unwritten message w

module _ {D : Double} where
  -- A value on the disk stays, where nothing is written.
  pub Later-some :
      (before after : Option (Entry D)) (entry : Entry D)
      → Later before after
      → before ≡ some entry
      → after ≡ some entry
  Later-some before after entry (same_entry e) h = e ∙ h
  Later-some before after entry (made e f) h = absurd (some_apart entry (sym h ∙ e))

  -- What was at the place is still there, or is a file that holds no JSON value.
  abbrev pub Remains : Place → World D → World D → Type 0
  Remains p w w' =
      (entry : Entry D)
      → w.entry p ≡ some entry
      → (w'.entry p ≡ some entry) ⊎ (w'.entry p ≡ some other_file)

  abbrev pub BreaksOff : {A : Type 0} → Place → Io D A → Type 0
  BreaksOff p m = (w : World D) (message : String) → (m w).0 ≡ err message → Remains p w (m w).1

  spared-Remains :
      (p : Place) (w w' : World D) (entry : Entry D)
      → Spares (λ q. false) w w'
      → w.entry p ≡ some entry
      → w'.entry p ≡ some entry
  spared-Remains p w w' entry spared there =
      Later-some (w.entry p) (w'.entry p) entry (spared.kept p refl) there

  -- Calls that write nothing, and then one that may break off.
  pub bind-BreaksOff :
      {A B : Type 0} (p : Place) (m : Io D A) (f : A → Io D B)
      → Respects (sparing D (λ q. false)) m
      → ((a : A) → BreaksOff p (f a))
      → BreaksOff p (m >>= f)
  bind-BreaksOff p m f spares later w message thrown entry there =
      let still = spared-Remains p w (m w).1 entry (spares w) there in
      elim (Result-cases (m w).0) [
        | inr (text, e) ↦ inl (rw e still)
        | inl (a, e) ↦ rw e (later a (m w).1 message (rw e at thrown) entry still)
      ]

  pub write_file-BreaksOff :
      (h : Host) (p : Place) (value : Json D) (unopened unwritten : String)
      → BreaksOff p (write_file h p value unopened unwritten)
  write_file-BreaksOff h p value unopened unwritten w message thrown entry there =
      elim (write_file-fails h p value unopened unwritten message w thrown) [
        | inl same ↦ inl (same ∙ there)
        | inr broken ↦ inr broken
      ]

  pub write_json-BreaksOff :
      (h : Host) (p : Place) (value : Json D) → BreaksOff p (write_json_file h p value)
  unfolding write_json_file ensure_parent_directory
  write_json-BreaksOff h p value =
      bind-BreaksOff p (ensure_parent_directory h p) _
        (create-Spares h (λ q. false) (parent_path p)) (λ _. write_file-BreaksOff h p value _ _)
