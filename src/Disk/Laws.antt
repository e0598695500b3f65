-- ===== src/Disk/Laws.antt =====
-- What the calls on the disk leave as it was.
use bittorrent_peer_linking.Base.{
  ◌≡◌, refl, sym, ap, ◌∙◌, arith, Bool, true, false, String, str_eq_iff, Option, none, some, List,
  [], ◌∷◌, push_back, Bool-cases, inl, inr,
}
use bittorrent_peer_linking.Base.Results.{Result, ok}
use bittorrent_peer_linking.Double.{Double}
use bittorrent_peer_linking.Exec.Respects.{Relation, Respects, bind-Respects, bind-returns}
use bittorrent_peer_linking.Json.{Json, texts_of}
use bittorrent_peer_linking.Paths.{Place, same_place, parent_path}
use bittorrent_peer_linking.Disk.{
  Host, World, Entry, directory, document, other_file, granted, refused, cut_short, Access, make_at,
  store, store_dumped, write_at, put, make_directory, make_directories, create_directories,
  ensure_parent_directory, write_file, write_json_file, capture_timestamp,
}

pub same_place_refl : (p : Place) → same_place p p ≡ true
same_place_refl [] = refl
same_place_refl (n ∷ p) = ground (arith, str_eq_iff n n, same_place_refl p)

pub same_place-eq : (p q : Place) → same_place p q ≡ true → p ≡ q
same_place-eq [] [] h = refl
same_place-eq [] (m ∷ q) h = cc
same_place-eq (n ∷ p) [] h = cc
same_place-eq (n ∷ p) (m ∷ q) h = ground (arith, str_eq_iff n m, same_place-eq p q)

-- An entry after some calls: the same, or a directory where there was nothing.
pub data Later {D : Double} (before after : Option (Entry D)) : Type 0 where
  same_entry : after ≡ before → Later before after
  made : before ≡ none → after ≡ some directory → Later before after

pub Later_trans : {D : Double} (a b c : Option (Entry D)) → Later a b → Later b c → Later a c
Later_trans a b c (same_entry e) (same_entry f) = same_entry (f ∙ e)
Later_trans a b c (same_entry e) (made f g) = made (sym e ∙ f) g
Later_trans a b c (made e f) (same_entry g) = made e (g ∙ f)
Later_trans a b c (made e f) (made g k) = made e k

-- Outside the places that may be touched, entries stay, and at most directories are added; nothing
-- is sent.
pub record Spares {D : Double} (touched : Place → Bool) (w w' : World D) : Type 0 where
  pub kept : (q : Place) → touched q ≡ false → Later (w.entry q) (w'.entry q)
  pub unsent : w'.requests ≡ w.requests

pub widen-Spares :
    {D : Double} (t t' : Place → Bool) (w w' : World D)
    → ((q : Place) → t' q ≡ false → t q ≡ false)
    → Spares t w w'
    → Spares t' w w'
widen-Spares t t' w w' f s = record { kept = λ q h. s.kept q (f q h); unsent = s.unsent }

abbrev pub sparing : (D : Double) → (Place → Bool) → Relation (World D)
sparing D t = record {
  Leads = Spares t;
  stays = λ w. record { kept = λ q h. same_entry refl; unsent = refl };
  chains = λ u v w a b. record {
    kept = λ q h. Later_trans (u.entry q) (v.entry q) (w.entry q) (a.kept q h) (b.kept q h);
    unsent = b.unsent ∙ a.unsent;
  };
}

module _ {D : Double} where
  pub put-Spares : (p : Place) (w : World D) (e : Entry D) → Spares (same_place p) w (put w p e)
  unfolding put
  put-Spares p w e = record { kept = λ q h. same_entry (rw h); unsent = refl }

  -- A new directory hides nothing.
  make-Spares :
      (t : Place → Bool) (q : Place) (w : World D)
      → w.entry q ≡ none
      → Spares t w (put w q directory)
  unfolding put
  make-Spares t q w free = record {
    kept = λ r h. elim (Bool-cases (same_place q r)) [
      | inr other ↦ same_entry (rw other)
      | inl hit ↦ made (sym (ap w.entry (same_place-eq q r hit)) ∙ free) (rw hit)
    ];
    unsent = refl;
  }

module _ {D : Double} (h : Host) where
  at-Spares :
      (o : Option (Entry D)) (a : Access) (t : Place → Bool) (q : Place) (w : World D)
      → w.entry q ≡ o
      → Spares t w (make_at h o a q w).1
  unfolding make_at
  at-Spares (some directory) a t q w e = (sparing D t).stays w
  at-Spares (some (document value)) a t q w e = (sparing D t).stays w
  at-Spares (some other_file) a t q w e = (sparing D t).stays w
  at-Spares none granted t q w e = make-Spares t q w e
  at-Spares none refused t q w e = (sparing D t).stays w
  at-Spares none cut_short t q w e = (sparing D t).stays w

  directory-Spares : (t : Place → Bool) (q : Place) → Respects (sparing D t) (make_directory h q)
  unfolding make_directory
  directory-Spares t q w = at-Spares (w.entry q) (h.access w.ticks q) t q w refl

  directories-Spares :
      (t : Place → Bool) (q : Place) (names : List String)
      → Respects (sparing D t) (make_directories h q names)
  unfolding make_directories
  directories-Spares t q [] w = (sparing D t).stays w
  directories-Spares t q (n ∷ names) w =
      bind-Respects (sparing D t) (make_directory h (push_back q n))
        (λ _. make_directories h (push_back q n) names) (directory-Spares t (push_back q n))
        (λ _. directories-Spares t (push_back q n) names) w

  pub create-Spares :
      (t : Place → Bool) (q : Place) → Respects (sparing D t) (create_directories h q)
  unfolding create_directories
  create-Spares t q = directories-Spares t [] q

  store-Spares :
      (a : Access) (thrown : Option String) (p : Place) (value : Json D)
      (unopened unwritten : String)
      → Respects (sparing D (same_place p)) (store h a thrown p value unopened unwritten)
  unfolding store
  store-Spares refused thrown p value unopened unwritten w = (sparing D (same_place p)).stays w
  store-Spares granted none p value unopened unwritten w = put-Spares p w (document value)
  store-Spares granted (some message) p value unopened unwritten w = put-Spares p w other_file
  store-Spares cut_short none p value unopened unwritten w = put-Spares p w other_file
  store-Spares cut_short (some message) p value unopened unwritten w = put-Spares p w other_file

  dumped-Spares :
      (p : Place) (value : Json D) (unopened unwritten : String)
      → Respects (sparing D (same_place p)) (store_dumped h p value unopened unwritten)
  unfolding store_dumped
  dumped-Spares p value unopened unwritten w =
      store-Spares (h.access w.ticks p) (h.dump_error (texts_of value)) p value unopened unwritten w

  write_at-Spares :
      (o : Option (Entry D)) (p : Place) (value : Json D) (unopened unwritten : String)
      → Respects (sparing D (same_place p)) (write_at h o p value unopened unwritten)
  unfolding write_at
  write_at-Spares (some directory) p value unopened unwritten = (sparing D (same_place p)).stays
  write_at-Spares (some (document old)) p value unopened unwritten =
      dumped-Spares p value unopened unwritten
  write_at-Spares (some other_file) p value unopened unwritten =
      dumped-Spares p value unopened unwritten
  write_at-Spares none p value unopened unwritten = dumped-Spares p value unopened unwritten

  pub write_file-Spares :
      (p : Place) (value : Json D) (unopened unwritten : String)
      → Respects (sparing D (same_place p)) (write_file h p value unopened unwritten)
  unfolding write_file
  write_file-Spares p value unopened unwritten w =
      write_at-Spares (w.entry p) p value unopened unwritten w

  pub write_json-Spares :
      (p : Place) (value : Json D) → Respects (sparing D (same_place p)) (write_json_file h p value)
  unfolding write_json_file ensure_parent_directory write_file
  write_json-Spares p value =
      bind-Respects (sparing D (same_place p)) (ensure_parent_directory h p) _
        (create-Spares (same_place p) (parent_path p)) (λ _. write_file-Spares p value _ _)

  pub timestamp-Spares : (t : Place → Bool) → Respects (sparing D t) (capture_timestamp h)
  unfolding capture_timestamp
  timestamp-Spares t w = record { kept = λ q e. same_entry refl; unsent = refl }

  store-entry :
      (a : Access) (thrown : Option String) (p : Place) (value : Json D)
      (unopened unwritten : String) (w : World D)
      → (store h a thrown p value unopened unwritten w).0 ≡ ok tt
      → (store h a thrown p value unopened unwritten w).1.entry p ≡ some (document value)
  unfolding store put
  store-entry refused thrown p value unopened unwritten w done = absurd (cc done)
  store-entry granted none p value unopened unwritten w done = rw (same_place_refl p)
  store-entry granted (some message) p value unopened unwritten w done = absurd (cc done)
  store-entry cut_short none p value unopened unwritten w done = absurd (cc done)
  store-entry cut_short (some message) p value unopened unwritten w done = absurd (cc done)

  dumped-entry :
      (p : Place) (value : Json D) (unopened unwritten : String) (w : World D)
      → (store_dumped h p value unopened unwritten w).0 ≡ ok tt
      → (store_dumped h p value unopened unwritten w).1.entry p ≡ some (document value)
  unfolding store_dumped
  dumped-entry p value unopened unwritten w done =
      store-entry (h.access w.ticks p) (h.dump_error (texts_of value)) p value unopened unwritten w
        done

  write_at-entry :
      (o : Option (Entry D)) (p : Place) (value : Json D) (unopened unwritten : String)
      (w : World D)
      → (write_at h o p value unopened unwritten w).0 ≡ ok tt
      → (write_at h o p value unopened unwritten w).1.entry p ≡ some (document value)
  unfolding write_at
  write_at-entry (some directory) p value unopened unwritten w done = absurd (cc done)
  write_at-entry (some (document old)) p value unopened unwritten w done =
      dumped-entry p value unopened unwritten w done
  write_at-entry (some other_file) p value unopened unwritten w done =
      dumped-entry p value unopened unwritten w done
  write_at-entry none p value unopened unwritten w done =
      dumped-entry p value unopened unwritten w done

  -- A write that succeeds leaves the value.
  pub write_file-entry :
      (p : Place) (value : Json D) (unopened unwritten : String) (w : World D)
      → (write_file h p value unopened unwritten w).0 ≡ ok tt
      → (write_file h p value unopened unwritten w).1.entry p ≡ some (document value)
  unfolding write_file
  write_file-entry p value unopened unwritten w =
      write_at-entry (w.entry p) p value unopened unwritten w

  -- A write that succeeds leaves the value.
  pub write_json-entry :
      (p : Place) (value : Json D) (w : World D)
      → (write_json_file h p value w).0 ≡ ok tt
      → (write_json_file h p value w).1.entry p ≡ some (document value)
  unfolding write_json_file write_file
  write_json-entry p value w done =
      let opened : String = "failed to open JSON output at " in
      let written : String = "failed to write JSON output at " in
      let (_, _, e) =
        bind-returns (ensure_parent_directory h p) (λ _. write_file h p value opened written) w tt
          done in
      let v = (ensure_parent_directory h p w).1 in
      ap (λ (r : Result (Unit {0}) × World D). r.1.entry p) e
      ∙ write_at-entry (v.entry p) p value opened written v
          (sym (ap (λ (r : Result (Unit {0}) × World D). r.0) e) ∙ done)
