-- ===== src/Disk/Moves.antt =====
-- What the move of a directory does to the disk.
use bittorrent_peer_linking.Base.{
  ◌≡◌, refl, ap, ◌∙◌, arith, str_eq_iff, Option, none, some, [], ◌∷◌, ◌++◌,
}
use bittorrent_peer_linking.Base.Results.{ok}
use bittorrent_peer_linking.Double.{Double}
use bittorrent_peer_linking.Paths.{Place, below}
use bittorrent_peer_linking.Disk.{
  Host, World, Entry, Access, granted, refused, cut_short, after_move, rename, move_found,
}

pub below-append : (q names : Place) → below q (q ++ names) ≡ some names
unfolding below
below-append [] names = refl
below-append (n ∷ q) names = ground (arith, str_eq_iff n n, below-append q names)

module _ {D : Double} (h : Host) where
  found-moves :
      (o : Option (Entry D)) (a : Access) (p q names : Place) (w : World D)
      → (move_found h o a p q w).0 ≡ ok tt
      → (move_found h o a p q w).1.entry (q ++ names) ≡ w.entry (p ++ names)
  unfolding move_found after_move
  found-moves none a p q names w done = absurd (cc done)
  found-moves (some e) granted p q names w done =
      ap (λ o. after_move w p (q ++ names) o (below p (q ++ names))) (below-append q names)
  found-moves (some e) refused p q names w done = absurd (cc done)
  found-moves (some e) cut_short p q names w done = absurd (cc done)

  found-leaves :
      (o : Option (Entry D)) (a : Access) (p q names : Place) (w : World D)
      → below q (p ++ names) ≡ none
      → (move_found h o a p q w).0 ≡ ok tt
      → (move_found h o a p q w).1.entry (p ++ names) ≡ none
  unfolding move_found after_move
  found-leaves none a p q names w apart done = absurd (cc done)
  found-leaves (some e) granted p q names w apart done =
      ap (λ o. after_move w p (p ++ names) o (below p (p ++ names))) apart
      ∙ ap (λ o. after_move w p (p ++ names) none o) (below-append p names)
  found-leaves (some e) refused p q names w apart done = absurd (cc done)
  found-leaves (some e) cut_short p q names w apart done = absurd (cc done)

  found-unsent :
      (o : Option (Entry D)) (a : Access) (p q : Place) (w : World D)
      → (move_found h o a p q w).1.requests ≡ w.requests
  unfolding move_found
  found-unsent none a p q w = refl
  found-unsent (some e) granted p q w = refl
  found-unsent (some e) refused p q w = refl
  found-unsent (some e) cut_short p q w = refl

  module _ (p q : Place) (w : World D) where
    -- What was below the one place is below the other.
    pub rename-moves :
        (names : Place)
        → (rename h p q w).0 ≡ ok tt
        → (rename h p q w).1.entry (q ++ names) ≡ w.entry (p ++ names)
    unfolding rename
    rename-moves names done = found-moves (w.entry p) (h.access w.ticks q) p q names w done

    -- Nothing is left where it was.
    pub rename-leaves :
        (names : Place)
        → below q (p ++ names) ≡ none
        → (rename h p q w).0 ≡ ok tt
        → (rename h p q w).1.entry (p ++ names) ≡ none
    unfolding rename
    rename-leaves names apart done =
        found-leaves (w.entry p) (h.access w.ticks q) p q names w apart done

    pub rename-unsent : (rename h p q w).1.requests ≡ w.requests
    unfolding rename
    rename-unsent = found-unsent (w.entry p) (h.access w.ticks q) p q w
