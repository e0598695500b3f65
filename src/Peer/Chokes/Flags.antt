-- ===== src/Peer/Chokes/Flags.antt =====
-- How `update_from_snapshot` of src/peer_stats.cpp counts the transitions of a flag.
use bittorrent_peer_linking.Base.{
  ℕ, suc, ◌+◌, Bool, true, false, not, ◌&&◌, ◌≡◌, refl, arith, List, [], ◌∷◌, if◌then◌else◌,
}
use bittorrent_peer_linking.Util.{PeerFlag, has_flag, TimestampPair}
use bittorrent_peer_linking.Peer.History.{
  PeerCall, sees, identifies, connects, disconnects, sends_request, receives_block, times_out,
  drops, receives_request, uploads_block, snubs, unsnubs, snapshots, finishes_piece, resets,
  finalizes,
}

-- A flag as the snapshots see it, and how often it went up and down.
pub record Flag : Type 0 where
  pub known : Bool
  pub raised : Bool
  pub ups : ℕ
  pub downs : ℕ

-- How often the values of a flag, one for each snapshot, go up and down after the last one.
unfoldable pub rises : Bool → List Bool → ℕ
rises last [] = 0
rises false (true ∷ values) = suc (rises true values)
rises false (false ∷ values) = rises false values
rises true (now ∷ values) = rises now values

unfoldable pub falls : Bool → List Bool → ℕ
falls last [] = 0
falls true (false ∷ values) = suc (falls false values)
falls true (true ∷ values) = falls true values
falls false (now ∷ values) = falls now values

-- The first snapshot has none before it, and so is no transition.
unfoldable pub rises_of : List Bool → ℕ
rises_of [] = 0
rises_of (first ∷ values) = rises first values

unfoldable pub falls_of : List Bool → ℕ
falls_of [] = 0
falls_of (first ∷ values) = falls first values

-- The values of a flag in the snapshots of some calls.
unfoldable pub values_in : PeerFlag → List (TimestampPair × PeerCall) → List Bool
values_in flag [] = []
values_in flag ((ts, snapshots peer interval) ∷ calls) =
    has_flag peer.flags flag ∷ values_in flag calls
values_in flag ((ts, call) ∷ calls) = values_in flag calls

-- The flag after a snapshot in which it is `now`.
abbrev pub observed : Flag → Bool → Flag
observed f now = record {
  known = true;
  raised = now;
  ups = if f.known && not f.raised && now then suc f.ups else f.ups;
  downs = if f.known && f.raised && not now then suc f.downs else f.downs;
}

-- After some snapshots, with the flag's value in each.
unfoldable pub observed_all : Flag → List Bool → Flag
observed_all f [] = f
observed_all f (now ∷ values) = observed_all (observed f now) values

abbrev pub flag_with : Bool → Bool → ℕ → ℕ → Flag
flag_with known raised ups downs = record {
  known = known;
  raised = raised;
  ups = ups;
  downs = downs;
}

observed-counts :
    (raised : Bool) (ups downs : ℕ) (values : List Bool)
    → ((observed_all (flag_with true raised ups downs) values).ups ≡ ups + rises raised values)
      × ((observed_all (flag_with true raised ups downs) values).downs
          ≡ downs + falls raised values)
unfolding observed_all rises falls
observed-counts raised ups downs [] = (omega arith, omega arith)
observed-counts false ups downs (true ∷ values) =
    let (a, b) = observed-counts true (suc ups) downs values in (omega (arith, a), omega (arith, b))
observed-counts false ups downs (false ∷ values) = observed-counts false ups downs values
observed-counts true ups downs (true ∷ values) = observed-counts true ups downs values
observed-counts true ups downs (false ∷ values) =
    let (a, b) = observed-counts false ups (suc downs) values in
    (omega (arith, a), omega (arith, b))

-- Counted from a flag that is not known yet.
pub new-counts :
    (values : List Bool)
    → ((observed_all (flag_with false false 0 0) values).ups ≡ rises_of values)
      × ((observed_all (flag_with false false 0 0) values).downs ≡ falls_of values)
unfolding observed_all rises_of falls_of
new-counts [] = (refl, refl)
new-counts (first ∷ values) =
    let (a, b) = observed-counts first 0 0 values in (omega (arith, a), omega (arith, b))

-- What one call does to a flag.
abbrev pub advanced : PeerFlag → PeerCall → Flag → Flag
advanced flag (snapshots peer interval) f = observed f (has_flag peer.flags flag)
advanced flag call f = f

-- The flags after a call, by those before it.
abbrev pub both : PeerCall → Flag × Flag → Flag × Flag
both call f = (advanced PeerFlag.remote_choked call f.0, advanced PeerFlag.choked call f.1)

pub call-values :
    (flag : PeerFlag) (ts : TimestampPair) (call : PeerCall)
    (calls : List (TimestampPair × PeerCall)) (f : Flag)
    → observed_all f (values_in flag ((ts, call) ∷ calls))
      ≡ observed_all (advanced flag call f) (values_in flag calls)
unfolding values_in observed_all
call-values flag ts sees calls f = refl
call-values flag ts (identifies pid) calls f = refl
call-values flag ts (connects direction transport alert) calls f = refl
call-values flag ts disconnects calls f = refl
call-values flag ts (sends_request piece block) calls f = refl
call-values flag ts (receives_block piece block) calls f = refl
call-values flag ts (times_out piece block) calls f = refl
call-values flag ts (drops piece block) calls f = refl
call-values flag ts (receives_request request) calls f = refl
call-values flag ts (uploads_block piece block) calls f = refl
call-values flag ts snubs calls f = refl
call-values flag ts unsnubs calls f = refl
call-values flag ts (snapshots peer interval) calls f = refl
call-values flag ts finishes_piece calls f = refl
call-values flag ts resets calls f = refl
call-values flag ts finalizes calls f = refl
