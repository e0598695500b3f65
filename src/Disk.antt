-- ===== src/Disk.antt =====
-- What the program uses of `std::filesystem`, of file streams, of the clock and of the network.
pub mod Laws
pub mod Moves
pub mod Made
pub mod Broken
use bittorrent_peer_linking.Base.{
  ℕ, suc, Bool, true, false, String, ◌<>◌, Option, none, some, List, [], ◌∷◌, ◌++◌, push_back,
  if◌then◌else◌,
}
use bittorrent_peer_linking.Base.Results.{Result, ok, err}
use bittorrent_peer_linking.Double.{Double}
use bittorrent_peer_linking.Exec.{Exec, pure, raise, ◌>>=◌, ◌>>◌}
use bittorrent_peer_linking.Json.{Json, texts_of}
use bittorrent_peer_linking.Paths.{Place, text_of, same_place, below, parent_path}
use bittorrent_peer_linking.Util.{TimestampPair}

-- A directory, a file that holds a JSON value, or a file that holds no JSON value.
pub data Entry (D : Double) : Type 0 where
  directory : Entry D
  document : Json D → Entry D
  other_file : Entry D

-- What an attempt to write a file meets: it succeeds, the file cannot be opened, or the write
-- breaks off.
pub data Access : Type 0 where
  granted refused cut_short : Access

-- The machine, which the program does not change: the working directory; how a directory is listed,
-- by which places are on the disk; the access that a place allows at a time, which is the number of
-- readings of the clock so far, so that of two writes of one file the later one may fail; the texts
-- of the library's exceptions; what `dump()` of nlohmann::json throws for the texts in a value, which
-- is `none` where all of them are UTF-8; and the clock.
pub record Host : Type 0 where
  pub working_dir : Place
  pub listing : (Place → Bool) → Place → List String
  pub access : ℕ → Place → Access
  pub filesystem_error : Place → String
  pub parse_error : String
  pub dump_error : List String → Option String
  pub clock : ℕ → TimestampPair

-- A POST of form fields and of files, as libcurl is asked for it.
pub record Request : Type 0 where
  pub url : String
  pub fields : List (String × String)
  pub files : List (String × Place)

-- What the program changes: the disk, the readings of the clock and the requests so far.
pub record World (D : Double) : Type 0 where
  pub entry : Place → Option (Entry D)
  pub ticks : ℕ
  pub requests : List Request

abbrev pub Io : Double → Type 0 → Type 0
Io D A = Exec (World D) A

module _ {D : Double} where
  -- The disk with one entry written.
  unfoldable pub put : World D → Place → Entry D → World D
  put w p e = record w { entry = λ q. if same_place p q then some e else w.entry q }

  -- `std::filesystem::exists(p)`
  unfoldable pub exists : World D → Place → Bool
  exists w p = elim (w.entry p) [ none ↦ false | some e ↦ true ]

  -- The entry at a place after a move, by where the place is below the new and the old one.
  after_move : World D → Place → Place → Option Place → Option Place → Option (Entry D)
  after_move w p r (some names) under = w.entry (p ++ names)
  after_move w p r none (some names) = none
  after_move w p r none none = w.entry r

module _ {D : Double} (h : Host) where
  -- `capture_timestamp()`
  unfoldable pub capture_timestamp : Io D TimestampPair
  capture_timestamp w = (ok (h.clock w.ticks), record w { ticks = suc w.ticks })

  -- A directory is made where there is none.
  make_at : Option (Entry D) → Access → Place → Io D (Unit {0})
  make_at (some directory) a p w = (ok tt, w)
  make_at (some (document value)) a p w = (err (h.filesystem_error p), w)
  make_at (some other_file) a p w = (err (h.filesystem_error p), w)
  make_at none granted p w = (ok tt, put w p directory)
  make_at none refused p w = (err (h.filesystem_error p), w)
  make_at none cut_short p w = (err (h.filesystem_error p), w)

  make_directory : Place → Io D (Unit {0})
  unfolding make_at
  make_directory p w = make_at (w.entry p) (h.access w.ticks p) p w

  make_directories : Place → List String → Io D (Unit {0})
  unfolding make_directory
  make_directories p [] w = (ok tt, w)
  make_directories p (n ∷ names) w =
      let here = push_back p n in (make_directory here >> make_directories here names) w

  -- `std::filesystem::create_directories(p)`
  unfoldable pub create_directories : Place → Io D (Unit {0})
  unfolding make_directories
  create_directories p = make_directories [] p

  move_found : Option (Entry D) → Access → Place → Place → Io D (Unit {0})
  unfolding after_move
  move_found none a p q w = (err (h.filesystem_error p), w)
  move_found (some e) granted p q w =
      (ok tt, record w { entry = λ r. after_move w p r (below q r) (below p r) })
  move_found (some e) refused p q w = (err (h.filesystem_error p), w)
  move_found (some e) cut_short p q w = (err (h.filesystem_error p), w)

  -- `std::filesystem::rename(p, q)`, where there is nothing at `q`.
  unfoldable pub rename : Place → Place → Io D (Unit {0})
  unfolding move_found
  rename p q w = move_found (w.entry p) (h.access w.ticks q) p q w

  -- `ensure_parent_directory`
  unfoldable pub ensure_parent_directory : Place → Io D (Unit {0})
  ensure_parent_directory p = create_directories (parent_path p)

  read_at : Option (Entry D) → Place → Result (Json D)
  read_at none p = err ("failed to open JSON file: " <> text_of p)
  read_at (some directory) p = err h.parse_error
  read_at (some (document value)) p = ok value
  read_at (some other_file) p = err h.parse_error

  -- `read_json_file`
  unfoldable pub read_json_file : Place → World D → Result (Json D)
  unfolding read_at
  read_json_file p w = read_at (w.entry p) p

  -- The stream is opened, which empties the file; then the value is dumped, which may throw; then
  -- its text is written.
  store : Access → Option String → Place → Json D → String → String → Io D (Unit {0})
  store refused thrown p value unopened unwritten w = (err (unopened <> text_of p), w)
  store granted none p value unopened unwritten w = (ok tt, put w p (document value))
  store granted (some message) p value unopened unwritten w = (err message, put w p other_file)
  store cut_short none p value unopened unwritten w =
      (err (unwritten <> text_of p), put w p other_file)
  store cut_short (some message) p value unopened unwritten w = (err message, put w p other_file)

  store_dumped : Place → Json D → String → String → Io D (Unit {0})
  unfolding store
  store_dumped p value unopened unwritten w =
      store (h.access w.ticks p) (h.dump_error (texts_of value)) p value unopened unwritten w

  write_at : Option (Entry D) → Place → Json D → String → String → Io D (Unit {0})
  unfolding store_dumped
  write_at (some directory) p value unopened unwritten w = (err (unopened <> text_of p), w)
  write_at (some (document old)) p value unopened unwritten w =
      store_dumped p value unopened unwritten w
  write_at (some other_file) p value unopened unwritten w =
      store_dumped p value unopened unwritten w
  write_at none p value unopened unwritten w = store_dumped p value unopened unwritten w

  -- `std::ofstream stream(p, out | trunc)`, the tests of the stream and the write.
  unfoldable pub write_file : Place → Json D → String → String → Io D (Unit {0})
  unfolding write_at
  write_file p value unopened unwritten w = write_at (w.entry p) p value unopened unwritten w

  -- `write_json_file`
  unfoldable pub write_json_file : Place → Json D → Io D (Unit {0})
  write_json_file p value = do
    ensure_parent_directory p
    write_file p value "failed to open JSON output at " "failed to write JSON output at "
