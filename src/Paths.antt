-- ===== src/Paths.antt =====
-- Paths of `std::filesystem`: a path is its names, with no links and no `.` or `..` among them.
use bittorrent_peer_linking.Base.{
  Bool, true, false, String, str_eq, ◌<>◌, is_empty, Option, none, some, List, [], ◌∷◌, ◌++◌,
  if◌then◌else◌,
}

-- `std::filesystem::path`
pub record FilePath : Type 0 where
  pub is_absolute : Bool
  pub names : List String

abbrev pub Place : Type 0
Place = List String

-- `p / q`
unfoldable pub join : FilePath → FilePath → FilePath
join p q = if q.is_absolute then q else record p { names = p.names ++ q.names }

abbrev pub name : String → FilePath
name s = record { is_absolute = false; names = s ∷ [] }

-- `p.filename()`
unfoldable pub filename : Place → String
filename [] = ""
filename (n ∷ []) = n
filename (n ∷ m ∷ names) = filename (m ∷ names)

-- `p.parent_path()`
unfoldable pub parent_path : Place → Place
parent_path [] = []
parent_path (n ∷ []) = []
parent_path (n ∷ m ∷ names) = n ∷ parent_path (m ∷ names)

-- The names of a text that slashes part.
split_names : String → String → List String
split_names String.[] word = if is_empty word then [] else word ∷ []
split_names (String.◌∷◌ c s) word =
    let next = split_names s "" in
    let same = split_names s (word <> String.◌∷◌ c String.[]) in
    if str_eq (String.◌∷◌ c String.[]) "/"
    then (if is_empty word then next else word ∷ next)
    else same

starts_at_root : String → Bool
starts_at_root String.[] = false
starts_at_root (String.◌∷◌ c s) = str_eq (String.◌∷◌ c String.[]) "/"

-- `std::filesystem::path(s)`
unfoldable pub path_of : String → FilePath
unfolding split_names starts_at_root
path_of s = record { is_absolute = starts_at_root s; names = split_names s "" }

joined : List String → String
joined [] = ""
joined (n ∷ names) = "/" <> (n <> joined names)

-- `p.string()` of an absolute path.
unfoldable pub text_of : Place → String
unfolding joined
text_of [] = "/"
text_of (n ∷ names) = joined (n ∷ names)

abbrev pub same_place : Place → Place → Bool
same_place [] [] = true
same_place (n ∷ p) (m ∷ q) = if str_eq n m then same_place p q else false
same_place _ _ = false

-- The names of the place below the directory, if it is the directory or below it.
unfoldable pub below : Place → Place → Option Place
below [] q = some q
below (n ∷ p) [] = none
below (n ∷ p) (m ∷ q) = if str_eq n m then below p q else none
