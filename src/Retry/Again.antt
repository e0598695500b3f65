-- ===== src/Retry/Again.antt =====
-- A session of src/main.cpp whose upload failed, as the next run finds it.
use mathlib.Core.Logic.Or
use mathlib.Core.List.Perm
use bittorrent_peer_linking.Base.{List}
use bittorrent_peer_linking.Double.{Double}
use bittorrent_peer_linking.Json.{Json}
