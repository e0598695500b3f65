-- ===== src/Main/Switches.antt =====
-- The switches of libtorrent that src/main.cpp sets, and what its event log says of them.
use bittorrent_peer_linking.Base.{
  ◌≡◌, refl, ap, Bool, false, String, str_eq, Option, none, some, List, [], ◌∷◌, if◌then◌else◌,
}
use bittorrent_peer_linking.Base.Results.{ok}
use bittorrent_peer_linking.Double.{Double}
use bittorrent_peer_linking.Json.{Json, Members, boolean, find_member, members_of}
use bittorrent_peer_linking.Disk.{Host}
use bittorrent_peer_linking.Util.Platform.{Platform}
use bittorrent_peer_linking.Args.{Args, run, read_command_line}
use bittorrent_peer_linking.Args.Switches.{Switches, read-switches}
use bittorrent_peer_linking.Main.{with_ids}
use bittorrent_peer_linking.Main.Payloads.{PackValue, flag, settings_pack, config_payload}

-- `settings_pack.get(name)`
abbrev pub setting : List (String × PackValue) → String → Option PackValue
setting [] name = none
setting ((key, value) ∷ rest) name =
    let found = setting rest name in if str_eq name key then some value else found

module _ {D : Double} where
  -- The log has a switch under one name as libtorrent has it under another.
  abbrev pub IsReported : Members D → String → List (String × PackValue) → String → Type 0
  IsReported payload key pack name =
      (value : Bool) × (find_member key payload ≡ some (boolean value))
      × (setting pack name ≡ some (flag value))

  -- Under every command line that is accepted, the session's configuration in the event log names the
  -- switches of libtorrent as they are set.
  pub config-IsReported :
      (h : Host) (platform : Platform) (argv : List String) (args : Args)
      → read_command_line argv ≡ ok (run args)
      → let config = with_ids platform args.config in
        let payload = config_payload {D = D} h config in
        let pack = settings_pack config in
        IsReported payload "dht_enabled" pack "enable_dht"
        × IsReported payload "lsd_enabled" pack "enable_lsd"
        × IsReported payload "upnp_enabled" pack "enable_upnp"
        × IsReported payload "natpmp_enabled" pack "enable_natpmp"
  unfolding config_payload settings_pack with_ids find_member members_of
  config-IsReported h platform argv args e =
      let off = read-switches argv args e in
      let shown = λ (b : Bool). some (Json.boolean b) in
      (
        (false, ap (λ (s : Switches). shown s.dht) off, refl),
        (false, ap (λ (s : Switches). shown s.lsd) off, refl),
        (false, ap (λ (s : Switches). shown s.upnp) off, refl),
        (false, ap (λ (s : Switches). shown s.natpmp) off, refl),
      )
