-- ===== src/Util.antt =====
-- src/util.cpp and src/util.hpp: timestamps, peer ids, endpoints, flag labels. What libtorrent
-- reports is a record of the values that the program reads from it.
pub mod Names
pub mod Samples
pub mod Platform
use bittorrent_peer_linking.Base.{
  ℕ, zero, suc, ◌/◌, ◌%◌, ℤ, Bool, true, false, ◌&&◌, String, List, [], ◌∷◌, str_eq, ◌<>◌,
  to_string, is_empty, starts_with, if◌then◌else◌, ◌==◌,
}
use bittorrent_peer_linking.Double.{Double}

pub record TimestampPair : Type 0 where
  pub utc_ts : String
  pub mono_ns : ℤ

-- `lt::tcp::endpoint`, with its address as `to_string()` prints it.
pub record Endpoint : Type 0 where
  pub address : String
  pub port : ℕ

unfoldable pub endpoint_to_string : Endpoint → String
endpoint_to_string endpoint = endpoint.address <> (":" <> to_string endpoint.port)

unfoldable pub ns_to_ms : (D : Double) → ℤ → D.Real
ns_to_ms D ns = D.div (D.of_ℤ ns) (D.literal 1000000 1)

-- `lt::peer_id`: its twenty bytes.
abbrev pub PeerId : Type 0
PeerId = List ℕ

unfoldable pub is_all_zeros : PeerId → Bool
is_all_zeros [] = true
is_all_zeros (byte ∷ pid) = byte == 0 && is_all_zeros pid

abbrev hex_digit : ℕ → String
hex_digit n =
    if n == 10
    then "a"
    else if n == 11
    then "b"
    else if n == 12
    then "c"
    else if n == 13
    then "d"
    else if n == 14
    then "e"
    else if n == 15
    then "f"
    else to_string n

-- `std::hex`, `std::setw(2)` and `std::setfill('0')`, on each byte.
unfoldable pub hex_bytes : PeerId → String
hex_bytes [] = ""
hex_bytes (byte ∷ pid) = hex_digit (byte / 16) <> (hex_digit (byte % 16) <> hex_bytes pid)

unfoldable pub peer_id_to_hex : PeerId → String
unfolding is_all_zeros hex_bytes
peer_id_to_hex pid = if is_all_zeros pid then "unknown" else hex_bytes pid

-- `s.substr(0, n)`; a text shorter than `n` is taken whole.
unfoldable pub take_text : ℕ → String → String
take_text zero s = ""
take_text (suc n) String.[] = ""
take_text (suc n) (String.◌∷◌ c s) = String.◌∷◌ c (take_text n s)

unfoldable pub peer_id_prefix : PeerId → String
unfolding peer_id_to_hex take_text
peer_id_prefix pid =
    if is_all_zeros pid
    then ""
    else (let hex = peer_id_to_hex pid in if str_eq hex "unknown" then "" else take_text 16 hex)

unfoldable pub is_magnet_uri : String → Bool
unfolding starts_with
is_magnet_uri input = starts_with input "magnet:?"

-- `lt::peer_info`'s flags and sources: a set of flags is the test for membership.
pub data PeerFlag : Type 0 where
  interesting choked remote_interested remote_choked supports_extensions : PeerFlag
  outgoing_connection handshake connecting on_parole seed optimistic_unchoke : PeerFlag
  snubbed upload_only endgame_mode holepunched i2p_socket utp_socket ssl_socket : PeerFlag
  rc4_encrypted plaintext_encrypted : PeerFlag

pub data PeerSource : Type 0 where
  tracker dht pex lsd resume_data incoming : PeerSource

unfoldable pub has_flag : {Flag : Type 0} → (Flag → Bool) → Flag → Bool
has_flag value flag = value flag

-- What the program reads of `lt::peer_info`; the two `_ms` are `lt::total_milliseconds` of the
-- source's `last_active` and `last_request`.
pub record PeerInfo : Type 0 where
  pub ip : Endpoint
  pub pid : PeerId
  pub client : String
  pub flags : PeerFlag → Bool
  pub source : PeerSource → Bool
  pub total_download : ℤ
  pub total_upload : ℤ
  pub payload_down_speed : ℤ
  pub payload_up_speed : ℤ
  pub down_speed : ℤ
  pub up_speed : ℤ
  pub download_rate_peak : ℤ
  pub upload_rate_peak : ℤ
  pub download_queue_length : ℤ
  pub upload_queue_length : ℤ
  pub last_active_ms : ℤ
  pub last_request_ms : ℤ
  pub timed_out_requests : ℤ
  pub busy_requests : ℤ
  pub requests_in_buffer : ℤ
  pub queue_bytes : ℤ
  pub request_timeout : ℤ
  pub downloading_piece_index : ℤ
  pub downloading_block_index : ℤ
  pub downloading_progress : ℤ
  pub downloading_total : ℤ

unfoldable pub transport_from_peer_info : PeerInfo → String
unfolding has_flag
transport_from_peer_info peer =
    if has_flag peer.flags utp_socket
    then "utp"
    else if has_flag peer.flags i2p_socket
    then "unknown"
    else "tcp"

-- The chain of `if (has_flag(...)) labels.emplace_back(...)`.
labels_of : {Flag : Type 0} → (Flag → Bool) → List (Flag × String) → List String
unfolding has_flag
labels_of value [] = []
labels_of value ((flag, label) ∷ rest) =
    let labels = labels_of value rest in if has_flag value flag then label ∷ labels else labels

abbrev flag_names : List (PeerFlag × String)
flag_names =
    (interesting, "interesting")
    ∷ (choked, "we_choked_peer")
    ∷ (remote_interested, "peer_interested")
    ∷ (remote_choked, "peer_choked_us")
    ∷ (supports_extensions, "supports_extensions")
    ∷ (outgoing_connection, "outgoing_connection")
    ∷ (handshake, "handshake")
    ∷ (connecting, "connecting")
    ∷ (on_parole, "on_parole")
    ∷ (seed, "seed")
    ∷ (optimistic_unchoke, "optimistic_unchoke")
    ∷ (snubbed, "snubbed")
    ∷ (upload_only, "upload_only")
    ∷ (endgame_mode, "endgame_mode")
    ∷ (holepunched, "holepunched")
    ∷ (i2p_socket, "i2p_socket")
    ∷ (utp_socket, "utp_socket")
    ∷ (ssl_socket, "ssl_socket")
    ∷ (rc4_encrypted, "rc4_encrypted")
    ∷ (plaintext_encrypted, "plaintext_encrypted")
    ∷ []

abbrev source_names : List (PeerSource × String)
source_names =
    (tracker, "tracker")
    ∷ (dht, "dht")
    ∷ (pex, "pex")
    ∷ (lsd, "lsd")
    ∷ (resume_data, "resume_data")
    ∷ (incoming, "incoming")
    ∷ []

unfoldable pub peer_flag_labels : PeerInfo → List String
unfolding labels_of
peer_flag_labels peer = labels_of peer.flags flag_names

unfoldable pub peer_source_labels : PeerInfo → List String
unfolding labels_of
peer_source_labels peer = labels_of peer.source source_names
