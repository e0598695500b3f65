-- ===== src/Util/Names.antt =====
-- The names that src/util.cpp gives to libtorrent's enumerations. `other` is any value that the
-- program does not name.
use bittorrent_peer_linking.Base.{ℕ, String}

pub data TorrentState : Type 0 where
  queued_for_checking checking_files downloading_metadata downloading : TorrentState
  finished seeding allocating checking_resume_data : TorrentState
  other : ℕ → TorrentState

unfoldable pub state_name : TorrentState → String
state_name queued_for_checking = "queued_for_checking"
state_name checking_files = "checking_files"
state_name downloading_metadata = "downloading_metadata"
state_name downloading = "downloading"
state_name finished = "finished"
state_name seeding = "seeding"
state_name allocating = "allocating"
state_name checking_resume_data = "checking_resume_data"
state_name (other n) = "unknown"

pub data SocketType : Type 0 where
  tcp socks5 http utp i2p tcp_ssl socks5_ssl http_ssl utp_ssl : SocketType
  other : ℕ → SocketType

unfoldable pub socket_type_label : SocketType → String
socket_type_label tcp = "tcp"
socket_type_label socks5 = "socks5"
socket_type_label http = "http"
socket_type_label utp = "utp"
socket_type_label i2p = "i2p"
socket_type_label tcp_ssl = "tcp_ssl"
socket_type_label socks5_ssl = "socks5_ssl"
socket_type_label http_ssl = "http_ssl"
socket_type_label utp_ssl = "utp_ssl"
socket_type_label (other n) = "unknown"

unfoldable pub transport_from_socket_type : SocketType → String
transport_from_socket_type utp = "utp"
transport_from_socket_type utp_ssl = "utp"
transport_from_socket_type tcp = "tcp"
transport_from_socket_type tcp_ssl = "tcp"
transport_from_socket_type socks5 = "tcp"
transport_from_socket_type socks5_ssl = "tcp"
transport_from_socket_type http = "tcp"
transport_from_socket_type http_ssl = "tcp"
transport_from_socket_type i2p = "unknown"
transport_from_socket_type (other n) = "unknown"
