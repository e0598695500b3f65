-- ===== src/Util/Platform.antt =====
-- What the program reads of the machine and of libtorrent, and the ids that it makes of it
-- (src/util.cpp).
use bittorrent_peer_linking.Base.{ℕ, ◌%◌, Bool, not, ◌&&◌, String, ◌<>◌, to_string, if◌then◌else◌}

-- `get_hostname()`, `lt::version_str`, `getpid()`, and, by the number of the reading,
-- `compact_utc_stamp(now())` and `monotonic_now_ns()`.
pub record Platform : Type 0 where
  pub hostname : String
  pub libtorrent_version : String
  pub pid : ℕ
  pub compact_utc_stamp : ℕ → String
  pub monotonic_now_ns : ℕ → ℕ

unfoldable pub generate_id : Platform → ℕ → String → String
generate_id platform n prefix =
    prefix
    <> ("-"
        <> (platform.compact_utc_stamp n
            <> ("-"
                <> (to_string platform.pid
                    <> ("-" <> to_string (platform.monotonic_now_ns n % 1000000))))))

-- `lt::info_hash_t`, with the texts that its output operators print.
pub record InfoHash : Type 0 where
  pub has_v1 : Bool
  pub has_v2 : Bool
  pub v1 : String
  pub text : String

unfoldable pub info_hash_to_string : InfoHash → String
info_hash_to_string info_hash =
    if not info_hash.has_v1 && not info_hash.has_v2
    then ""
    else if info_hash.has_v1 && not info_hash.has_v2
    then info_hash.v1
    else info_hash.text
