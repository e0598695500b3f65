-- ===== src/Lib.antt =====
-- The statistics of a BitTorrent peer-linking client: what it keeps of each connection and of the
-- session, the alerts that feed it, and the snapshots that it takes; its command line, and the
-- files of a session on their way from the capture to the destination and the archive.
--
-- The program runs one libtorrent session. Its loop, in `main` of src/main.cpp, drains the alerts
-- that libtorrent has queued (`drain_alerts`), takes a snapshot when one is due
-- (`capture_snapshots`) and writes an event for each alert and each observation. Both update a
-- `SessionStats`, which owns one `PeerStats` for each connection of an endpoint
-- (src/peer_stats.hpp, src/peer_stats.cpp). At the end the statistics are summarised; the
-- files of a session are sent to a destination, at once or by a later run, and then archived.
--
-- Files, with the code that they model:
--   Util, Util.Names   src/util.hpp and src/util.cpp: names, labels, peer ids, endpoints
--   Peer.State         the fields and constructor of `PeerStats`, `RequestKey`
--   Peer.Activity      `mark_seen`, interactions, bursts of requests, activity windows
--   Peer.Events        `note_connect` to `note_unsnubbed`
--   Peer.Snapshot      `update_from_snapshot`, `finalize`, `reset_outstanding_requests`
--   Peer.History       the calls on a peer as data, and runs of them
--   Session.State      the fields and constructor of `SessionStats`
--   Session.Peers      `ensure_peer_for_endpoint` and the calls that go through it
--   Session.Totals     pieces, bytes, lost alerts, `finalize`
--   Alerts             the alerts of libtorrent as data, and the names that src/main.cpp gives them
--   Alerts.Handlers    the branches of `drain_alerts`, with their payloads
--   Capture            `capture_snapshots`
--   Run                the statistics calls of a session in `main`, from its start to `finalize`
--   Config             `RuntimeConfig` and `OutputPaths` of src/logging.hpp
--   Artifacts, Artifacts.Manifest, Artifacts.Pending, Artifacts.Archive
--                      src/artifact_lifecycle.cpp: the states of a session's artifacts, the file
--                      state.json, the search for pending sessions, and their archiving
--   Sender             src/artifact_sender.cpp
--   Retry              `retry_pending_artifact_uploads` of src/main.cpp, which sends what earlier
--                      sessions left: it searches, sends, archives, and records failures
--   Args               the command line: the loop over the arguments in `main`, and its checks
--   Outputs            `prepare_output_paths` of src/logging.cpp
--   Log                `EventWriter` of src/logging.cpp
--   Summary            the counts of src/summary_writer.cpp
--   Summary.Document   `write_session_summary` of src/summary_writer.cpp
--   Util.Samples       `summarize_samples` of src/util.cpp
--   Util.Platform      the ids and info hashes of src/util.cpp
--   Peer.Report        `PeerStats::to_json` and `peer_summaries_json` of src/peer_stats.cpp
--   Log.Stream         the opening and closing of the event log
--   Loop               the loop of `main`: its clock, its snapshots, its sleep and its end
--   Main.Payloads      the settings that `main` gives to libtorrent, and the events of a session's
--                      start and end
--   Main.Capturing     a session in `main` from the event log's opening to the summary
--   Main               `main` as a whole
--   Publish            the retry before a session and the upload after it, with the exit codes
--   Paths, Disk, Exec  paths, the disk and its calls, and calls that change it and may throw
--   Map, Keys, Double, Json, Base   `std::map`, its keys, `double`, JSON values, shared helpers
--   Tests              a concrete session and peer, to which the theorems are applied
-- The other files hold proofs: Map.Laws, Keys.Decimal, Peer.Window, Peer.Bursts, Peer.Requests,
-- Peer.Gaps, Peer.Queues, Peer.Chokes, Peer.Identity, Session.Consistency, Alerts.Drain,
-- Alerts.Logged, Alerts.Attribution, Run.Totality, Exec.Respects, Disk.Laws, Disk.Moves, Disk.Broken, Artifacts.Names,
-- Artifacts.Kept, Artifacts.Failures, Artifacts.Moves, Artifacts.Reads, Artifacts.Order,
-- Sender.Checks, Sender.Uploads, Sender.Answers, Retry.Uploads, Retry.Outcomes, Retry.Again,
-- Args.Laws, Outputs.Laws, Log.Laws, Summary.Counts, Publish.Laws, Disk.Made,
-- Exec.Comes, Exec.Gives, Util.Samples.Bounds, Util.Samples.Extremes, Peer.Report.Rows, Log.Stream.Frame,
-- Summary.Document.Contents, Loop.Termination, Loop.Pace, Args.Switches, Main.Frame, Main.Outcomes,
-- Main.Codes, Main.Going, Main.Report, Main.Termination, Main.Switches and their parts.
--
-- How the code is modelled:
--   * An operation takes the state and returns the state after it. A reference to a peer is its key
--     in `peers_by_key`, and a write through it is `update_peer`. `none` is an exception, which
--     `peers_by_key.at` throws on a key that is not there.
--   * A `std::map`, a `std::set` and a `std::unordered_map` are lists of entries in the order of
--     their keys. The code reads its unordered maps (`connect_sequence_by_endpoint`,
--     `active_peer_key_by_endpoint`, `last_piece_peer_key`) only by key, so their order is unseen.
--   * Counters start at zero and are only incremented, so they are natural numbers; times, totals
--     and indices are integers. Their overflow, which the language leaves undefined for signed
--     types, is not modelled: 64 bits of nanoseconds last for centuries.
--   * `double` is a parameter, a record of the operations that the code uses, of which nothing is
--     assumed but what a theorem's hypotheses name. Timestamps are inputs: each call gets the time that the code would read.
--   * A call that may throw after it has changed the disk is a function from the world to a result
--     and a world; the result is a value or the text of the exception. The disk maps each path to
--     a directory, a file with a JSON value or another file. The host is a parameter: which paths can
--     be written at which time, a time being the number of the clock's readings so far; how a
--     directory is listed, by the places that are on the disk; for which texts `dump()` of
--     nlohmann::json throws, as it does for one that is not UTF-8; the working directory and the
--     texts of the library's exceptions. A write may fail before or after the file is opened, and
--     one that succeeded may fail later. Paths have no links and no `.` or `..`. No other process
--     changes the disk meanwhile.
--   * `std::sort` is an insertion sort; for the pending sessions it is shown that no other
--     arrangement is in order.
--   * libcurl is a parameter: the code of each call, whether a handle is null, and the reply to a
--     request. A request is the form as it stands when `curl_easy_perform` is called.
--   * What libtorrent hands over (alerts, peers, statuses) is data with the fields that are read;
--     `lt::operation_name` is a parameter. An alert that the program passes over is `other`.
--   * The steady clock's readings, the flag that a signal sets and what libtorrent answers are given
--     for each turn of the main loop, which runs on fuel: one unit for each turn. Its times are
--     nanoseconds that do not overflow. Where the fuel is too little, `main` gives `none`; a unit for
--     each nanosecond of the run time is enough, since the clock advances from turn to turn. Every
--     other loop is over a list.
--   * A read outside of a vector, where the behaviour is undefined, is `none`. What percentiles need
--     of the rounding of `double`, and extremes of its order, are hypotheses, `IsRounding` for whole
--     numbers below 2 ^ 53, which `double` has exactly, and `IsOrder`, whose transitivity is through
--     what is not NaN.
--
-- Not modelled: console output and the text of the usage; the text of the log's lines and of the
-- JSON documents on disk, which are kept as values; the formatting of times and the reading of the
-- host's name (src/util.cpp), which are parameters; what libtorrent does with its settings and its
-- filter; the signal's handler, of which the loop sees the flag.
pub mod Base
pub mod Main
pub mod Map
pub mod Keys
pub mod Double
pub mod Util
pub mod Peer
pub mod Session
pub mod Json
pub mod Alerts
pub mod Capture
pub mod Run
pub mod Exec
pub mod Paths
pub mod Disk
pub mod Config
pub mod Artifacts
pub mod Sender
pub mod Retry
pub mod Args
pub mod Outputs
pub mod Log
pub mod Loop
pub mod Summary
pub mod Publish
pub mod Tests
