-- ===== src/Core/Ledger/File.antt =====
-- core/ledger.py, `RunLedger`, and core/_persistence.py: the file of events, its reader with all
-- its refusals, and the locked append.
use molly.Prelude.{
  String, Bool, not, Option, none, some, List, [], ◌∷◌, ◌++◌, ◌==◌, any, keep, last?, contains,
  option_eq, if◌then◌else◌, Result, ok, err, ◌>>=◌, ◌>>◌, refuse, ledger_error, ledger_corruption,
  path_security, os_error,
}
use molly.Core.Json.{Json, obj}
use molly.Core.Host.{Host}
use molly.Core.Dumps.{canonical_json_bytes}
use molly.Core.Ids.{validate_identifier}
use molly.Core.Ledger.{LedgerEvent, post_init, to_dict, computed_sha256, from_dict}

-- A line of the file, as the reader meets it: without its newline, with nothing before it, with
-- bytes that are no JSON text, or with the value that `json.loads` gives. Reading back what
-- `json.dumps` wrote gives the value written; the order of its keys, which no dictionary
-- comparison sees, is kept as it was.
pub data Line : Type 0 where
  truncated empty undecodable : Line
  decoded : Json → Line

-- What stands at the path: `irregular` is a directory, `unreadable` a file whose reading fails.
pub data File : Type 0 where
  missing symlink irregular unreadable : File
  lines : List Line → File

-- The tests of the reading loop on one decoded line, against what it has read so far.
unfoldable pub accept : Host → Option String → List String → Json → Result LedgerEvent
unfolding from_dict
accept h previous seen value = do
  event ← from_dict h value
  refuse (contains seen event.event_id) ledger_corruption
  refuse (not (option_eq event.previous_event_sha256 previous)) ledger_corruption
  ok event

-- The rounds of the reading loop; the state is the digest and the identities read so far.
unfoldable pub read_lines :
    Host → Option String → List String → List Line → Result (List LedgerEvent)
unfolding accept
read_lines h previous seen [] = ok []
read_lines h previous seen (truncated ∷ rest) = err ledger_corruption
read_lines h previous seen (empty ∷ rest) = err ledger_corruption
read_lines h previous seen (undecodable ∷ rest) = err ledger_corruption
read_lines h previous seen (decoded value ∷ rest) = do
  event ← accept h previous seen value
  events ← read_lines h event.event_sha256 (event.event_id ∷ seen) rest
  ok (event ∷ events)

unfoldable pub read_events : Host → File → Result (List LedgerEvent)
unfolding read_lines
read_events h missing = ok []
read_events h symlink = err ledger_corruption
read_events h irregular = err ledger_corruption
read_events h unreadable = err ledger_corruption
read_events h (lines ls) = read_lines h none [] ls

-- `RunLedger.for_run`
unfoldable pub for_run : Host → String → File → Result (List LedgerEvent)
for_run h run_id file = do
  validate_identifier run_id
  events ← read_events h file
  ok (keep (λ event. event.run_id == run_id) events)

-- How the environment answers the append: the path has no symlink above it; the write ends; if it
-- fails, a part of the line is in the file or nothing of it; and what `locked_append` does behind its
-- `yield` ends, or its `fsync` or `close` fails when the whole line is in the file.
pub record Disk : Type 0 where
  pub ancestors_clean : Bool
  pub writes : Bool
  pub tears : Bool
  pub flushes : Bool

-- `locked_append` up to its `yield`: the file is created if it is not there.
opened_file : File → Result File
opened_file missing = ok (lines [])
opened_file symlink = err path_security
opened_file irregular = err path_security
opened_file unreadable = ok unreadable
opened_file (lines ls) = ok (lines ls)

unfoldable pub open_locked : Disk → File → Result File
unfolding opened_file
open_locked disk file = if disk.ancestors_clean then opened_file file else err path_security

unfoldable pub write_line : Line → File → File
write_line line (lines ls) = lines (ls ++ line ∷ [])
write_line line file = file

-- `existing[-1].event_sha256 if existing else None`
unfoldable pub head_digest : List LedgerEvent → Option String
head_digest events = elim (last? events) [ none ↦ none | some event ↦ event.event_sha256 ]

-- The body of the lock: what will be written after the existing events.
unfoldable pub prepare : Host → LedgerEvent → List LedgerEvent → Result LedgerEvent
unfolding head_digest post_init
prepare h event existing = do
  refuse (any (λ item. item.event_id == event.event_id) existing) ledger_error
  prepared ←
      post_init h
        (record event { previous_event_sha256 = head_digest existing; event_sha256 = none })
  digest ← computed_sha256 h prepared
  persisted ← post_init h (record prepared { event_sha256 = some digest })
  canonical_json_bytes h (obj (to_dict persisted))
  ok persisted

-- The write of a line to the open file and the end of `locked_append`: whether it ended well, and
-- what stands in the file then.
unfoldable pub write_locked : Disk → Line → File → Result (Unit {0}) × File
unfolding write_line
write_locked disk line file =
    if disk.writes
    then (if disk.flushes then ok tt else err os_error, write_line line file)
    else (err os_error, if disk.tears then write_line truncated file else file)

-- `RunLedger.append` of an event that its constructor accepted
unfoldable pub append : Host → Disk → LedgerEvent → File → Result LedgerEvent × File
unfolding prepare open_locked write_locked
append h disk event file = elim (open_locked disk file) [
  | err e ↦ (err e, file)
  | ok opened ↦ elim (read_events h opened >>= prepare h event) [
    | err e ↦ (err e, opened)
    | ok persisted ↦
        let (r, written) = write_locked disk (decoded (obj (to_dict persisted))) opened in
        (r >> ok persisted, written)
  ]
]
