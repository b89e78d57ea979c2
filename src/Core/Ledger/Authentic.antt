-- ===== src/Core/Ledger/Authentic.antt =====
-- core/ledger.py: which sequences of events a file of the ledger can tell.
use molly.Prelude.{
  String, ◌≡◌, refl, sym, ap, ◌∙◌, inl, inr, false, Option, none, some, ℕ, List, [], ◌∷◌, map,
  arith, ok, bind-eq-ok, ok-injective, option_eq_sound, eq_iff, rethrow, rethrow-eq-ok,
  Result-cases, Option-cases, contains, ledger_corruption, ◌>>=◌, ◌↔◌,
}
use molly.Core.Json.{Json, obj}
use molly.Core.Host.{Host}
use molly.Core.Dumps.{json_sha256, canonical_json_bytes}
use molly.Core.Ids.Laws.{IsoLaws}
use molly.Core.Ledger.{
  LedgerEvent, body, to_dict, computed_sha256, from_dict, check_sealed, event_of_fields, post_init,
}
use molly.Core.Ledger.Codec.{from_dict-to_dict}
use molly.Core.Ledger.File.{
  File, missing, symlink, irregular, unreadable, Line, truncated, empty, undecodable, decoded,
  lines, accept, read_lines, read_events,
}
use molly.Core.Ledger.Reading.{accept-ok, accept-eq-ok}

-- An event that its constructor checked, whose digest is that of the canonical bytes of its body.
pub record IsSealed (h : Host) (e : LedgerEvent) : Type 0 where
  pub unchecked : LedgerEvent
  pub checked : post_init h unchecked ≡ ok e
  pub bytes : List ℕ
  pub canonical : canonical_json_bytes h (obj (body e)) ≡ ok bytes
  pub recorded : e.event_sha256 ≡ some (h.sha256 bytes)

-- A chain behind an event with the digest `previous` and behind the identities `seen`: each event
-- is sealed, names the digest of the one before it, and has an identity of its own.
abbrev pub IsChain : Host → Option String → List String → List LedgerEvent → Type 0
IsChain h previous seen [] = Unit
IsChain h previous seen (e ∷ es) =
    IsSealed h e
    × (contains seen e.event_id ≡ false)
    × (e.previous_event_sha256 ≡ previous)
    × IsChain h e.event_sha256 (e.event_id ∷ seen) es

-- A file that is read as the events.
pub record Tells (h : Host) (es : List LedgerEvent) : Type 0 where
  pub file : File
  pub reads : read_events h file ≡ ok es

check_sealed-ok :
    (h : Host) (e e' : LedgerEvent)
    → check_sealed h e ≡ ok e'
    → (digest : String) × (e ≡ e')
      × (e.event_sha256 ≡ some digest)
      × (computed_sha256 h e ≡ ok digest)
unfolding check_sealed
check_sealed-ok h e e' c = elim (Option-cases e.event_sha256) [
  | inl bare ↦ absurd (ground arith)
  | inr (recorded, has) ↦ elim (Result-cases (computed_sha256 h e)) [
    | inr (x, failed) ↦ absurd (ground arith)
    | inl (computed, did) ↦
        let same = option_eq_sound (some computed) (some recorded) in
        (recorded, ground arith, ground arith, ground (arith, eq_iff computed recorded))
  ]
]

computed-bytes :
    (h : Host) (e : LedgerEvent) (d : String)
    → computed_sha256 h e ≡ ok d
    → (bytes : List ℕ) × (canonical_json_bytes h (obj (body e)) ≡ ok bytes) × (h.sha256 bytes ≡ d)
unfolding computed_sha256 json_sha256
computed-bytes h e d c =
    let (bytes, written, c') = bind-eq-ok (canonical_json_bytes h (obj (body e))) _ c in
    (bytes, written, ok-injective c')

bytes-computed :
    (h : Host) (e : LedgerEvent) (bytes : List ℕ)
    → canonical_json_bytes h (obj (body e)) ≡ ok bytes
    → computed_sha256 h e ≡ ok (h.sha256 bytes)
unfolding computed_sha256 json_sha256
bytes-computed h e bytes c = rw c

from_dict-IsSealed : (h : Host) (v : Json) (e : LedgerEvent) → from_dict h v ≡ ok e → IsSealed h e
unfolding from_dict
from_dict-IsSealed h (obj value) e c =
    let (read, made, c') =
      bind-eq-ok (rethrow (event_of_fields h value >>= post_init h) ledger_corruption) _ c in
    let (raw, _, checks) =
      bind-eq-ok (event_of_fields h value) (post_init h) (rethrow-eq-ok _ ledger_corruption made) in
    let (digest, same, has, computes) = check_sealed-ok h read e c' in
    let (bytes, written, is) = computed-bytes h e digest (rw same at computes) in
    record {
      unchecked = raw;
      checked = checks ∙ ap ok same;
      bytes = bytes;
      canonical = written;
      recorded = rw same at has ∙ ap some (sym is);
    }
from_dict-IsSealed h _ e c = cc

IsSealed-from_dict :
    (h : Host) (laws : IsoLaws h) (e : LedgerEvent)
    → IsSealed h e
    → from_dict h (obj (to_dict e)) ≡ ok e
IsSealed-from_dict h laws e s =
    from_dict-to_dict h laws s.unchecked e (h.sha256 s.bytes) s.checked s.recorded
      (bytes-computed h e s.bytes s.canonical)

read_lines-IsChain :
    (h : Host) (previous : Option String) (seen : List String) (ls : List Line)
    (es : List LedgerEvent)
    → read_lines h previous seen ls ≡ ok es
    → IsChain h previous seen es
unfolding read_lines
read_lines-IsChain h previous seen [] es r = rw (← ok-injective r) tt
read_lines-IsChain h previous seen (truncated ∷ ls) es r = cc
read_lines-IsChain h previous seen (empty ∷ ls) es r = cc
read_lines-IsChain h previous seen (undecodable ∷ ls) es r = cc
read_lines-IsChain h previous seen (decoded v ∷ ls) es r =
    let (e, taken, r1) = bind-eq-ok (accept h previous seen v) _ r in
    let (later, reads, r2) = bind-eq-ok (read_lines h e.event_sha256 (e.event_id ∷ seen) ls) _ r1 in
    let (valid, fresh, linked) = accept-ok h previous seen v e taken in
    rw (← ok-injective r2) (
      from_dict-IsSealed h v e valid,
      fresh,
      linked,
      read_lines-IsChain h e.event_sha256 (e.event_id ∷ seen) ls later reads,
    )

-- The lines that an append writes for the events.
abbrev written : LedgerEvent → Line
written e = decoded (obj (to_dict e))

IsChain-read_lines :
    (h : Host) (laws : IsoLaws h) (previous : Option String) (seen : List String)
    (es : List LedgerEvent)
    → IsChain h previous seen es
    → read_lines h previous seen (map written es) ≡ ok es
unfolding read_lines
IsChain-read_lines h laws previous seen [] c = refl
IsChain-read_lines h laws previous seen (e ∷ es) (sealed, fresh, linked, rest) = rw (
  accept-eq-ok h previous seen (obj (to_dict e)) e (IsSealed-from_dict h laws e sealed) fresh
      linked,
  IsChain-read_lines h laws e.event_sha256 (e.event_id ∷ seen) es rest,
)

read_events-IsChain :
    (h : Host) (f : File) (es : List LedgerEvent) → read_events h f ≡ ok es → IsChain h none [] es
unfolding read_events
read_events-IsChain h missing es r = rw (← ok-injective r) tt
read_events-IsChain h symlink es r = cc
read_events-IsChain h irregular es r = cc
read_events-IsChain h unreadable es r = cc
read_events-IsChain h (lines ls) es r = read_lines-IsChain h none [] ls es r

-- Given the laws of ISO dates, some file is read as a sequence of events exactly when each event
-- passed the checks of its constructor, carries the digest of the canonical bytes of its body,
-- names the digest of the event before it, and has an identity that no event before it has.
pub readable_iff :
    (h : Host) (laws : IsoLaws h) (es : List LedgerEvent) → Tells h es ↔ IsChain h none [] es
unfolding read_events
readable_iff h laws es = (
  λ told. read_events-IsChain h told.file es told.reads,
  λ chain. record {
    file = lines (map written es);
    reads = IsChain-read_lines h laws none [] es chain;
  },
)
