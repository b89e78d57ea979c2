-- ===== src/Core/Ledger/Growth.antt =====
-- core/ledger.py: what an append does to the events that a reader finds in the file.
use molly.Prelude.{
  ◌≡◌, ◌≢◌, refl, true, false, inl, inr, none, List, [], ◌∷◌, ◌++◌, ap, sym, ◌∙◌, append-nil,
  append_assoc, ◌==◌, any, arith, ok, err, Error, ok-injective, ◌>>=◌, ◌>>◌, eq_iff, Bool,
  Bool-cases, bind-eq-ok, Result-cases, ledger_corruption, ledger_error,
}
use molly.Core.Json.{obj}
use molly.Core.Host.{Host}
use molly.Core.Ids.Laws.{IsoLaws}
use molly.Core.Ledger.{LedgerEvent, to_dict}
use molly.Core.Ledger.Codec.{from_dict-to_dict}
use molly.Core.Ledger.Reading.{head_digest-eq, read_lines-snoc, read_lines-torn}
use molly.Core.Ledger.Sealing.{Seals, prepare-Seals}
use molly.Core.Ledger.File.{
  Line, decoded, File, missing, symlink, irregular, unreadable, lines, read_events, Disk,
  open_locked, write_line, write_locked, prepare, append,
}

-- What a successful append has done to the file.
pub record Grows (h : Host) (e p : LedgerEvent) (before after : File) : Type 0 where
  pub events : List LedgerEvent
  pub read_before : read_events h before ≡ ok events
  pub read_after : read_events h after ≡ ok (events ++ p ∷ [])
  pub seals : Seals h e events p

read_events-written :
    (h : Host) (laws : IsoLaws h) (e p : LedgerEvent) (ls : List Line) (es : List LedgerEvent)
    → read_events h (lines ls) ≡ ok es
    → Seals h e es p
    → read_events h (lines (ls ++ decoded (obj (to_dict p)) ∷ [])) ≡ ok (es ++ p ∷ [])
unfolding read_events
read_events-written h laws e p ls es r s =
    read_lines-snoc h none [] ls es (obj (to_dict p)) p r
      (from_dict-to_dict h laws s.checked_from p s.digest s.checked s.is_sealed s.covers) refl
      s.fresh (s.linked ∙ head_digest-eq es)

-- The way through the code of a successful append.
record Succeeds (h : Host) (disk : Disk) (e p : LedgerEvent) (f : File) : Type 0 where
  content : List Line
  same : read_events h f ≡ read_events h (lines content)
  prepared : (read_events h (lines content) >>= prepare h e) ≡ ok p
  written : (append h disk e f).1 ≡ lines (content ++ decoded (obj (to_dict p)) ∷ [])

append-Succeeds :
    (h : Host) (disk : Disk) (e p : LedgerEvent) (f : File)
    → (append h disk e f).0 ≡ ok p
    → Succeeds h disk e p f
unfolding append open_locked write_line read_events
append-Succeeds h disk e p missing a = record {
  content = [];
  same = refl;
  prepared = ground arith;
  written = ground arith;
}
append-Succeeds h disk e p symlink a = absurd (ground arith)
append-Succeeds h disk e p irregular a = absurd (ground arith)
append-Succeeds h disk e p unreadable a = absurd (ground arith)
append-Succeeds h disk e p (lines ls) a = record {
  content = ls;
  same = refl;
  prepared = ground arith;
  written = ground arith;
}

-- A successful append, given the laws of ISO dates, adds the returned event behind all that was read
-- before: sealed by the digest of its body, linked to the newest event, with an identity that no
-- event has, and telling the occurrence that it was given.
pub append-Grows :
    (h : Host) (laws : IsoLaws h) (disk : Disk) (e p : LedgerEvent) (f : File)
    → (append h disk e f).0 ≡ ok p
    → Grows h e p f (append h disk e f).1
append-Grows h laws disk e p f a =
    let s = append-Succeeds h disk e p f a in
    let (es, r, q) = bind-eq-ok (read_events h (lines s.content)) (prepare h e) s.prepared in
    let seals = prepare-Seals h laws e es p q in
    record {
      events = es;
      read_before = s.same ∙ r;
      read_after = rw s.written (read_events-written h laws e p s.content es r seals);
      seals = seals;
    }

-- What `locked_append` has opened can be read as before, and takes lines if it can be read at all.
opened_reads :
    (h : Host) (disk : Disk) (f g : File)
    → open_locked disk f ≡ ok g
    → read_events h g ≡ read_events h f
unfolding open_locked read_events
opened_reads h disk missing g o = ground arith
opened_reads h disk symlink g o = absurd (ground arith)
opened_reads h disk irregular g o = absurd (ground arith)
opened_reads h disk unreadable g o = ground arith
opened_reads h disk (lines ls) g o = ground arith

opened_lines :
    (h : Host) (disk : Disk) (f g : File) (es : List LedgerEvent)
    → open_locked disk f ≡ ok g
    → read_events h g ≡ ok es
    → (ls : List Line) × (g ≡ lines ls)
unfolding open_locked read_events
opened_lines h disk missing g es o r = ([], ground arith)
opened_lines h disk symlink g es o r = absurd (ground arith)
opened_lines h disk irregular g es o r = absurd (ground arith)
opened_lines h disk unreadable g es o r = absurd (ground arith)
opened_lines h disk (lines ls) g es o r = (ls, ground arith)

-- What an append that raised has left in the file: what was there before, a torn line where the write
-- failed, or the whole event where only what follows the write failed.
pub data Left (h : Host) (disk : Disk) (e : LedgerEvent) (before after : File) : Type 0 where
  as_before : read_events h after ≡ read_events h before → Left h disk e before after
  torn :
      disk.writes ≡ false
      → disk.tears ≡ true
      → read_events h after ≡ err ledger_corruption
      → Left h disk e before after
  whole :
      (p : LedgerEvent)
      → disk.flushes ≡ false
      → Grows h e p before after
      → Left h disk e before after

written_Left :
    (h : Host) (laws : IsoLaws h) (disk : Disk) (e p : LedgerEvent) (f : File) (ls : List Line)
    (es : List LedgerEvent) (x : Error)
    → read_events h f ≡ ok es
    → read_events h (lines ls) ≡ ok es
    → Seals h e es p
    → ((write_locked disk (decoded (obj (to_dict p))) (lines ls)).0 >> ok p) ≡ err x
    → Left h disk e f (write_locked disk (decoded (obj (to_dict p))) (lines ls)).1
unfolding write_locked write_line read_events
written_Left h laws disk e p f ls es x before r seals failed = elim (Bool-cases disk.writes) [
  | inr breaks ↦ elim (Bool-cases disk.tears) [
    | inl tears ↦
        simp (breaks, tears) (torn breaks tears (ground (arith, read_lines-torn h none [] ls, r)))
    | inr whole_lost ↦ simp (breaks, whole_lost) (as_before (r ∙ sym before))
  ]
  | inl ends ↦ elim (Bool-cases disk.flushes) [
    | inl all_done ↦ absurd (cc (rw (ends, all_done) at failed))
    | inr lost ↦ simp ends (
        whole p lost (record {
          events = es;
          read_before = before;
          read_after = read_events-written h laws e p ls es r seals;
          seals = seals;
        }))
  ]
]

-- Given the laws of ISO dates, a reader finds after an append that raised what it found before; or,
-- only where the write failed behind a part of the line, the refusal of a corrupt ledger; or, only
-- where the write ended and what follows it failed, the whole event, sealed and linked, behind what
-- it found before.
pub append_failed :
    (h : Host) (laws : IsoLaws h) (disk : Disk) (e : LedgerEvent) (f : File) (x : Error)
    → (append h disk e f).0 ≡ err x
    → Left h disk e f (append h disk e f).1
unfolding append
append_failed h laws disk e f x a = elim (Result-cases (open_locked disk f)) [
  | inr (y, shut) ↦ rw (append, shut) (as_before refl)
  | inl (opened, o) ↦ elim (Result-cases (read_events h opened >>= prepare h e)) [
    | inr (y, stops) ↦ rw (append, o, stops) (as_before (opened_reads h disk f opened o))
    | inl (p, goes) ↦
        let (es, r, q) = bind-eq-ok (read_events h opened) (prepare h e) goes in
        let (ls, shape) = opened_lines h disk f opened es o r in
        let seals = prepare-Seals h laws e es p q in
        let failed = rw (append, o, goes, shape) at a in
        rw (append, o, goes, shape)
          (written_Left h laws disk e p f ls es x (sym (opened_reads h disk f opened o) ∙ r)
            (rw shape at r) seals failed)
  ]
]

-- A file whose reading raises takes no event: the append does not succeed, and reading the file
-- afterwards raises the same exception.
pub append_unreadable :
    (h : Host) (disk : Disk) (e p : LedgerEvent) (f : File) (x : Error)
    → read_events h f ≡ err x
    → ((append h disk e f).0 ≢ ok p) × (read_events h (append h disk e f).1 ≡ err x)
unfolding append open_locked write_line read_events
append_unreadable h disk e p missing x r = cc
append_unreadable h disk e p symlink x r = ground arith
append_unreadable h disk e p irregular x r = ground arith
append_unreadable h disk e p unreadable x r = ground arith
append_unreadable h disk e p (lines ls) x r = ground arith

refused_again :
    (h : Host) (disk : Disk) (e : LedgerEvent) (f : File) (es : List LedgerEvent)
    → disk.ancestors_clean ≡ true
    → read_events h f ≡ ok es
    → any (λ item. item.event_id == e.event_id) es ≡ true
    → append h disk e f ≡ (err ledger_error, f)
unfolding append open_locked prepare read_events
refused_again h disk e missing es clean r found = absurd (ground (arith, r, found))
refused_again h disk e symlink es clean r found = absurd (ground (arith, r))
refused_again h disk e irregular es clean r found = absurd (ground (arith, r))
refused_again h disk e unreadable es clean r found = absurd (ground (arith, r))
refused_again h disk e (lines ls) es clean r found = ground arith

any-last :
    (q : LedgerEvent → Bool) (es : List LedgerEvent) (p : LedgerEvent)
    → q p ≡ true
    → any q (es ++ p ∷ []) ≡ true
any-last q [] p m = ground (arith, m)
any-last q (e ∷ es) p m = ground (arith, any-last q es p m)

-- Where no symlink stands above the path, an event that an append has
-- added, with success or before it raised, is refused as a duplicate when it is appended again, and
-- the file stays as the first append left it.
pub append_again :
    (h : Host) (disk again : Disk) (e p : LedgerEvent) (f : File)
    → again.ancestors_clean ≡ true
    → Grows h e p f (append h disk e f).1
    → append h again e (append h disk e f).1 ≡ (err ledger_error, (append h disk e f).1)
append_again h disk again e p f clean g =
    refused_again h again e (append h disk e f).1 (g.events ++ p ∷ []) clean g.read_after
      (any-last _ g.events p ((eq_iff p.event_id e.event_id).1 g.seals.same.same_id))

-- Attempts to append, one after the other, each with what the disk does during it.
unfoldable pub append_each : Host → List (Disk × LedgerEvent) → File → File
append_each h [] f = f
append_each h ((disk, e) ∷ rest) f = append_each h rest (append h disk e f).1

-- The events of one file are the first events of another one.
pub record Extends (h : Host) (before after : File) (es : List LedgerEvent) : Type 0 where
  pub old : List LedgerEvent
  pub new : List LedgerEvent
  pub was_read : read_events h before ≡ ok old
  pub keeps : es ≡ old ++ new

pub append-Extends :
    (h : Host) (laws : IsoLaws h) (disk : Disk) (e : LedgerEvent) (f : File) (es : List LedgerEvent)
    → read_events h (append h disk e f).1 ≡ ok es
    → Extends h f (append h disk e f).1 es
append-Extends h laws disk e f es r = elim (Result-cases (append h disk e f).0) [
  | inl (p, done) ↦
      let g = append-Grows h laws disk e p f done in
      record {
        old = g.events;
        new = p ∷ [];
        was_read = g.read_before;
        keeps = ok-injective (sym r ∙ g.read_after);
      }
  | inr (x, failed) ↦ elim (append_failed h laws disk e f x failed) [
    | as_before same ↦ record {
      old = es;
      new = [];
      was_read = sym same ∙ r;
      keeps = sym (append-nil es);
    }
    | torn _ _ corrupt ↦ absurd (cc (corrupt, r))
    | whole p _ g ↦ record {
      old = g.events;
      new = p ∷ [];
      was_read = g.read_before;
      keeps = ok-injective (sym r ∙ g.read_after);
    }
  ]
]

-- Whatever attempts were made, with whatever failures, given the laws of ISO dates: if the file can
-- be read after them, it could be read before them, and begins with the events read then, in order.
pub append_each-Extends :
    (h : Host) (laws : IsoLaws h) (attempts : List (Disk × LedgerEvent)) (f : File)
    (es : List LedgerEvent)
    → read_events h (append_each h attempts f) ≡ ok es
    → Extends h f (append_each h attempts f) es
unfolding append_each
append_each-Extends h laws [] f es r = record {
  old = es;
  new = [];
  was_read = r;
  keeps = sym (append-nil es);
}
append_each-Extends h laws ((disk, e) ∷ rest) f es r =
    let later = append_each-Extends h laws rest (append h disk e f).1 es r in
    let first = append-Extends h laws disk e f later.old later.was_read in
    record {
      old = first.old;
      new = first.new ++ later.new;
      was_read = first.was_read;
      keeps =
          later.keeps
          ∙ ap (λ (t : List LedgerEvent). t ++ later.new) first.keeps
          ∙ append_assoc first.old first.new later.new;
    }
