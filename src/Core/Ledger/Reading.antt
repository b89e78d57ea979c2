-- ===== src/Core/Ledger/Reading.antt =====
-- What the reading loop of `RunLedger` makes of a file that is one line longer.
use molly.Prelude.{
  String, ◌≡◌, refl, false, not, inl, inr, Option, none, List, [], ◌∷◌, ◌++◌, ◌==◌, any, contains,
  option_eq, option_eq_refl, arith, ok, err, bind, bind-eq-ok, ok-injective, not-eq-false, refuse,
  refuse-eq-ok, Result-cases, option_eq_sound, ap, sym, ◌∙◌, ledger_corruption,
}
use molly.Core.Json.{Json}
use molly.Core.Host.{Host}
use molly.Core.Ledger.{LedgerEvent, from_dict}
use molly.Core.Ledger.File.{
  Line, truncated, empty, undecodable, decoded, accept, read_lines, head_digest,
}

-- What the tests on one line leave known of its event.
pub accept-ok :
    (h : Host) (previous : Option String) (seen : List String) (value : Json) (event : LedgerEvent)
    → accept h previous seen value ≡ ok event
    → (from_dict h value ≡ ok event)
      × (contains seen event.event_id ≡ false)
      × (event.previous_event_sha256 ≡ previous)
unfolding accept
accept-ok h previous seen value event e =
    let (read, valid, e1) = bind-eq-ok (from_dict h value) _ e in
    let (_, fresh, e2) = bind-eq-ok (refuse (contains seen read.event_id) ledger_corruption) _ e1 in
    let (_, linked, e3) =
      bind-eq-ok (refuse (not (option_eq read.previous_event_sha256 previous)) ledger_corruption) _
        e2 in
    let same : read ≡ event = ok-injective e3 in
    let agrees = not-eq-false _ (refuse-eq-ok _ _ linked) in
    (
      rw same at valid,
      rw same at (refuse-eq-ok _ _ fresh),
      rw same at (option_eq_sound read.previous_event_sha256 previous agrees),
    )

pub accept-eq-ok :
    (h : Host) (previous : Option String) (seen : List String) (value : Json) (event : LedgerEvent)
    → from_dict h value ≡ ok event
    → contains seen event.event_id ≡ false
    → event.previous_event_sha256 ≡ previous
    → accept h previous seen value ≡ ok event
unfolding accept
accept-eq-ok h previous seen value event v f l = rw (v, f, l) (rw (option_eq_refl previous) refl)

-- The digest that the next event has to name, from the digest before the first event.
abbrev pub head_from : Option String → List LedgerEvent → Option String
head_from previous [] = previous
head_from previous (event ∷ events) = head_from event.event_sha256 events

head_digest-cons :
    (e : LedgerEvent) (es : List LedgerEvent) → head_digest (e ∷ es) ≡ head_from e.event_sha256 es
unfolding head_digest
head_digest-cons e [] = refl
head_digest-cons e (f ∷ fs) = head_digest-cons f fs

pub head_digest-eq : (es : List LedgerEvent) → head_digest es ≡ head_from none es
unfolding head_digest
head_digest-eq [] = refl
head_digest-eq (e ∷ es) = head_digest-cons e es

-- One more valid, fresh and linked line is one more event.
pub read_lines-snoc :
    (h : Host) (previous : Option String) (seen : List String) (ls : List Line)
    (es : List LedgerEvent) (value : Json) (e : LedgerEvent)
    → read_lines h previous seen ls ≡ ok es
    → from_dict h value ≡ ok e
    → contains seen e.event_id ≡ false
    → any (λ item. item.event_id == e.event_id) es ≡ false
    → e.previous_event_sha256 ≡ head_from previous es
    → read_lines h previous seen (ls ++ decoded value ∷ []) ≡ ok (es ++ e ∷ [])
unfolding read_lines
read_lines-snoc h previous seen [] es value e r v f a l =
    let none_yet : es ≡ [] = ground arith in
    rw (accept-eq-ok h previous seen value e v f (l ∙ ap (head_from previous) none_yet), none_yet)
read_lines-snoc h previous seen (truncated ∷ ls) es value e r v f a l = cc
read_lines-snoc h previous seen (empty ∷ ls) es value e r v f a l = cc
read_lines-snoc h previous seen (undecodable ∷ ls) es value e r v f a l = cc
read_lines-snoc h previous seen (decoded w ∷ ls) es value e r v f a l =
    let (first, taken, r1) = bind-eq-ok (accept h previous seen w) _ r in
    let (later, reads, r2) =
      bind-eq-ok (read_lines h first.event_sha256 (first.event_id ∷ seen) ls) _ r1 in
    let split : es ≡ first ∷ later = sym (ok-injective r2) in
    let apart : any (λ item. item.event_id == e.event_id) (first ∷ later) ≡ false = rw split at a in
    rw (taken, split)
      (rw (
        read_lines-snoc h first.event_sha256 (first.event_id ∷ seen) ls later value e reads v
          (ground arith) (ground arith) (l ∙ ap (head_from previous) split)))

-- A torn line makes the whole file unreadable, and hides no error that was there.
pub read_lines-torn :
    (h : Host) (previous : Option String) (seen : List String) (ls : List Line)
    → read_lines h previous seen (ls ++ truncated ∷ [])
      ≡ bind (read_lines h previous seen ls) (λ _. err ledger_corruption)
unfolding read_lines
read_lines-torn h previous seen [] = refl
read_lines-torn h previous seen (truncated ∷ ls) = refl
read_lines-torn h previous seen (empty ∷ ls) = refl
read_lines-torn h previous seen (undecodable ∷ ls) = refl
read_lines-torn h previous seen (decoded w ∷ ls) = elim (Result-cases (accept h previous seen w)) [
  | inl (event, taken) ↦
      rw taken (ground (arith, read_lines-torn h event.event_sha256 (event.event_id ∷ seen) ls))
  | inr (e, refused) ↦ rw refused
]
