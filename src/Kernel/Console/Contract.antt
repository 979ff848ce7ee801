-- ===== src/Kernel/Console/Contract.antt =====
-- The contract of the colony on the serial port: one event to a line. The host is a reader that is
-- independent of the kernel; it passes over a line that is no event.
use apex_os_rv.Prelude.{
  All-append, append_assoc, sym, ℕ, ◌≡◌, refl, ap, ◌∙◌, Option, none, some, List, [], ◌∷◌, ◌++◌,
  append-nil, Text, All,
}
use apex_os_rv.Protocol.Wire.{Wire}
use apex_os_rv.Protocol.Event.{Event}
use apex_os_rv.Kernel.Console.{Json, emit, emit_all, serial, Prints}
use apex_os_rv.Kernel.Console.Reads.{read_lines, IsLine, read_lines-serial}

module _ {w : Wire} (json : Json w) where
  -- Onto the events that were read from the lines behind.
  abbrev onto : Option (Event w) → List (Event w) → List (Event w)
  onto none evs = evs
  onto (some ev) evs = ev ∷ evs

  unfoldable pub events_of : List Text → List (Event w)
  events_of [] = []
  events_of (t ∷ ts) = onto (json.from_str t) (events_of ts)

  -- The events that a host reads from the port.
  unfoldable pub received : List ℕ → List (Event w)
  unfolding events_of
  received port = events_of (read_lines port)

  -- serde prints the event as a text that stands on a line, and reads it back from there.
  abbrev pub IsCarried : Event w → Type 0
  IsCarried ev = (t : Text) × (json.to_string ev ≡ some t) × (json.from_str t ≡ some ev) × IsLine t

  -- Lines, from which a host reads these events.
  pub record Reads (lines : List Text) (evs : List (Event w)) : Type 0 where
    pub are_lines : All IsLine lines
    pub reads : (rest : List Text) → events_of (lines ++ rest) ≡ evs ++ events_of rest

  pub Reads-append :
      {lines more : List Text} {evs others : List (Event w)}
      → Reads lines evs
      → Reads more others
      → Reads (lines ++ more) (evs ++ others)
  Reads-append {lines} {more} {evs} {others} r q = record {
    are_lines = All-append IsLine lines more r.are_lines q.are_lines;
    reads = λ rest.
        ap events_of (append_assoc lines more rest)
        ∙ r.reads (more ++ rest)
        ∙ ap (λ tail. evs ++ tail) (q.reads rest)
        ∙ sym (append_assoc evs others (events_of rest));
  }

  -- A line without an event.
  pub Reads-line : (t : Text) → IsLine t → json.from_str t ≡ none → Reads (t ∷ []) []
  unfolding events_of
  Reads-line t line e = record { are_lines = (line, tt); reads = λ rest. rw e refl }

  pub Reads-event :
      (t : Text) (ev : Event w) → IsLine t → json.from_str t ≡ some ev → Reads (t ∷ []) (ev ∷ [])
  unfolding events_of
  Reads-event t ev line e = record { are_lines = (line, tt); reads = λ rest. rw e refl }

  pub Reads-nil : Reads [] []
  Reads-nil = record { are_lines = tt; reads = λ rest. refl }

  -- A host that reads the port has the events of its lines.
  pub received-Reads :
      (lines : List Text) (evs : List (Event w))
      → Reads lines evs
      → json.from_str [] ≡ none
      → received (serial lines) ≡ evs
  unfolding received events_of
  received-Reads lines evs r no_event =
      ap events_of (read_lines-serial lines r.are_lines)
      ∙ r.reads ([] ∷ [])
      ∙ ap (λ tail. evs ++ onto tail []) no_event
      ∙ append-nil evs

  -- The lines of events that are carried.
  pub record Carried (evs : List (Event w)) : Type 0 where
    pub lines : List Text
    pub prints : Prints (emit_all json evs) lines tt
    pub reads : Reads lines evs

  pub carry : (evs : List (Event w)) → All IsCarried evs → Carried evs
  unfolding emit_all emit
  carry [] h = record { lines = []; prints = refl; reads = Reads-nil }
  carry (ev ∷ evs) ((t, e, r, line), h) =
      let c = carry evs h in
      record {
        lines = t ∷ c.lines;
        prints = rw (e, c.prints) refl;
        reads = Reads-append (Reads-event t ev line r) c.reads;
      }

  -- When serde prints each of the events as a text that stands on a line, and reads it back from
  -- there, and reads no event from an empty line: all of them are emitted, and a host that reads
  -- the bytes on the port, as UTF-8, line by line, with a terminal that passes over a carriage
  -- return before a line feed, has exactly these events.
  pub received-emit_all :
      (evs : List (Event w))
      → All IsCarried evs
      → json.from_str [] ≡ none
      → (lines : List Text) × Prints (emit_all json evs) lines tt × (received (serial lines) ≡ evs)
  received-emit_all evs h no_event =
      let c = carry evs h in (c.lines, c.prints, received-Reads c.lines evs c.reads no_event)
