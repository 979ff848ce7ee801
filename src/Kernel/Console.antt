-- ===== src/Kernel/Console.antt =====
-- What the kernel prints (kernel/src/uart.rs, the macro `println`; kernel/src/agent.rs, `emit`). A part
-- of the kernel is the lines that it prints, in order, and what it comes to, as a panic leaves the
-- lines before it on the port. serde's printing and reading are a parameter.
pub mod Reads
pub mod Contract
use apex_os_rv.Prelude.{
  some, ℕ, ◌≡◌, refl, ap, ◌∙◌, Bool, true, false, Option, List, [], ◌∷◌, ◌++◌, append_assoc, Text,
  Outcome, returned, panicked, out_of_fuel, expect, if◌then◌else◌,
}
use apex_os_rv.Protocol.Wire.{Wire}
use apex_os_rv.Protocol.Event.{Event}
use apex_os_rv.Str.Lines.{newline}
use apex_os_rv.Str.Utf8.{bytes}
use apex_os_rv.Kernel.Uart.{write_str}

-- The bytes that `println!` sends for a line.
unfoldable pub println_bytes : Text → List ℕ
println_bytes line = write_str (bytes (line ++ newline ∷ []))

-- The bytes that lines send, one behind the other.
unfoldable pub serial : List Text → List ℕ
serial [] = []
serial (line ∷ lines) = println_bytes line ++ serial lines

abbrev pub Console : Type 0 → Type 0
Console A = List Text × Outcome A

abbrev pub resume : {A B : Type 0} → List Text → Outcome A → (A → Console B) → Console B
resume lines (returned a) f = let (more, o) = f a in (lines ++ more, o)
resume lines panicked f = (lines, panicked)
resume lines out_of_fuel f = (lines, out_of_fuel)

infixl 1 ◌>>=◌
infixl 1 ◌>>◌
abbrev pub ◌>>=◌ : {A B : Type 0} → Console A → (A → Console B) → Console B
c >>= f = let (lines, o) = c in resume lines o f

abbrev pub ◌>>◌ : {A B : Type 0} → Console A → Console B → Console B
c >> d = c >>= λ _. d

abbrev pub pure : {A : Type 0} → A → Console A
pure a = ([], returned a)

abbrev pub println : Text → Console Unit
println line = (line ∷ [], returned tt)

abbrev pub panic : {A : Type 0} → Console A
panic = ([], panicked)

-- `unwrap`
abbrev pub unwrap : {A : Type 0} → Option A → Console A
unwrap o = ([], expect o)

-- `assert!` and `assert_eq!`
abbrev pub assert : Bool → Console Unit
assert b = if b then pure tt else panic

-- `serde_json` at events and at trees of values.
pub record Json (w : Wire) : Type 0 where
  pub to_string : Event w → Option Text
  pub from_str : Text → Option (Event w)
  pub value_from_str : Text → Option w.Value
  pub to_value : Event w → Option w.Value
  pub value_eq : w.Value → w.Value → Bool

-- `emit`
unfoldable pub emit : {w : Wire} → Json w → Event w → Console Unit
emit json ev = unwrap (json.to_string ev) >>= println

-- The sink of a run of events.
unfoldable pub emit_all : {w : Wire} → Json w → List (Event w) → Console Unit
unfolding emit
emit_all json [] = pure tt
emit_all json (ev ∷ evs) = emit json ev >> emit_all json evs

-- A part that prints just these lines and returns just this.
abbrev pub Prints : {A : Type 0} → Console A → List Text → A → Type 0
Prints c lines a = c ≡ (lines, returned a)

module _ {A B : Type 0} where
  pub bind-Prints :
      (c : Console A) (f : A → Console B) {lines : List Text} {a : A}
      → Prints c lines a
      → (c >>= f) ≡ (lines ++ (f a).0, (f a).1)
  bind-Prints c f e = ap (λ x. x >>= f) e

  -- Of two parts that print, the second's lines stand behind the first's.
  pub and_then-Prints :
      (c : Console A) (f : A → Console B) {lines more : List Text} {a : A} {b : B}
      → Prints c lines a
      → Prints (f a) more b
      → Prints (c >>= f) (lines ++ more) b
  and_then-Prints c f {lines = lines} e h = bind-Prints c f e ∙ ap (λ x. (lines ++ x.0, x.1)) h

-- The text that serde makes of an event.
abbrev pub PrintsAs : {w : Wire} → Json w → Event w → Text → Type 0
PrintsAs json ev t = json.to_string ev ≡ some t
