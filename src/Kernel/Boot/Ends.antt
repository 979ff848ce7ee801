-- ===== src/Kernel/Boot/Ends.antt =====
-- Chains of the kernel's parts: what holds of the whole, and that each of them ends.
use apex_os_rv.Prelude.{
  ℕ, ◌≡◌, ◌≢◌, refl, ap, sym, ◌∙◌, subst, Bool, true, false, List, [], ◌∷◌, ◌++◌, append_assoc,
  Text, Outcome, returned, panicked, out_of_fuel, expect_total, if◌then◌else◌,
}
use apex_os_rv.Protocol.Wire.{Wire}
use apex_os_rv.Protocol.Event.{Event}
use apex_os_rv.State.{SystemState, default, apply}
use apex_os_rv.Kernel.Agent.{demo_events, demo_holds}
use apex_os_rv.Kernel.Console.{
  Console, Json, println, pure, unwrap, assert, emit, emit_all, ◌>>=◌, ◌>>◌,
}
use apex_os_rv.Kernel.Proto
use apex_os_rv.Kernel.Proto.{Literals}
use apex_os_rv.Kernel.Proto.Stable.{opened, shut, run-Gate}
use apex_os_rv.Kernel.Boot.{Features, heap_size, fold_events, fold_demo, overdraw}

abbrev pub EndsWith : Text → List Text → Type 0
EndsWith line lines = (before : List Text) × (lines ≡ before ++ line ∷ [])

pub EndsWith-append :
    (line : Text) (more lines : List Text) → EndsWith line lines → EndsWith line (more ++ lines)
EndsWith-append line more lines (before, e) =
    (more ++ before, ap (λ r. more ++ r) e ∙ sym (append_assoc more before (line ∷ [])))

-- What holds of parts of the kernel and does not mind lines in front.
pub record Stays {A : Type 0} (P : Console A → Type 0) : Type 0 where
  pub behind : (more lines : List Text) (o : Outcome A) → P (lines, o) → P (more ++ lines, o)
  pub panics : (lines : List Text) → P (lines, panicked)

-- Such a thing holds of a chain if it holds of the second part wherever the first returns.
pub bind-Stays :
    {A B : Type 0} {P : Console B → Type 0}
    → Stays P
    → (c : Console A) (f : A → Console B) → c.1 ≢ out_of_fuel
    → ((lines : List Text) (a : A) → c ≡ (lines, returned a) → P (f a))
    → P (c >>= f)
bind-Stays s (lines, returned a) f h k = s.behind lines (f a).0 (f a).1 (k lines a refl)
bind-Stays s (lines, panicked) f h k = s.panics lines
bind-Stays s (lines, out_of_fuel) f h k = absurd (h refl)

-- A part that ends.
abbrev pub Ends : {A : Type 0} → Console A → Type 0
Ends c = c.1 ≢ out_of_fuel

pub Ends-Stays : {A : Type 0} → Stays (Ends {A = A})
Ends-Stays = record { behind = λ more lines o h. h; panics = λ lines e. cc }

pub assert-Ends : (b : Bool) → Ends (assert b)
assert-Ends true = λ e. cc
assert-Ends false = λ e. cc

module _ {w : Wire} (json : Json w) where
  emit-Ends : (ev : Event w) → Ends (emit json ev)
  unfolding emit
  emit-Ends ev =
      bind-Stays Ends-Stays (unwrap (json.to_string ev)) println (expect_total (json.to_string ev))
        (λ lines a e. λ f. cc)

  pub emit_all-Ends : (evs : List (Event w)) → Ends (emit_all json evs)
  unfolding emit_all
  emit_all-Ends [] = λ e. cc
  emit_all-Ends (ev ∷ evs) =
      bind-Stays Ends-Stays (emit json ev) (λ _. emit_all json evs) (emit-Ends ev)
        (λ lines a e. emit_all-Ends evs)

  fold_events-Ends : (st : SystemState w) (evs : List (Event w)) → Ends (fold_events json st evs)
  unfolding fold_events
  fold_events-Ends st [] = λ e. cc
  fold_events-Ends st (ev ∷ evs) =
      bind-Stays Ends-Stays (emit json ev) (λ _. fold_events json (apply st ev) evs) (emit-Ends ev)
        (λ lines a e. fold_events-Ends (apply st ev) evs)

  pub fold_demo-Ends : (empty content : w.Value) → Ends (fold_demo json empty content)
  unfolding fold_demo
  fold_demo-Ends empty content =
      bind-Stays Ends-Stays (fold_events json (default w) (demo_events w empty content)) _
        (fold_events-Ends (default w) (demo_events w empty content))
        (λ lines st e.
          bind-Stays Ends-Stays (assert (demo_holds w empty content st)) _
            (assert-Ends (demo_holds w empty content st)) (λ lines a e f. cc))

pub proto-Ends : {w : Wire} (json : Json w) (lit : Literals w) → Ends (Proto.run json lit)
proto-Ends json lit = elim (run-Gate json lit) [
  | opened ls stable prints ↦ subst Ends (sym prints) (λ e. cc)
  | shut ls unstable short stops ↦ subst Ends (sym stops) (λ e. cc)
]

drawn-Ends :
    (tiny serves : Bool) (line : Text)
    → Ends (if tiny then assert serves >> println line else pure tt)
drawn-Ends true true line = λ e. cc
drawn-Ends true false line = λ e. cc
drawn-Ends false serves line = λ e. cc

pub overdraw-Ends : (served : ℕ → ℕ → Bool) (f : Features) → Ends (overdraw served f)
unfolding overdraw
overdraw-Ends served f = drawn-Ends f.tiny_heap (served (heap_size f) 4096) _
