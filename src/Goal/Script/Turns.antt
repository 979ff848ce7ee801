-- ===== src/Goal/Script/Turns.antt =====
-- Scripts whose turns complete (agent-core/src/goal.rs).
use mathlib.Core.Option.{some_inj}
use apex_os_rv.Prelude.{
  subst, sym, ◌≢◌, ℕ, zero, suc, ◌≡◌, refl, Option, none, some, List, [], ◌∷◌, get_elem?, All,
  arith,
}
use apex_os_rv.Goal.Run.{Completes}
use apex_os_rv.Goal.Driver.{TurnResult, TickContext}
use apex_os_rv.Goal.Script.{ScriptStep, ScriptedInference, reading, next, IsPrompt}

IsPrompt-get_elem? :
    (xs : List ScriptStep) (i : ℕ) (x : ScriptStep)
    → All IsPrompt xs
    → get_elem? xs i ≡ some x
    → IsPrompt x
IsPrompt-get_elem? [] i x p e = absurd (ground arith)
IsPrompt-get_elem? (y ∷ xs) zero x (p, ps) e = subst IsPrompt (some_inj.0 e) p
IsPrompt-get_elem? (y ∷ xs) (suc i) x (p, ps) e = IsPrompt-get_elem? xs i x ps e

-- A turn completes and keeps the script, whatever the entry at the cursor is.
entry_ends :
    (s : ScriptedInference) (c : TickContext) (entry : Option ScriptStep)
    → get_elem? s.steps s.at ≡ entry
    → All IsPrompt s.steps
    → ((next s c).0 ≢ TurnResult.pending) × ((next s c).1.steps ≡ s.steps)
unfolding next reading
entry_ends s c none e p = rw (e, next) ((λ q. cc), refl)
entry_ends s c (some ScriptStep.pending) e p =
    absurd (IsPrompt-get_elem? s.steps s.at ScriptStep.pending p e)
entry_ends s c (some x) e p = rw (e, next) ((λ q. cc), refl)

abbrev pub IsPrompted : ScriptedInference → Type 0
IsPrompted s = All IsPrompt s.steps

-- A script without pending entries is an inference whose turns complete.
pub next-Completes : Completes next IsPrompted
next-Completes = record {
  ends = λ s c p. (entry_ends s c (get_elem? s.steps s.at) refl p).0;
  keeps = λ s c p. subst (All IsPrompt) (sym (entry_ends s c (get_elem? s.steps s.at) refl p).1) p;
}
