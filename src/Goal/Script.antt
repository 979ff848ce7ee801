-- ===== src/Goal/Script.antt =====
-- `ScriptedInference` and the compiled-in transcripts (agent-core/src/goal.rs).
pub mod Narrate
pub mod Turns
use native.Mathlib.Numerals.{add-one}
use mathlib.Core.Option.{some_inj}
use apex_os_rv.Prelude.{
  subst, sym, ◌≢◌, inl, inr, Bool-cases, ℕ, zero, suc, ◌+◌, ◌≤◌, ◌≡◌, refl, Option, none, some,
  List, [], ◌∷◌, ◌++◌, map, Text, codes, get_elem?, drop, append_assoc, ap, ◌∙◌, ◌<◌, All, true,
  false, ltb, if◌then◌else◌, arith, drop-eq-nil, drop-eq-cons,
}
use apex_os_rv.Protocol.Wire.{Wire, GoalId, GoalState}
use apex_os_rv.Protocol.Event.{Event, goal_state_changed}
use apex_os_rv.Goal.Lifecycle.{IsValid, start-IsValid}
use apex_os_rv.Goal.Run.{run-suc, run-over}
use apex_os_rv.Goal.Driver.{
  TurnResult, TickContext, Inference, Verdict, completed, stalled, tick_context, advance, start,
  clamp, max_steps_ceil, GoalDriver, stalled_detail, budget_detail, run, is_acting,
}

pub data ScriptStep : Type 0 where
  continue : ScriptStep
  continue_with : Text → ScriptStep
  done : ScriptStep
  blocked : Text → ScriptStep
  stall : ScriptStep
  pending : ScriptStep

pub record ScriptedInference : Type 0 where
  pub steps : List ScriptStep
  pub at : ℕ

-- `ScriptedInference::new`
unfoldable pub new : List ScriptStep → ScriptedInference
new steps = record { steps = steps; at = 0 }

-- What the entry at the cursor reads as; past the end of the script it reads as a stall.
unfoldable pub reading : Option ScriptStep → TurnResult
reading (some ScriptStep.continue) = completed (Verdict.continue none)
reading (some (ScriptStep.continue_with s)) = completed (Verdict.continue (some s))
reading (some ScriptStep.done) = completed Verdict.done
reading (some (ScriptStep.blocked r)) = completed (Verdict.blocked r)
reading (some ScriptStep.stall) = stalled
reading (some ScriptStep.pending) = TurnResult.pending
reading none = stalled

-- A pending entry is not consumed; every other one, and the end of the script, moves the cursor.
unfoldable pub next : Inference ScriptedInference
unfolding reading
next s ctx = elim (get_elem? s.steps s.at) [
  | some ScriptStep.pending ↦ (TurnResult.pending, s)
  | entry ↦ (reading entry, record s { at = s.at + 1 })
]

abbrev pub script_success : List ScriptStep
script_success =
    continue ∷ continue_with (codes "summarize sensor coverage, then wrap up") ∷ done ∷ []

abbrev pub script_stall : List ScriptStep
script_stall = continue ∷ stall ∷ []

abbrev pub script_hang : List ScriptStep
script_hang = continue ∷ ScriptStep.pending ∷ []

-- A transition as its event shows it: the state, the step and the detail.
abbrev pub Shown : Type 0
Shown = GoalState × ℕ × Text

-- What a script without pending entries does to a goal at step `s`, read off the script.
abbrev pub narrate : ℕ → ℕ → List ScriptStep → List Shown
narrate budget s [] = (GoalState.failed, s, stalled_detail) ∷ []
narrate budget s (continue ∷ rest) =
    let onward = (GoalState.acting, suc s, []) ∷ narrate budget (suc s) rest in
    if ltb s budget then onward else (GoalState.done, s, budget_detail) ∷ []
narrate budget s (continue_with steer ∷ rest) =
    let onward = (GoalState.acting, suc s, []) ∷ narrate budget (suc s) rest in
    if ltb s budget then onward else (GoalState.done, s, budget_detail) ∷ []
narrate budget s (done ∷ rest) = (GoalState.done, s, []) ∷ []
narrate budget s (blocked reason ∷ rest) = (GoalState.blocked, s, reason) ∷ []
narrate budget s (stall ∷ rest) = (GoalState.failed, s, stalled_detail) ∷ []
narrate budget s (pending ∷ rest) = []

abbrev pub IsPrompt : ScriptStep → Type 0
IsPrompt ScriptStep.pending = ⊥
IsPrompt _ = Unit {0}
