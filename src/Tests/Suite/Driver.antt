-- ===== src/Tests/Suite/Driver.antt =====
-- The tests of the goal driver (agent-core/src/goal.rs, `mod tests`).
use apex_os_rv.Prelude.{
  ℕ, zero, suc, ◌+◌, ◌≡◌, refl, Bool, true, false, not, ◌&&◌, ◌||◌, Option, none, some, List, [],
  ◌∷◌, ◌++◌, Text, codes, ◌==◌, list_eq, nat_eq, eqb, length, get_elem?, get_last?, if◌then◌else◌,
}
use apex_os_rv.Protocol.Wire.{GoalState, acting, blocked, done, failed}
use apex_os_rv.Protocol.Event.{Event, goal_state_changed}
use apex_os_rv.Goal.Driver.{
  GoalDriver, Inference, Verdict, completed, pending, stalled, start, advance, poll, run,
  tick_context, max_steps_ceil,
}
use apex_os_rv.Goal.Script
use apex_os_rv.Goal.Script.{
  ScriptStep, ScriptedInference, new, script_success, script_stall, script_hang,
}
use apex_os_rv.Tests.Values.{plain}

-- State, step, detail and yolo.
abbrev Entry : Type 0
Entry = GoalState × ℕ × Text × Bool

abbrev rank : GoalState → ℕ
rank GoalState.planning = 0
rank GoalState.acting = 1
rank GoalState.blocked = 2
rank GoalState.reflecting = 3
rank GoalState.done = 4
rank GoalState.failed = 5
rank GoalState.cancelled = 6

abbrev same_state : GoalState → GoalState → Bool
same_state s t = eqb (rank s) (rank t)

abbrev is_entry : GoalState → ℕ → Text → Entry → Bool
is_entry s n d (s', n', d', yolo) = same_state s s' && eqb n n' && (d == d')

abbrev onto_entries : Event plain → Option (List Entry) → Option (List Entry)
onto_entries (goal_state_changed goal objective state step max detail yolo) (some entries) =
    some ((state, step, detail, yolo) ∷ entries)
onto_entries _ _ = none

-- The test's sink panics at any other event.
abbrev entries_of : List (Event plain) → Option (List Entry)
entries_of [] = some []
entries_of (e ∷ es) = onto_entries e (entries_of es)

abbrev collected :
    Option (GoalDriver × ScriptedInference × List (Event plain)) → Option (GoalState × List Entry)
collected none = none
collected (some (d, s, log)) = elim (entries_of log) [
  | none ↦ none
  | some entries ↦ some (d.state, entries)
]

abbrev collect : ℕ → List ScriptStep → Option (GoalState × List Entry)
collect max_steps script =
    let (d, events) = start plain 1 (codes "test objective") max_steps in
    collected (run plain Script.next 9 d (new script) events)

abbrev where_collected : Option (GoalState × List Entry) → (GoalState → List Entry → Bool) → Bool
where_collected none test = false
where_collected (some (terminal, ev)) test = test terminal ev

abbrev where_some : {A : Type 0} → Option A → (A → Bool) → Bool
where_some none test = false
where_some (some a) test = test a

abbrev all_of : {A : Type 0} → (A → Bool) → List A → Bool
all_of test [] = true
all_of test (a ∷ more) = test a && all_of test more

abbrev ends : GoalState → ℕ → Text → Option (GoalState × List Entry) → Bool
ends state step detail c = where_collected c (λ terminal ev.
    same_state terminal state && where_some (get_last? ev) (is_entry state step detail))

abbrev stall_text : Text
stall_text = codes "step stalled — no completion"

abbrev success_walk_acting_1_2_3_then_done_with_empty_details : Bool
success_walk_acting_1_2_3_then_done_with_empty_details =
    where_collected (collect 8 script_success) (λ terminal ev.
      same_state terminal done
      && eqb (length ev) 4
      && where_some (get_elem? ev 0) (is_entry acting 1 [])
      && where_some (get_elem? ev 1) (is_entry acting 2 [])
      && where_some (get_elem? ev 2) (is_entry acting 3 [])
      && where_some (get_elem? ev 3) (is_entry done 3 []))

abbrev budget_exhaustion_is_done_not_failed_with_upstream_detail : Bool
budget_exhaustion_is_done_not_failed_with_upstream_detail =
    ends done 2 (codes "step budget reached")
      (collect 2 (ScriptStep.continue ∷ ScriptStep.continue ∷ ScriptStep.continue ∷ []))

abbrev blocked_parks_with_reason_as_detail : Bool
blocked_parks_with_reason_as_detail = ends blocked 2 (codes "waiting on operator hardware") (
    collect 8
      (ScriptStep.continue ∷ ScriptStep.blocked (codes "waiting on operator hardware") ∷ []))

abbrev stall_fails_with_upstream_detail : Bool
stall_fails_with_upstream_detail = ends failed 2 stall_text (collect 8 script_stall)

abbrev exhausted_script_reads_as_stall_never_hangs : Bool
exhausted_script_reads_as_stall_never_hangs =
    where_collected (collect 8 (ScriptStep.continue ∷ [])) (λ terminal ev.
      same_state terminal failed
      && where_some (get_last? ev) (λ (state, step, detail, yolo). detail == stall_text))

abbrev max_steps_clamps_like_goal_create : Bool
max_steps_clamps_like_goal_create =
    eqb (start plain 3 (codes "clamp") 0).0.max_steps 1
    && eqb (start plain 3 (codes "clamp") 1000).0.max_steps max_steps_ceil

abbrev exercised : GoalState → Bool
exercised state =
    same_state state acting
    || same_state state blocked
    || same_state state done
    || same_state state failed

abbrev only_upstream_exercised_states_and_yolo_false_everywhere : Bool
only_upstream_exercised_states_and_yolo_false_everywhere =
    all_of
      (λ script.
        where_collected (collect 8 script)
          (λ _ ev. all_of (λ (state, step, detail, yolo). exercised state && not yolo) ev))
      (script_success ∷ script_stall ∷ [])

-- The five polls of the loop.
abbrev poll_times :
    {S : Type 0}
    → Inference S
    → ℕ
    → GoalDriver
    → S
    → List (Event plain)
    → GoalDriver × S × List (Event plain)
poll_times next zero d s log = (d, s, log)
poll_times next (suc n) d s log =
    let (d', s', events) = poll plain next d s in poll_times next n d' s' (log ++ events)

abbrev pending_leaves_the_goal_untouched_until_the_watchdog_stalls_it : Bool
pending_leaves_the_goal_untouched_until_the_watchdog_stalls_it =
    let (d0, first) = start plain 9 (codes "hang") 8 in
    let (d, s, log) = poll_times Script.next 5 d0 (new script_hang) first in
    let (d', more) = advance plain d stalled in
    same_state d.state acting
    && eqb d.step 2
    && same_state d'.state failed
    && where_some (entries_of (log ++ more)) (λ ev.
      eqb (length ev) 3
      && where_some (get_elem? ev 1) (is_entry acting 2 [])
      && where_some (get_last? ev) (λ (state, step, detail, yolo). detail == stall_text))

-- The first test's `Probe`: the steers that it saw.
abbrev surfacing : Inference (List (Option Text))
surfacing saw ctx = (
  elim saw [
    | [] ↦ completed (Verdict.continue (some (codes "focus")))
    | a ∷ [] ↦ completed (Verdict.continue none)
    | a ∷ b ∷ more ↦ completed Verdict.done
  ],
  saw ++ ctx.steer ∷ [],
)

abbrev is_steer : Option Text → Option Text → Bool
is_steer none none = true
is_steer (some a) (some b) = a == b
is_steer _ _ = false

abbrev steer_surfaces_in_the_next_tick_context : Bool
steer_surfaces_in_the_next_tick_context =
    let (d, events) = start plain 2 (codes "steer test") 8 in
    where_some (run plain surfacing 9 d [] events) (λ (d', saw, log).
      same_state d'.state done
      && eqb (length saw) 3
      && where_some (get_elem? saw 0) (is_steer none)
      && where_some (get_elem? saw 1) (is_steer (some (codes "focus")))
      && where_some (get_elem? saw 2) (is_steer none))

-- The second test's `Probe`: its calls, and whether its assertions held.
abbrev persisting : Inference (ℕ × Bool)
persisting (calls, held) ctx =
    let kept = held && is_steer ctx.steer (some (codes "hold this")) in
    if eqb calls 0
    then (completed (Verdict.continue (some (codes "hold this"))), (1, held))
    else if eqb calls 1 || eqb calls 2
    then (pending, (calls + 1, kept))
    else (completed Verdict.done, (calls + 1, kept))

abbrev steer_persists_across_pending_polls_of_the_same_step : Bool
steer_persists_across_pending_polls_of_the_same_step =
    let (d, events) = start plain 10 (codes "steer-persist") 8 in
    let (d', (calls, held), log) = poll_times persisting 4 d (0, true) events in
    same_state d'.state done && held

tests_hold :
    (success_walk_acting_1_2_3_then_done_with_empty_details
      && budget_exhaustion_is_done_not_failed_with_upstream_detail
      && blocked_parks_with_reason_as_detail && stall_fails_with_upstream_detail
      && exhausted_script_reads_as_stall_never_hangs && max_steps_clamps_like_goal_create
      && only_upstream_exercised_states_and_yolo_false_everywhere
      && pending_leaves_the_goal_untouched_until_the_watchdog_stalls_it
      && steer_surfaces_in_the_next_tick_context
      && steer_persists_across_pending_polls_of_the_same_step)
    ≡ true
unfolding start run Script.next Script.reading new advance poll tick_context
tests_hold = refl
