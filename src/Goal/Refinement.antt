-- ===== src/Goal/Refinement.antt =====
-- The semantics that goal.rs promises in its header, as a step relation, and `advance` against it.
use apex_os_rv.Prelude.{
  ℕ, suc, ◌+◌, ◌<◌, ◌≡◌, ◌≢◌, refl, true, Option, [], ◌∷◌, Text, leb, Bool-cases, inl, inr,
  if◌then◌else◌, arith,
}
use apex_os_rv.Protocol.Wire.{Wire, GoalState, done, failed, blocked}
use apex_os_rv.Goal.Driver.{
  GoalDriver, TurnResult, pending, stalled, completed, Verdict, is_acting, u32, budget_detail,
  stalled_detail, emit_state, advance,
}
use apex_os_rv.Goal.Lifecycle.{IsValid}

pub data Phase : Type 0 where
  in_flight : ℕ → Phase  -- the step
  over : GoalState → ℕ → Phase  -- parked or terminal, at the step that was in flight

-- One turn end under a budget: from a phase, by what was observed, to a phase, with the detail that
-- the event carries.
pub data Turn (budget : ℕ) : Phase → TurnResult → Phase → Text → Type 0 where
  proceed :
      {s : ℕ} {steer : Option Text}
      → s < budget
      → Turn budget (in_flight s) (completed (Verdict.continue steer)) (in_flight (suc s)) []
  exhaust :
      {s : ℕ} {steer : Option Text}
      → s ≡ budget
      → Turn budget (in_flight s) (completed (Verdict.continue steer)) (over done s) budget_detail
  conclude : {s : ℕ} → Turn budget (in_flight s) (completed Verdict.done) (over done s) []
  park :
      {s : ℕ} {reason : Text}
      → Turn budget (in_flight s) (completed (Verdict.blocked reason)) (over blocked s) reason
  stall : {s : ℕ} → Turn budget (in_flight s) stalled (over failed s) stalled_detail

abbrev pub phase : GoalDriver → Phase
phase d = if is_acting d.state then in_flight d.step else over d.state d.step

module _ (w : Wire) where
  -- While acting, a turn that ended takes a valid driver along a step of the relation, and emits
  -- one event, of the new driver with the detail of that step.
  pub advance-Turn :
      (d : GoalDriver) (r : TurnResult)
      → IsValid d
      → is_acting d.state ≡ true
      → r ≢ pending
      → (detail : Text) × Turn d.max_steps (phase d) r (phase (advance w d r).0) detail
        × ((advance w d r).1 ≡ emit_state w (advance w d r).0 detail ∷ [])
  unfolding advance
  advance-Turn d pending h a e = absurd (e refl)
  advance-Turn d stalled h a e = (stalled_detail, rw a stall, rw a)
  advance-Turn d (completed Verdict.done) h a e = ([], rw a conclude, rw a)
  advance-Turn d (completed (Verdict.blocked reason)) h a e = (reason, rw a park, rw a)
  advance-Turn d (completed (Verdict.continue steer)) h a e =
      elim (Bool-cases (leb d.max_steps d.step)) [
        | inl spent ↦ (budget_detail, rw (a, spent) (exhaust (ground arith)), rw (a, spent))
        | inr room ↦
            let kept : u32 (d.step + 1) ≡ suc d.step = ground arith in
            ([], rw (a, room, kept, a) (proceed (ground arith)), rw (a, room))
      ]

-- The relation leaves no choice.
pub Turn-deterministic :
    {budget : ℕ} {p q q' : Phase} {r : TurnResult} {t t' : Text}
    → Turn budget p r q t
    → Turn budget p r q' t'
    → (q ≡ q') × (t ≡ t')
Turn-deterministic (proceed h) (proceed k) = (refl, refl)
Turn-deterministic (proceed h) (exhaust k) = absurd (omega arith)
Turn-deterministic (exhaust h) (proceed k) = absurd (omega arith)
Turn-deterministic (exhaust h) (exhaust k) = (refl, refl)
Turn-deterministic conclude conclude = (refl, refl)
Turn-deterministic park park = (refl, refl)
Turn-deterministic stall stall = (refl, refl)
