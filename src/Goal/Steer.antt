-- ===== src/Goal/Steer.antt =====
-- What the inference is shown of the steers (agent-core/src/goal.rs, `advance` and `poll`).
use apex_os_rv.Prelude.{
  ℕ, zero, suc, ◌≡◌, refl, ap, sym, ◌∙◌, subst, true, false, Option, none, List, [], ◌∷◌, Text,
  Bool-cases, inl, inr, arith, if◌then◌else◌,
}
use apex_os_rv.Protocol.Wire.{Wire}
use apex_os_rv.Goal.Driver.{
  GoalDriver, TurnResult, Inference, Verdict, completed, pending, is_acting, advance, tick_context,
  poll,
}
use apex_os_rv.Goal.Run.{poll-advance}

-- The steer that is to be shown after a turn: a turn that is pending leaves it, a verdict to go on sets
-- or clears it.
abbrev pub steer_after : TurnResult → Option Text → Option Text
steer_after pending s = s
steer_after (completed (Verdict.continue t)) s = t
steer_after _ s = none

-- Turns, each with the steer that was shown, that follow a steer.
abbrev pub AreSteered : Option Text → List (Option Text × TurnResult) → Type 0
AreSteered s [] = Unit
AreSteered s ((shown, r) ∷ turns) = (shown ≡ s) × AreSteered (steer_after r s) turns

module _ (w : Wire) {S : Type 0} (next : Inference S) where
  -- The turns of `n` polls, with what each call of the inference is shown and answers.
  abbrev pub turns : ℕ → GoalDriver → S → List (Option Text × TurnResult)
  turns zero d s = []
  turns (suc n) d s =
      let ctx = tick_context d in
      let (d', s', events) = poll w next d s in
      let rest = turns n d' s' in
      if is_acting d.state then (ctx.steer, (next s ctx).0) ∷ rest else []

  over-turns : (n : ℕ) (d : GoalDriver) (s : S) → is_acting d.state ≡ false → turns n d s ≡ []
  over-turns zero d s a = refl
  over-turns (suc n) d s a = rw a refl

  -- The driver that a turn leaves has the steer of that turn, or is over.
  advance-steer :
      (d : GoalDriver) (r : TurnResult)
      → is_acting d.state ≡ true
      → is_acting (advance w d r).0.state ≡ true
      → (advance w d r).0.steer ≡ steer_after r d.steer
  unfolding advance
  advance-steer d r a on = ground (arith)

  poll-steer :
      (d : GoalDriver) (s : S)
      → is_acting d.state ≡ true
      → is_acting (poll w next d s).0.state ≡ true
      → (poll w next d s).0.steer ≡ steer_after (next s (tick_context d)).0 d.steer
  poll-steer d s a on =
      let e = ap (λ x. x.0) (poll-advance w next d s a) in
      ap (λ d. d.steer) e
      ∙ advance-steer d (next s (tick_context d)).0 a (sym (ap (λ d. is_acting d.state) e) ∙ on)

  -- Over any number of polls of any driver, with any inference: the first call of the inference
  -- is shown the driver's steer, and each later call the one that the turn before it left: a
  -- pending turn leaves the steer that it was shown, and a verdict to go on sets its own or
  -- clears it.
  pub turns-AreSteered : (n : ℕ) (d : GoalDriver) (s : S) → AreSteered d.steer (turns n d s)
  turns-AreSteered zero d s = tt
  turns-AreSteered (suc n) d s = elim (Bool-cases (is_acting d.state)) [
    | inl a ↦ rw a (
      unfold tick_context in refl,
      elim (Bool-cases (is_acting (poll w next d s).0.state)) [
        | inl on ↦
            subst (λ t. AreSteered t (turns n (poll w next d s).0 (poll w next d s).1))
              (poll-steer d s a on) (turns-AreSteered n (poll w next d s).0 (poll w next d s).1)
        | inr over ↦ subst (AreSteered _) (sym (over-turns n _ (poll w next d s).1 over)) tt
      ],
    )
    | inr a ↦ rw a tt
  ]
