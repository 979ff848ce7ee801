-- ===== src/Kernel/Watchdog/Keeps.antt =====
-- The loop of the kernel keeps what its rounds keep (kernel/src/agent.rs, `drive_goal`).
use apex_os_rv.Prelude.{
  ℕ, zero, suc, ◌≡◌, ◌≢◌, inl, inr, sym, subst, ◌∙◌, true, false, none, some, Bool-cases, arith,
}
use mathlib.Core.Option.{some_inj}
use apex_os_rv.Protocol.Wire.{Wire}
use apex_os_rv.Goal.Driver.{Inference, is_acting}
use apex_os_rv.Kernel.Watchdog.{Loop, round, drive}
use apex_os_rv.Kernel.Watchdog.Round.{drive-zero, drive-over, drive-suc}

none-ne-some : {A : Type 0} (a : A) → none ≢ some a
none-ne-some a e = ground arith

module _ (w : Wire) {S : Type 0} (next : Inference S) (clock : ℕ → ℕ) (timeout : ℕ) where
  -- What every round of an acting goal keeps holds of the loop when it returns.
  pub drive-keeps :
      (P : Loop w S → Type 0)
      → ((l : Loop w S) → is_acting l.driver.state ≡ true → P l → P (round w next clock timeout l))
      → (fuel : ℕ) (l l' : Loop w S) → P l
      → drive w next clock timeout fuel l ≡ some l'
      → P l'
  drive-keeps P keeps zero l l' p e = elim (Bool-cases (is_acting l.driver.state)) [
    | inl a ↦ absurd (none-ne-some _ (sym (drive-zero w next clock timeout l a) ∙ e))
    | inr a ↦ subst P (some_inj.0 (sym (drive-over w next clock timeout 0 l a) ∙ e)) p
  ]
  drive-keeps P keeps (suc fuel) l l' p e = elim (Bool-cases (is_acting l.driver.state)) [
    | inl a ↦
        drive-keeps P keeps fuel (round w next clock timeout l) l' (keeps l a p)
          (sym (drive-suc w next clock timeout fuel l a) ∙ e)
    | inr a ↦ subst P (some_inj.0 (sym (drive-over w next clock timeout (suc fuel) l a) ∙ e)) p
  ]

  abbrev IsOver : Loop w S → Type 0
  IsOver l = is_acting l.driver.state ≡ false

  -- A loop that returned has a goal that is not acting.
  pub drive-over_when :
      (fuel : ℕ) (l l' : Loop w S)
      → drive w next clock timeout fuel l ≡ some l'
      → is_acting l'.driver.state ≡ false
  drive-over_when zero l l' e = elim (Bool-cases (is_acting l.driver.state)) [
    | inl a ↦ absurd (none-ne-some _ (sym (drive-zero w next clock timeout l a) ∙ e))
    | inr a ↦ subst IsOver (some_inj.0 (sym (drive-over w next clock timeout 0 l a) ∙ e)) a
  ]
  drive-over_when (suc fuel) l l' e = elim (Bool-cases (is_acting l.driver.state)) [
    | inl a ↦
        drive-over_when fuel (round w next clock timeout l) l'
          (sym (drive-suc w next clock timeout fuel l a) ∙ e)
    | inr a ↦ subst IsOver (some_inj.0 (sym (drive-over w next clock timeout (suc fuel) l a) ∙ e)) a
  ]
