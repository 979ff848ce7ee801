-- ===== src/Kernel/Boot/Fate.antt =====
-- How the kernel ends, for any serde and any of the builds without a mesh.
use apex_os_rv.Prelude.{
  ◌⊎◌, ◌∙◌, ℕ, ◌+◌, ◌*◌, ◌≤◌, ◌<◌, ◌≡◌, refl, ap, sym, subst, Bool, true, false, some, Option, List,
  [], ◌∷◌, ◌++◌, append-nil, Text, codes, returned, panicked, arith, if◌then◌else◌, Bool-cases, inl,
  inr,
}
use apex_os_rv.Protocol.Wire.{Wire}
use apex_os_rv.Goal.Script
use apex_os_rv.Goal.Script.{new}
use apex_os_rv.Kernel.Qemu.{exit_pass, exit_fail}
use apex_os_rv.Kernel.Env.{step_timeout, objective}
use apex_os_rv.Kernel.Probe.{Virtio}
use apex_os_rv.Kernel.Watchdog.{Loop, drive_goal, is_done}
use apex_os_rv.Kernel.Watchdog.Round.{IsClock}
use apex_os_rv.Kernel.Watchdog.Liveness.{drive_goal_ends}
use apex_os_rv.Kernel.Console.{Console, panic, Json, println, pure, emit_all, ◌>>=◌}
use apex_os_rv.Kernel.Proto
use apex_os_rv.Kernel.Proto.{Literals}
use apex_os_rv.Kernel.Proto.Stable.{AreStable, run_iff}
use apex_os_rv.Kernel.Boot.{
  Features, heap_size, alloc_line, polls_line, halting, script_of, panic_line, handled, conclude,
  told, fold_events, fold_demo, overdraw, decide, normal_flow, main, kernel, init, announce,
}
use apex_os_rv.Kernel.Boot
use apex_os_rv.Kernel.Boot.Prints.{init-Prints}
use apex_os_rv.Kernel.Boot.Shows.{Demonstrated, Demonstrated-append, fold_demo-then}
use apex_os_rv.Kernel.Boot.Ends.{
  EndsWith, EndsWith-append, Stays, bind-Stays, Ends, emit_all-Ends, proto-Ends, overdraw-Ends,
}

module _ {w : Wire} (json : Json w) (empty content : w.Value) (clock : ℕ → ℕ)
    (secs goal : Option Text) (fuel : ℕ) (f : Features) where
  -- The loop of the goal in this build.
  abbrev pub goal_loop : Option (Loop w Script.ScriptedInference)
  goal_loop =
      drive_goal w Script.next clock (step_timeout secs) fuel (objective goal) (new (script_of f))

  -- What the end of `run` comes to: a panic, or whether the goal of the loop is done, which is said
  -- last.
  data Told (c : Console Bool) : Type 0 where
    over :
        (l : Loop w Script.ScriptedInference)
        → goal_loop ≡ some l
        → c.1 ≡ returned (is_done l.driver.state)
        → (is_done l.driver.state ≡ true → EndsWith halting c.0)
        → Told c
    broke : c.1 ≡ panicked → Told c

  Told-Stays : Stays Told
  Told-Stays = record {
    behind = λ more lines o t. elim t [
      | over l e r says ↦ over l e r (λ d. EndsWith-append halting more lines (says d))
      | broke r ↦ broke r
    ];
    panics = λ lines. broke refl;
  }

  conclude-EndsWith :
      (done : Bool) (polls : ℕ)
      → ((conclude json done polls).1 ≡ returned done)
        × (done ≡ true → EndsWith halting (conclude json done polls).0)
  unfolding conclude
  conclude-EndsWith true polls = (refl, λ _. (polls_line polls ∷ [], refl))
  conclude-EndsWith false polls = (refl, λ e. absurd (ground arith))

  told-Told : (l : Loop w Script.ScriptedInference) → goal_loop ≡ some l → Told (told json (some l))
  unfolding told
  told-Told l e =
      bind-Stays Told-Stays (emit_all json l.log) _ (emit_all-Ends json l.log) (λ lines a _.
        let (r, says) = conclude-EndsWith (is_done l.driver.state) l.polls in over l e r says)

  -- What `run` comes to: the same, where the demonstration is on the port.
  data Ran (c : Console Bool) : Type 0 where
    over :
        (l : Loop w Script.ScriptedInference)
        → goal_loop ≡ some l
        → c.1 ≡ returned (is_done l.driver.state)
        → (is_done l.driver.state ≡ true → EndsWith halting c.0)
        → Demonstrated json empty content c.0
        → Ran c
    broke : c.1 ≡ panicked → Ran c

  fold_demo-Ran : (c : Console Bool) → Told c → Ran (fold_demo json empty content >>= λ _. c)
  fold_demo-Ran c t = elim (fold_demo-then json empty content (λ _. c)) [
    | inr stops ↦ broke stops
    | inl (demo, same, (more, behind)) ↦ elim t [
      | over l e r says ↦
          over l e (same ∙ r)
            (λ d. subst (EndsWith halting) (sym behind) (EndsWith-append halting more c.0 (says d)))
            demo
      | broke r ↦ broke (same ∙ r)
    ]
  ]

  -- How the kernel ends before the handler of its panics: with the passing word, with the failing
  -- word of code 2, or with a panic.
  data Fate (lit : Literals w) (c : Console ℕ) : Type 0 where
    passes :
        (l : Loop w Script.ScriptedInference) (ls : List Text)
        → goal_loop ≡ some l
        → is_done l.driver.state ≡ true
        → f.panic_test ≡ false
        → AreStable json lit ls
        → Demonstrated json empty content c.0
        → EndsWith halting c.0
        → c.1 ≡ returned exit_pass
        → Fate lit c
    fails :
        (l : Loop w Script.ScriptedInference) (ls : List Text)
        → goal_loop ≡ some l
        → is_done l.driver.state ≡ false
        → f.panic_test ≡ false
        → AreStable json lit ls
        → Demonstrated json empty content c.0
        → c.1 ≡ returned (exit_fail 2)
        → Fate lit c
    panics : c.1 ≡ panicked → Fate lit c

  Fate-Stays : (lit : Literals w) → Stays (Fate lit)
  Fate-Stays lit = record {
    behind = λ more lines o t. elim t [
      | passes l ls e d p s demo says r ↦
          passes l ls e d p s (Demonstrated-append json empty content more lines demo)
            (EndsWith-append halting more lines says) r
      | fails l ls e d p s demo r ↦
          fails l ls e d p s (Demonstrated-append json empty content more lines demo) r
      | panics r ↦ panics r
    ];
    panics = λ lines. panics refl;
  }

  -- The kernel passes.
  abbrev pub Passed : Literals w → List Text → Type 0
  Passed lit lines =
      (l : Loop w Script.ScriptedInference) × (ls : List Text) × (goal_loop ≡ some l)
      × (is_done l.driver.state ≡ true)
      × (f.panic_test ≡ false)
      × AreStable json lit ls
      × Demonstrated json empty content lines
      × EndsWith halting lines

  abbrev pub Failed : Literals w → List Text → Type 0
  Failed lit lines =
      (l : Loop w Script.ScriptedInference) × (ls : List Text) × (goal_loop ≡ some l)
      × (is_done l.driver.state ≡ false)
      × (f.panic_test ≡ false)
      × AreStable json lit ls
      × Demonstrated json empty content lines

  abbrev Ended : Literals w → Text → Console ℕ → Type 0
  Ended lit info c =
      (lines : List Text) × (word : ℕ) × (handled info c ≡ (lines, returned word))
      × (((word ≡ exit_pass) × Passed lit lines)
          ⊎ ((word ≡ exit_fail 2) × Failed lit lines)
          ⊎ ((word ≡ exit_fail 1) × EndsWith (panic_line info) lines))

  handled_ends : (lit : Literals w) (info : Text) (c : Console ℕ) → Fate lit c → Ended lit info c
  unfolding handled
  handled_ends lit info (lines, o) (passes l ls e d p s demo says r) = (
    lines,
    exit_pass,
    ap (λ o. handled info (lines, o)) r,
    inl (refl, (l, ls, e, d, p, s, demo, says)),
  )
  handled_ends lit info (lines, o) (fails l ls e d p s demo r) = (
    lines,
    exit_fail 2,
    ap (λ o. handled info (lines, o)) r,
    inr (inl (refl, (l, ls, e, d, p, s, demo))),
  )
  handled_ends lit info (lines, o) (panics r) = (
    lines ++ panic_line info ∷ [],
    exit_fail 1,
    ap (λ o. handled info (lines, o)) r,
    inr (inr (refl, (lines, refl))),
  )

  module _ (c : IsClock clock) (short : step_timeout secs < 9223372036854775808)
      (enough : 9 * (step_timeout secs + 2) ≤ fuel) where
    run-Ran : Ran (Boot.run json empty content clock secs goal fuel f)
    unfolding Boot.run
    run-Ran =
        let (l, e, _) =
          drive_goal_ends w Script.next clock (step_timeout secs) c short (objective goal)
            (new (script_of f)) fuel enough in
        fold_demo-Ran _ (subst (λ x. Told (told json x)) (sym e) (told-Told l e))

    -- The word that `normal_flow` makes of what `run` returned.
    abbrev word : Bool → Console ℕ
    word done = pure (if done then exit_pass else exit_fail 2)

    word-Fate :
        (lit : Literals w) (ls : List Text) (b : Console Bool)
        → AreStable json lit ls
        → f.panic_test ≡ false
        → Ran b
        → Fate lit (b >>= word)
    word-Fate lit ls (lines, o) s p (broke r) =
        subst (λ o. Fate lit ((lines, o) >>= word)) (sym r) (panics refl)
    word-Fate lit ls (lines, o) s p (over l e r says demo) =
        let shown = subst (Demonstrated json empty content) (sym (append-nil lines)) demo in
        subst (λ o. Fate lit ((lines, o) >>= word)) (sym r)
          (elim (Bool-cases (is_done l.driver.state)) [
            | inl d ↦
                passes l ls e d p s shown
                  (subst (EndsWith halting) (sym (append-nil lines)) (says d))
                  (ap (λ done. returned (if done then exit_pass else exit_fail 2)) d)
            | inr d ↦
                fails l ls e d p s shown
                  (ap (λ done. returned (if done then exit_pass else exit_fail 2)) d)
          ])

    decide-Fate :
        (lit : Literals w) (ls : List Text)
        → AreStable json lit ls
        → Fate lit (decide json empty content clock secs goal fuel f)
    unfolding decide
    decide-Fate lit ls s =
        let b = Boot.run json empty content clock secs goal fuel f in
        elim (Bool-cases f.panic_test) [
          | inl p ↦ subst (λ t. Fate lit (if t then panic else (b >>= word))) (sym p) (panics refl)
          | inr p ↦
              subst (λ t. Fate lit (if t then panic else (b >>= word))) (sym p)
                (word-Fate lit ls b s p run-Ran)
        ]

    module _ (lit : Literals w) (served : ℕ → ℕ → Bool) where
      normal_flow-Fate : Fate lit (normal_flow json empty content clock secs goal fuel lit served f)
      unfolding normal_flow
      normal_flow-Fate =
          let s = Fate-Stays lit in
          bind-Stays s (println (alloc_line (heap_size f))) _ (λ e. cc)
            (λ _ _ _. bind-Stays s (Proto.run json lit) _ (proto-Ends json lit) (λ ls _ e.
              bind-Stays s (overdraw served f) _ (overdraw-Ends served f)
                (λ _ _ _. decide-Fate lit ls ((run_iff json lit ls).0 e))))

      main-Fate :
          {Transport Nic : Type 0} (virtio : Virtio Transport Nic) (mac_address : Nic → ℕ → ℕ)
          → Fate lit (main json empty content clock secs goal fuel lit served virtio mac_address f)
      unfolding main
      main-Fate virtio mac_address =
          let s = Fate-Stays lit in
          bind-Stays s (println (codes "apexos-rv: hart 0 online")) _ (λ e. cc)
            (λ _ _ _.
              bind-Stays s (init virtio mac_address) _
                (subst Ends (sym (init-Prints virtio mac_address)) (λ e. cc))
                (λ _ _ _. normal_flow-Fate))

    -- For any serde, driver of the device, allocator and text of a panic, in every build without
    -- a mesh, with a clock that ticks with gaps of less than half its range, a timeout below half
    -- the range, and fuel for nine timeouts: the kernel ends with one of three words. With the
    -- passing word, its loop returned a goal that is done, the build has no panic-test, the
    -- events of the wire contract are stable, the events of the state demonstration as serde
    -- prints them and its last line are on the port, the state that they make passes its
    -- assertions, and the last line of all is the halting line. With the failing word of code 2,
    -- the same holds of a goal that is not done, without the halting line. With the failing word
    -- of code 1, the last line is that of the panic.
    pub kernel_ends :
        {Transport Nic : Type 0} (virtio : Virtio Transport Nic) (mac_address : Nic → ℕ → ℕ)
        (info : Text) (lit : Literals w) (served : ℕ → ℕ → Bool)
        → (lines : List Text) × (word : ℕ) × (kernel json empty content clock secs goal fuel lit
              served virtio mac_address info f
            ≡ (lines, returned word))
          × (((word ≡ exit_pass) × Passed lit lines)
              ⊎ ((word ≡ exit_fail 2) × Failed lit lines)
              ⊎ ((word ≡ exit_fail 1) × EndsWith (panic_line info) lines))
    unfolding kernel
    kernel_ends virtio mac_address info lit served =
        handled_ends lit info
          (main json empty content clock secs goal fuel lit served virtio mac_address f)
          (main-Fate lit served virtio mac_address)
