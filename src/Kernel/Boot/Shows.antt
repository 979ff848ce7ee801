-- ===== src/Kernel/Boot/Shows.antt =====
-- The demonstration of the fold on the port (kernel/src/agent.rs, `fold_demo`), for any serde.
use apex_os_rv.Prelude.{
  ◌⊎◌, inl, inr, ◌≡◌, refl, ap, sym, ◌∙◌, true, none, List, [], ◌∷◌, ◌++◌, append_assoc, Text,
  Option-cases, panicked,
}
use apex_os_rv.Protocol.Wire.{Wire}
use apex_os_rv.Protocol.Event.{Event}
use apex_os_rv.State.{SystemState, default, apply, apply_all}
use apex_os_rv.Kernel.Agent.{demo_events, demo_holds}
use apex_os_rv.Kernel.Agent.Exit.{demo_holds-apply_all}
use apex_os_rv.Kernel.Console.{Console, Json, Prints, PrintsAs, emit, ◌>>=◌}
use apex_os_rv.Kernel.Boot.{folded, fold_events, fold_demo}

module _ {w : Wire} (json : Json w) where
  -- Texts that serde makes of events.
  abbrev pub PrintAs : List (Event w) → List Text → Type 0
  PrintAs [] [] = Unit
  PrintAs (ev ∷ evs) (t ∷ ts) = PrintsAs json ev t × PrintAs evs ts
  PrintAs _ _ = ⊥

  -- Lines of the port that hold the events of the demonstration, as serde prints them, and behind
  -- them its last line; and the state that these events make passes the assertions.
  abbrev pub Demonstrated : w.Value → w.Value → List Text → Type 0
  Demonstrated empty content lines =
      (texts : List Text) × (before : List Text) × (after : List Text) × PrintAs
        (demo_events w empty content) texts
      × (demo_holds w empty content (apply_all (default w) (demo_events w empty content)) ≡ true)
      × (lines ≡ before ++ (texts ++ folded ∷ after))

  pub Demonstrated-append :
      (empty content : w.Value) (more lines : List Text)
      → Demonstrated empty content lines
      → Demonstrated empty content (more ++ lines)
  Demonstrated-append empty content more lines (texts, before, after, prints, holds, e) = (
    texts,
    more ++ before,
    after,
    prints,
    holds,
    ap (λ r. more ++ r) e ∙ sym (append_assoc more before (texts ++ folded ∷ after)),
  )

  emit-line : (ev : Event w) (t : Text) → PrintsAs json ev t → Prints (emit json ev) (t ∷ []) tt
  unfolding emit
  emit-line ev t e = rw e refl

  emit-panics : (ev : Event w) → json.to_string ev ≡ none → emit json ev ≡ ([], panicked)
  unfolding emit
  emit-panics ev e = rw e refl

  -- A fold that prints every event, or that panics.
  fold_events-cases :
      (st : SystemState w) (evs : List (Event w))
      → ((texts : List Text) × PrintAs evs texts
          × Prints (fold_events json st evs) texts (apply_all st evs))
        ⊎ ((fold_events json st evs).1 ≡ panicked)
  unfolding fold_events apply_all
  fold_events-cases st [] = inl ([], tt, refl)
  fold_events-cases st (ev ∷ evs) = elim (Option-cases (json.to_string ev)) [
    | inl fails ↦ inr (rw (emit-panics ev fails) refl)
    | inr (t, e) ↦ elim (fold_events-cases (apply st ev) evs) [
      | inl (texts, prints, same) ↦ inl (t ∷ texts, (e, prints), rw (emit-line ev t e, same) refl)
      | inr stops ↦ inr (rw (emit-line ev t e, stops) refl)
    ]
  ]

  module _ (empty content : w.Value) where
    pub fold_demo-cases :
        ((texts : List Text) × PrintAs (demo_events w empty content) texts
          × Prints (fold_demo json empty content) (texts ++ folded ∷ []) tt)
        ⊎ ((fold_demo json empty content).1 ≡ panicked)
    unfolding fold_demo
    fold_demo-cases = elim (fold_events-cases (default w) (demo_events w empty content)) [
      | inl (texts, prints, same) ↦
          inl (texts, prints, rw (same, demo_holds-apply_all w empty content) refl)
      | inr stops ↦ inr (rw stops refl)
    ]

    bind-panics :
        {A B : Type 0} (c : Console A) (f : A → Console B) → c.1 ≡ panicked → (c >>= f).1 ≡ panicked
    bind-panics (lines, o) f e = rw e refl

    -- What follows the demonstration: it panics with it, or its lines stand behind those of the
    -- demonstration.
    pub fold_demo-then :
        {B : Type 0} (f : Unit {0} → Console B)
        → (Demonstrated empty content (fold_demo json empty content >>= f).0
            × ((fold_demo json empty content >>= f).1 ≡ (f tt).1)
            × ((lines : List Text) × ((fold_demo json empty content >>= f).0 ≡ lines ++ (f tt).0)))
          ⊎ ((fold_demo json empty content >>= f).1 ≡ panicked)
    fold_demo-then f = elim fold_demo-cases [
      | inr stops ↦ inr (bind-panics (fold_demo json empty content) f stops)
      | inl (texts, prints, same) ↦ inl (
        (
          texts,
          [],
          (f tt).0,
          prints,
          demo_holds-apply_all w empty content,
          ap (λ c. (c >>= f).0) same ∙ append_assoc texts (folded ∷ []) (f tt).0,
        ),
        ap (λ c. (c >>= f).1) same,
        (texts ++ folded ∷ [], ap (λ c. (c >>= f).0) same),
      )
    ]
