-- ===== src/Kernel/Proto/Stable.antt =====
-- When the gate of the wire contract holds, and what it leaves on the port when it does not.
use apex_os_rv.Prelude.{
  subst, ◌<◌, ◌↔◌, length, ◌≡◌, refl, ap, sym, ◌∙◌, inl, inr, true, false, some, Option-cases,
  Bool-cases, List, [], ◌∷◌, Text, list_eq, nat_eq, ◌==◌, list_beq_iff, returned, panicked, arith,
}
use apex_os_rv.Protocol.Wire.{Wire}
use apex_os_rv.Protocol.Event.{Event}
use apex_os_rv.Kernel.Console.{Console, ◌>>=◌, ◌>>◌, println, unwrap, assert, Json, Prints}
use apex_os_rv.Kernel.Proto.{
  Literals, report, roundtrip, first_event, second_event, third_event, run,
}

module _ {w : Wire} (json : Json w) where
  -- serde prints the event as `t`, reads an event from it that is printed as `t` again, and the two
  -- trees of values, of the text and of that event, are equal.
  abbrev pub IsStable : Event w → Text → Type 0
  IsStable ev t =
      (back : Event w) × (v1 : w.Value) × (v2 : w.Value) × (json.to_string ev ≡ some t)
      × (json.from_str t ≡ some back)
      × (json.to_string back ≡ some t)
      × (json.value_from_str t ≡ some v1)
      × (json.to_value back ≡ some v2)
      × (json.value_eq v1 v2 ≡ true)

  -- An event that is stable prints its line; any other one panics and prints nothing.
  pub data Tested (ev : Event w) : Type 0 where
    passed : (t : Text) → IsStable ev t → Prints (roundtrip json ev) (t ∷ []) tt → Tested ev
    failed : ((t : Text) → ¬ IsStable ev t) → roundtrip json ev ≡ ([], panicked) → Tested ev

  reprinted : (t t2 : Text) → (t == t2) ≡ false → ¬ (t ≡ t2)
  reprinted t t2 e same = ground (arith, (list_beq_iff t t2).1 same)

  -- The part behind the comparison of the texts.
  trees : Text → Event w → Console Unit
  trees text back = do
    v1 ← unwrap (json.value_from_str text)
    v2 ← unwrap (json.to_value back)
    assert (json.value_eq v1 v2)
    println text

  trees-Tested :
      (ev : Event w) (t : Text) (back : Event w)
      → json.to_string ev ≡ some t
      → json.from_str t ≡ some back
      → json.to_string back ≡ some t
      → roundtrip json ev ≡ trees t back
      → Tested ev
  unfolding trees
  trees-Tested ev t back e1 e2 e3 e = elim (Option-cases (json.value_from_str t)) [
    | inl e4 ↦ failed (λ t2 (back2, v3, v4, p1, p2, p3, p4, p5, p6). cc) (e ∙ rw e4 refl)
    | inr (v1, e4) ↦ elim (Option-cases (json.to_value back)) [
      | inl e5 ↦ failed (λ t2 (back2, v3, v4, p1, p2, p3, p4, p5, p6). cc) (e ∙ rw (e4, e5) refl)
      | inr (v2, e5) ↦ elim (Bool-cases (json.value_eq v1 v2)) [
        | inl e6 ↦ passed t (back, v1, v2, e1, e2, e3, e4, e5, e6) (e ∙ rw (e4, e5, e6) refl)
        | inr e6 ↦
            failed (λ t2 (back2, v3, v4, p1, p2, p3, p4, p5, p6). cc) (e ∙ rw (e4, e5, e6) refl)
      ]
    ]
  ]

  pub roundtrip-Tested : (ev : Event w) → Tested ev
  unfolding roundtrip trees
  roundtrip-Tested ev = elim (Option-cases (json.to_string ev)) [
    | inl e1 ↦ failed (λ t (back, v1, v2, p1, p2, p3, p4, p5, p6). cc) (rw e1 refl)
    | inr (t, e1) ↦ elim (Option-cases (json.from_str t)) [
      | inl e2 ↦ failed (λ t (back, v1, v2, p1, p2, p3, p4, p5, p6). cc) (rw (e1, e2) refl)
      | inr (back, e2) ↦ elim (Option-cases (json.to_string back)) [
        | inl e3 ↦ failed (λ t (back, v1, v2, p1, p2, p3, p4, p5, p6). cc) (rw (e1, e2, e3) refl)
        | inr (t2, e3) ↦ elim (Bool-cases (t == t2)) [
          | inr e4 ↦
              failed (λ t3 (back3, v1, v2, p1, p2, p3, p4, p5, p6). reprinted t t2 e4 cc)
                (rw (e1, e2, e3, e4) refl)
          | inl e4 ↦
              trees-Tested ev t back e1 e2 (e3 ∙ ap some (sym ((list_beq_iff t t2).0 e4)))
                (rw (e1, e2, e3, e4) refl)
        ]
      ]
    ]
  ]

  module _ (lit : Literals w) where
    -- The three events are stable, and these are their texts.
    abbrev pub AreStable : List Text → Type 0
    AreStable lines =
        (t1 : Text) × (t2 : Text) × (t3 : Text) × IsStable (first_event lit) t1
        × IsStable (second_event lit) t2
        × IsStable (third_event lit) t3
        × (lines ≡ t1 ∷ t2 ∷ t3 ∷ report ∷ [])

    -- The gate passes and has printed its four lines, or it panics, behind at most two of them.
    pub data Gate : Type 0 where
      opened : (lines : List Text) → AreStable lines → Prints (run json lit) lines tt → Gate
      shut :
          (lines : List Text)
          → ((ls : List Text) → ¬ AreStable ls)
          → length lines < 3
          → run json lit ≡ (lines, panicked)
          → Gate

    pub run-Gate : Gate
    unfolding run
    run-Gate = elim (roundtrip-Tested (first_event lit)) [
      | failed n1 r1 ↦
          shut [] (λ ls (t1, t2, t3, s1, s2, s3, e). n1 t1 s1) (omega arith) (rw r1 refl)
      | passed t1 s1 r1 ↦ elim (roundtrip-Tested (second_event lit)) [
        | failed n2 r2 ↦
            shut (t1 ∷ []) (λ ls (u1, u2, u3, s1, s2, s3, e). n2 u2 s2) (omega arith)
              (rw (r1, r2) refl)
        | passed t2 s2 r2 ↦ elim (roundtrip-Tested (third_event lit)) [
          | failed n3 r3 ↦
              shut (t1 ∷ t2 ∷ []) (λ ls (u1, u2, u3, s1, s2, s3, e). n3 u3 s3) (omega arith)
                (rw (r1, r2, r3) refl)
          | passed t3 s3 r3 ↦
              opened (t1 ∷ t2 ∷ t3 ∷ report ∷ []) (t1, t2, t3, s1, s2, s3, refl)
                (rw (r1, r2, r3) refl)
        ]
      ]
    ]

    AreStable-unique : (ls ms : List Text) → AreStable ls → AreStable ms → ls ≡ ms
    AreStable-unique ls ms (t1, t2, t3, s1, s2, s3, e) (u1, u2, u3, r1, r2, r3, f) =
        cc (s1.3, s2.3, s3.3, r1.3, r2.3, r3.3)

    -- The wire test returns and has printed certain lines exactly when its three events are
    -- stable, and the lines are their texts and the report. An event is stable when serde prints
    -- it, reads from that text an event that is printed as the same text, and the trees of values
    -- of the text and of that event are equal.
    pub run_iff : (lines : List Text) → Prints (run json lit) lines tt ↔ AreStable lines
    run_iff lines = elim run-Gate [
      | opened ls stable prints ↦ (
        λ p. subst AreStable (ap (λ c. c.0) (sym prints ∙ p)) stable,
        λ s. prints ∙ ap (λ l. (l, returned tt)) (AreStable-unique ls lines stable s),
      )
      | shut ls unstable short panics ↦ (λ p. absurd (cc), λ s. absurd (unstable lines s))
    ]
