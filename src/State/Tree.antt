-- ===== src/State/Tree.antt =====
-- The spawn graph, and what `apply` and `register_child` do to it (agent-core/src/state.rs).
use mathlib.Core.List.{Memᴰ}
use mathlib.Core.List.Memᴰ
use apex_os_rv.Prelude.{
  ◌≡◌, ◌≢◌, ◌⊎◌, refl, ◌∙◌, sym, subst, Option, none, some, List, [], ◌∷◌, ◌++◌, ◌==◌, nat_eq,
  eqb_iff, arith, unwrap_or, if◌then◌else◌, Bool-cases, Option-cases, inl, inr,
}
use apex_os_rv.Map
use apex_os_rv.Map.{Map}
use apex_os_rv.Protocol.Wire.{Wire, SessionId}
use apex_os_rv.Protocol.Session.{AgentContext, root, child, user}
use apex_os_rv.Protocol.Event.{Event, user_prompt, plugin_up}
use apex_os_rv.State.{SystemState, prompt_content, apply, register_child, spawned_of, kids}

module _ {w : Wire} where
  -- The sessions below `r`: itself, and what they spawned.
  pub data Below (s : SystemState w) (r : SessionId) : SessionId → Type 0 where
    self : Below s r r
    spawned : {x y : SessionId} → Below s r x → Memᴰ y (kids s x) → Below s r y

  -- No event changes what a session has spawned.
  pub kids-apply : (s : SystemState w) (e : Event w) (x : SessionId) → kids (apply s e) x ≡ kids s x
  unfolding kids apply root
  kids-apply s (user_prompt session txt images) x = ground (
    arith,
    Map.get-insert session x
        (let ctx = unwrap_or (Map.get session s.sessions) (root w session) in
          record ctx { history = ctx.history ++ user (prompt_content txt images) ∷ [] })
        s.sessions,
    eqb_iff session x,
  )
  kids-apply s (plugin_up p specs) x = refl
  kids-apply s _ x = refl

  abbrev pub adopted : Option (AgentContext w) → SessionId → List SessionId
  adopted none c = []
  adopted (some ctx) c = ctx.spawned ++ c ∷ []

  -- A child other than its parent starts with nothing spawned, and stands behind the others of
  -- its parent, if that is a session; no other session is changed.
  pub kids-register_child :
      (s : SystemState w) (c parent x : SessionId)
      → c ≢ parent
      → kids (register_child s c parent) x ≡ (
          if parent == x
          then adopted (Map.get parent s.sessions) c
          else if c == x
          then []
          else kids s x)
  unfolding kids register_child child
  kids-register_child s c parent x ne = elim (Option-cases (Map.get parent s.sessions)) [
    | inl e ↦ ground (
      arith,
      eqb_iff parent x,
      Map.get-insert c parent (child w c parent) s.sessions,
      Map.get-insert c x (child w c parent) s.sessions,
    )
    | inr (p, e) ↦ ground (
      arith,
      eqb_iff parent x,
      Map.get-insert c parent (child w c parent) s.sessions,
      Map.get-insert c x (child w c parent) s.sessions,
      Map.get-insert parent x (record p { spawned = p.spawned ++ c ∷ [] })
          (Map.insert c (child w c parent) s.sessions),
    )
  ]

  -- A session that is registered as its own child has exactly itself spawned.
  pub kids-register_self :
      (s : SystemState w) (x : SessionId) → kids (register_child s x x) x ≡ x ∷ []
  unfolding kids register_child child
  kids-register_self s x = ground (
    arith,
    Map.get-insert x x (child w x x) s.sessions,
    Map.get-insert x x (record { id = x; parent = some x; history = []; spawned = x ∷ [] })
        (Map.insert x (child w x x) s.sessions),
  )

  mem-adopted :
      (o : Option (AgentContext w)) (c y : SessionId)
      → Memᴰ y (adopted o c)
      → (y ≡ c) ⊎ Memᴰ y (spawned_of o)
  mem-adopted none c y m = absurd (Memᴰ.not-nil m)
  mem-adopted (some ctx) c y m = elim (Memᴰ.append_cases ctx.spawned m) [
    | inl old ↦ inr old
    | inr new ↦ inl (Memᴰ.eq_of_singleton new)
  ]

  -- The edges after a registration: the new one, and old ones, none of them out of the child.
  pub mem-kids-register_child :
      (s : SystemState w) (c parent x y : SessionId)
      → c ≢ parent
      → Memᴰ y (kids (register_child s c parent) x)
      → (c ≢ x) × (((y ≡ c) × (x ≡ parent)) ⊎ Memᴰ y (kids s x))
  mem-kids-register_child s c parent x y ne m =
      go (subst (Memᴰ y) (kids-register_child s c parent x ne) m)
    where
      go :
          Memᴰ y (
            if parent == x
            then adopted (Map.get parent s.sessions) c
            else if c == x
            then []
            else kids s x)
          → (c ≢ x) × (((y ≡ c) × (x ≡ parent)) ⊎ Memᴰ y (kids s x))
      go m = elim (Bool-cases (parent == x)) [
        | inl same ↦
            let e : parent ≡ x = (eqb_iff parent x).0 same in
            (
              λ c_x. ne (c_x ∙ sym e),
              elim (mem-adopted (Map.get parent s.sessions) c y (rw same at m)) [
                | inl new ↦ inl (new, sym e)
                | inr old ↦ inr (subst (λ z. Memᴰ y (kids s z)) e (unfold kids in old))
              ],
            )
        | inr other ↦
            let rest = rw other at m in
            elim (Bool-cases (c == x)) [
              | inl same ↦ absurd (Memᴰ.not-nil (rw same at rest))
              | inr differ ↦ (λ e. cc ((eqb_iff c x).1 e), inr (rw differ at rest))
            ]
      ]
