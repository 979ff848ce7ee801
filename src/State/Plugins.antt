-- ===== src/State/Plugins.antt =====
-- The tool registry under `PluginUp` and `PluginDown` (agent-core/src/state.rs).
use apex_os_rv.Prelude.{
  ℕ, ◌≡◌, refl, Bool, true, false, not, ◌||◌, none, some, List, [], ◌∷◌, Text, ◌==◌, list_eq,
  nat_eq, list_beq_iff, ==_refl, arith, Bool-cases, inl, inr, if◌then◌else◌,
}
use apex_os_rv.Map
use apex_os_rv.Map.{Map}
use apex_os_rv.Protocol.Wire.{Wire, PluginId}
use apex_os_rv.Protocol.Session.{ToolSpec}
use apex_os_rv.Protocol.Event.{Event, plugin_up, plugin_down}
use apex_os_rv.State.{SystemState, register_tools, apply, apply_all, register_child}

stays : (p q : PluginId) → not (q == p) ≡ true → (p == q) ≡ false
stays p q h = ground (arith, list_beq_iff p q, list_beq_iff q p)

module _ {w : Wire} where
  -- Whether one of the specs has the name.
  abbrev pub declares : Text → List (ToolSpec w) → Bool
  declares name [] = false
  declares name (spec ∷ specs) = spec.name == name || declares name specs

  pub get-register_tools :
      (p : PluginId) (specs : List (ToolSpec w)) (tools : Map Text PluginId) (name : Text)
      → Map.get name (register_tools p specs tools)
        ≡ (if declares name specs then some p else Map.get name tools)
  unfolding register_tools
  get-register_tools p [] tools name = refl
  get-register_tools p (spec ∷ specs) tools name = ground (
    arith,
    get-register_tools p specs (Map.insert spec.name p tools) name,
    Map.get-insert spec.name name p tools,
  )

  -- Every tool's owner is a live plugin.
  pub record HasLiveOwners (s : SystemState w) : Type 0 where
    pub live :
        (name : Text) (p : PluginId)
        → Map.get name s.tools ≡ some p
        → (specs : List (ToolSpec w)) × (Map.get p s.plugins ≡ some specs)

  plugin_up-HasLiveOwners :
      (s : SystemState w) (p : PluginId) (specs : List (ToolSpec w))
      → HasLiveOwners s
      → HasLiveOwners (apply s (plugin_up p specs))
  unfolding apply
  plugin_up-HasLiveOwners s p specs h = record {
    live = λ name q e. elim (Bool-cases (p == q)) [
      | inl same ↦ (specs, rw (Map.get-insert, same))
      | inr other ↦
          let (old, known) =
            h.live name q
              (ground (arith, get-register_tools p specs s.tools name, list_beq_iff p q)) in
          (old, rw (Map.get-insert, other) known)
    ];
  }

  plugin_down-HasLiveOwners :
      (s : SystemState w) (p : PluginId) (reason : Text)
      → HasLiveOwners s
      → HasLiveOwners (apply s (plugin_down p reason))
  unfolding apply
  plugin_down-HasLiveOwners s p reason h = record {
    live = λ name q e.
        let (old, passes) =
          Map.passing-eq-some (λ _ owner. not (owner == p)) name (Map.get name s.tools)
            (rw Map.get-retain at e) in
        let (specs, known) = h.live name q old in
        (specs, rw (Map.get-remove, stays p q passes) known);
  }

  -- Every event keeps the owners live.
  pub apply-HasLiveOwners :
      (s : SystemState w) (e : Event w) → HasLiveOwners s → HasLiveOwners (apply s e)
  apply-HasLiveOwners s (plugin_up p specs) h = plugin_up-HasLiveOwners s p specs h
  apply-HasLiveOwners s (plugin_down p reason) h = plugin_down-HasLiveOwners s p reason h
  apply-HasLiveOwners s _ h = unfold apply in record { live = h.live }

  -- After any events, on any state where the owners of the tools are live plugins, they still
  -- are.
  pub apply_all-HasLiveOwners :
      (s : SystemState w) (es : List (Event w)) → HasLiveOwners s → HasLiveOwners (apply_all s es)
  unfolding apply_all
  apply_all-HasLiveOwners s [] h = h
  apply_all-HasLiveOwners s (e ∷ es) h =
      apply_all-HasLiveOwners (apply s e) es (apply-HasLiveOwners s e h)

  -- A registered child leaves the registry alone.
  pub register_child-HasLiveOwners :
      (s : SystemState w) (c parent : ℕ)
      → HasLiveOwners s
      → HasLiveOwners (register_child s c parent)
  unfolding register_child
  register_child-HasLiveOwners s c parent h = record { live = h.live }

  -- A plugin that comes up and goes down again: the tools that it declared are gone, whoever
  -- owned them before, and so are its own older ones; every other tool is as it was.
  pub tools-up_down :
      (s : SystemState w) (p : PluginId) (specs : List (ToolSpec w)) (reason name : Text)
      → Map.get name (apply (apply s (plugin_up p specs)) (plugin_down p reason)).tools ≡ (
          if declares name specs
          then none
          else Map.passing (λ _ owner. not (owner == p)) name (Map.get name s.tools))
  unfolding apply
  tools-up_down s p specs reason name =
      rw (Map.get-retain, get-register_tools) (ground (arith, list_beq_iff p p))

  -- A plugin that comes up again with other tools: a tool that only the first list declares stays
  -- registered under it, although the plugin no longer advertises it.
  pub tools-up_up :
      (s : SystemState w) (p : PluginId) (old new : List (ToolSpec w)) (name : Text)
      → declares name old ≡ true
      → declares name new ≡ false
      → let s' = apply (apply s (plugin_up p old)) (plugin_up p new) in
        (Map.get name s'.tools ≡ some p) × (Map.get p s'.plugins ≡ some new)
  unfolding apply
  tools-up_up s p old new name a b =
      (rw (get-register_tools, b) (rw (get-register_tools, a)), rw (Map.get-insert, ==_refl))
