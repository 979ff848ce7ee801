-- ===== src/State/Colony.antt =====
-- What the colony's state promises (agent-core/src/state.rs), without its maps: four functions, which
-- say what a reader finds under a key, and how an operation changes them.
use apex_os_rv.Prelude.{
  ℕ, zero, suc, ◌+◌, ◌≡◌, refl, ap, sym, ◌∙◌, fun_ext, not, Option, none, some, Option-cases, inl,
  inr, List, [], ◌∷◌, ◌++◌, Text, ◌==◌, Eq, list_eq, nat_eq, eqb_iff, length, get_elem?, ltb,
  if◌then◌else◌, Bool-cases,
}
use apex_os_rv.Map
use apex_os_rv.Map.{Map}
use apex_os_rv.Protocol.Wire.{Wire, SessionId, ActionId, PluginId}
use apex_os_rv.Protocol.Session.{ToolSpec, AgentContext, user, child}
use apex_os_rv.Protocol.Event.{
  Event, user_prompt, user_approval, plugin_up, plugin_down, approval_pending,
}
use apex_os_rv.State.{
  SystemState, prompt_content, apply, push_spawned, register_child, spawned_of, kids, kids_at,
  subtree_loop, subtree,
}
use apex_os_rv.State.Plugins.{declares, get-register_tools}
use apex_os_rv.State.Sessions.{heard}

pub record Colony (w : Wire) : Type 0 where
  pub sessions : SessionId → Option (AgentContext w)
  pub tools : Text → Option PluginId
  pub plugins : PluginId → Option (List (ToolSpec w))
  pub pending_approvals : ActionId → Option SessionId

-- A function with another answer at one key.
abbrev pub update : {K V : Type 0} ⦃e : Eq K⦄ → K → Option V → (K → Option V) → K → Option V
update k o f j = if k == j then o else f j

-- A call on the state that changes it.
pub data Operation (w : Wire) : Type 0 where
  event : Event w → Operation w
  child_of : SessionId → SessionId → Operation w

module _ {w : Wire} where
  abbrev pub view : SystemState w → Colony w
  view s = record {
    sessions = λ x. Map.get x s.sessions;
    tools = λ name. Map.get name s.tools;
    plugins = λ p. Map.get p s.plugins;
    pending_approvals = λ a. Map.get a s.pending_approvals;
  }

  -- What an event does to a colony.
  abbrev pub perceive : Colony w → Event w → Colony w
  perceive c (user_prompt session txt images) = record c {
    sessions =
        update session (heard session (c.sessions session) (user (prompt_content txt images)))
          c.sessions;
  }
  perceive c (approval_pending session call) = record c {
    pending_approvals = update call.id (some session) c.pending_approvals;
  }
  perceive c (user_approval session action granted) = record c {
    pending_approvals = update action none c.pending_approvals;
  }
  perceive c (plugin_up plugin specs) = record c {
    tools = λ name. if declares name specs then some plugin else c.tools name;
    plugins = update plugin (some specs) c.plugins;
  }
  perceive c (plugin_down plugin reason) = record c {
    tools = λ name. Map.passing (λ _ owner. not (owner == plugin)) name (c.tools name);
    plugins = update plugin none c.plugins;
  }
  perceive c _ = c

  view-apply : (s : SystemState w) (e : Event w) → view (apply s e) ≡ perceive (view s) e
  unfolding apply
  view-apply s (user_prompt session txt images) =
      ap (λ f. record (view s) { sessions = f })
        (fun_ext (λ x. Map.get-insert session x _ s.sessions))
  view-apply s (approval_pending session call) =
      ap (λ f. record (view s) { pending_approvals = f })
        (fun_ext (λ a. Map.get-insert call.id a session s.pending_approvals))
  view-apply s (user_approval session action granted) =
      ap (λ f. record (view s) { pending_approvals = f })
        (fun_ext (λ a. Map.get-remove action a s.pending_approvals))
  view-apply s (plugin_up plugin specs) =
      ap
        (λ f. record (view s) {
          tools = f;
          plugins = λ p. Map.get p (Map.insert plugin specs s.plugins);
        })
        (fun_ext (λ name. get-register_tools plugin specs s.tools name))
      ∙ ap
          (λ f. record (view s) {
            tools = λ name. if declares name specs then some plugin else Map.get name s.tools;
            plugins = f;
          })
          (fun_ext (λ p. Map.get-insert plugin p specs s.plugins))
  view-apply s (plugin_down plugin reason) =
      ap
        (λ f. record (view s) { tools = f; plugins = λ p. Map.get p (Map.remove plugin s.plugins) })
        (fun_ext (λ name. Map.get-retain (λ _ owner. not (owner == plugin)) name s.tools))
      ∙ ap
          (λ f. record (view s) {
            tools =
                λ name. Map.passing (λ _ owner. not (owner == plugin)) name (Map.get name s.tools);
            plugins = f;
          })
          (fun_ext (λ p. Map.get-remove plugin p s.plugins))
  view-apply s _ = refl

  -- A parent that is there has one more child.
  abbrev joined : SessionId → Option (AgentContext w) → Option (AgentContext w)
  joined c none = none
  joined c (some p) = some (record p { spawned = p.spawned ++ c ∷ [] })

  -- What the registration of a child does to a colony.
  abbrev pub adopt : Colony w → SessionId → SessionId → Colony w
  adopt col c parent =
      let sessions = update c (some (child w c parent)) col.sessions in
      record col { sessions = update parent (joined c (sessions parent)) sessions }

  get-push_spawned :
      (parent c x : SessionId) (m : Map SessionId (AgentContext w))
      → Map.get x (push_spawned parent c m)
        ≡ update parent (joined c (Map.get parent m)) (λ x. Map.get x m) x
  unfolding push_spawned
  get-push_spawned parent c x m = elim (Option-cases (Map.get parent m)) [
    | inl e ↦
        rw (e, push_spawned)
          (elim (Bool-cases (parent == x)) [
            | inl same ↦ rw same (ap (λ k. Map.get k m) (sym ((eqb_iff parent x).0 same)) ∙ e)
            | inr other ↦ rw other refl
          ])
    | inr (p, e) ↦
        rw (e, push_spawned)
          (Map.get-insert parent x (record p { spawned = p.spawned ++ c ∷ [] }) m)
  ]

  view-register_child :
      (s : SystemState w) (c parent : SessionId)
      → view (register_child s c parent) ≡ adopt (view s) c parent
  unfolding register_child
  view-register_child s c parent =
      ap (λ f. record (view s) { sessions = f })
        (fun_ext (λ x. get-push_spawned parent c x (Map.insert c (child w c parent) s.sessions))
          ∙ ap (λ f. update parent (joined c (f parent)) f)
              (fun_ext (λ x. Map.get-insert c x (child w c parent) s.sessions)))

  abbrev pub perform_all : SystemState w → List (Operation w) → SystemState w
  perform_all s [] = s
  perform_all s (event e ∷ ops) = perform_all (apply s e) ops
  perform_all s (child_of c parent ∷ ops) = perform_all (register_child s c parent) ops

  abbrev pub commit_all : Colony w → List (Operation w) → Colony w
  commit_all col [] = col
  commit_all col (event e ∷ ops) = commit_all (perceive col e) ops
  commit_all col (child_of c parent ∷ ops) = commit_all (adopt col c parent) ops

  view-perform_all :
      (s : SystemState w) (ops : List (Operation w))
      → view (perform_all s ops) ≡ commit_all (view s) ops
  view-perform_all s [] = refl
  view-perform_all s (event e ∷ ops) =
      view-perform_all (apply s e) ops ∙ ap (λ col. commit_all col ops) (view-apply s e)
  view-perform_all s (child_of c parent ∷ ops) =
      view-perform_all (register_child s c parent) ops
      ∙ ap (λ col. commit_all col ops) (view-register_child s c parent)

  abbrev children : Colony w → Option SessionId → List SessionId
  children col none = []
  children col (some x) = spawned_of (col.sessions x)

  -- The walk over the children of a colony, from the index `i` of the sessions that were found.
  abbrev pub walk : Colony w → ℕ → ℕ → List SessionId → Option (List SessionId)
  walk col zero i out = if ltb i (length out) then none else some out
  walk col (suc fuel) i out =
      let rest = walk col fuel (i + 1) (out ++ children col (get_elem? out i)) in
      if ltb i (length out) then rest else some out

  kids_at-children : (s : SystemState w) (o : Option SessionId) → kids_at s o ≡ children (view s) o
  unfolding kids
  kids_at-children s none = refl
  kids_at-children s (some x) = refl

  subtree_loop-walk :
      (s : SystemState w) (fuel i : ℕ) (out : List SessionId)
      → subtree_loop s fuel i out ≡ walk (view s) fuel i out
  unfolding subtree_loop
  subtree_loop-walk s zero i out = refl
  subtree_loop-walk s (suc fuel) i out =
      ap (λ rest. if ltb i (length out) then rest else some out)
        (ap (λ more. subtree_loop s fuel (i + 1) (out ++ more))
            (kids_at-children s (get_elem? out i))
          ∙ subtree_loop-walk s fuel (i + 1) (out ++ children (view s) (get_elem? out i)))

  -- After any sequence of events and registrations, from any state: what a reader finds under
  -- each key of the four maps is what the same sequence makes of the four functions that the
  -- state was, and `subtree`, with whatever fuel, is the walk over the children that these
  -- functions give. So no observation depends on how the maps are stored.
  pub perform_all-commit_all :
      (s : SystemState w) (ops : List (Operation w)) (fuel : ℕ) (r : SessionId)
      → (view (perform_all s ops) ≡ commit_all (view s) ops)
        × (subtree (perform_all s ops) fuel r ≡ walk (commit_all (view s) ops) fuel 0 (r ∷ []))
  unfolding subtree
  perform_all-commit_all s ops fuel r =
      let same = view-perform_all s ops in
      (
        same,
        subtree_loop-walk (perform_all s ops) fuel 0 (r ∷ [])
            ∙ ap (λ col. walk col fuel 0 (r ∷ [])) same,
      )
