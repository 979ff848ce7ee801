-- ===== src/State.antt =====
-- `SystemState` and its operations (agent-core/src/state.rs). A method that mutates `self` returns
-- the new state. `subtree` goes by fuel, and `none` says that the fuel ran out.
pub mod Plugins
pub mod Approvals
pub mod Sessions
pub mod Tree
pub mod Walk
pub mod Subtree
pub mod Colony
use mathlib.Core.List.{foldl}
use apex_os_rv.Prelude.{
  ℕ, zero, suc, ◌+◌, Bool, true, false, not, Option, none, some, List, [], ◌∷◌, ◌++◌, map, Text, Eq,
  ◌==◌, list_eq, nat_eq, length, get_elem?, ltb, unwrap_or, if◌then◌else◌,
}
use apex_os_rv.Str.Trim.{is_empty}
use apex_os_rv.Map
use apex_os_rv.Map.{Map}
use apex_os_rv.Protocol.Wire.{Wire, SessionId, ActionId, PluginId}
use apex_os_rv.Protocol.Session.{
  ToolCall, ToolSpec, ImageSource, ContentBlock, text, image, Message, user, AgentContext, root,
  child,
}
use apex_os_rv.Protocol.Event.{
  Event, user_prompt, user_approval, plugin_up, plugin_down, approval_pending,
}

pub record SystemState (w : Wire) : Type 0 where
  pub sessions : Map SessionId (AgentContext w)
  pub tools : Map Text PluginId
  pub plugins : Map PluginId (List (ToolSpec w))
  pub pending_approvals : Map ActionId SessionId

-- `SystemState::default`
abbrev pub default : (w : Wire) → SystemState w
default w = record { sessions = []; tools = []; plugins = []; pending_approvals = [] }

module _ {w : Wire} where
  -- The content of a prompt's message: the text if there is one, then an image block each.
  unfoldable pub prompt_content : Text → List ImageSource → List (ContentBlock w)
  prompt_content txt images =
      (if is_empty txt then [] else text txt ∷ [])
      ++ map (λ img. image img.media_type img.image_data) images

  -- The loop over the specs of a plugin.
  unfoldable pub register_tools :
      PluginId → List (ToolSpec w) → Map Text PluginId → Map Text PluginId
  register_tools plugin [] tools = tools
  register_tools plugin (spec ∷ specs) tools =
      register_tools plugin specs (Map.insert spec.name plugin tools)

  -- The last clause stands for the events that the fold ignores.
  unfoldable pub apply : SystemState w → Event w → SystemState w
  apply s (user_prompt session txt images) =
      let ctx = unwrap_or (Map.get session s.sessions) (root w session) in
      record s {
        sessions =
            Map.insert session
              (record ctx { history = ctx.history ++ user (prompt_content txt images) ∷ [] })
              s.sessions;
      }
  apply s (approval_pending session call) = record s {
    pending_approvals = Map.insert call.id session s.pending_approvals;
  }
  apply s (user_approval session action granted) = record s {
    pending_approvals = Map.remove action s.pending_approvals;
  }
  apply s (plugin_up plugin specs) = record s {
    tools = register_tools plugin specs s.tools;
    plugins = Map.insert plugin specs s.plugins;
  }
  apply s (plugin_down plugin reason) = record s {
    tools = Map.retain (λ _ owner. not (owner == plugin)) s.tools;
    plugins = Map.remove plugin s.plugins;
  }
  apply s _ = s

  -- The fold of a sequence of events.
  unfoldable pub apply_all : SystemState w → List (Event w) → SystemState w
  apply_all s [] = s
  apply_all s (e ∷ es) = apply_all (apply s e) es

  -- `if let Some(p) = self.sessions.get_mut(&parent) { p.spawned.push(child) }`
  push_spawned :
      SessionId → SessionId → Map SessionId (AgentContext w) → Map SessionId (AgentContext w)
  push_spawned parent c sessions = elim (Map.get parent sessions) [
    | none ↦ sessions
    | some p ↦ Map.insert parent (record p { spawned = p.spawned ++ c ∷ [] }) sessions
  ]

  unfoldable pub register_child : SystemState w → SessionId → SessionId → SystemState w
  unfolding push_spawned
  register_child s c parent = record s {
    sessions = push_spawned parent c (Map.insert c (child w c parent) s.sessions);
  }

  abbrev pub spawned_of : Option (AgentContext w) → List SessionId
  spawned_of none = []
  spawned_of (some ctx) = ctx.spawned

  -- What the loop of `subtree` appends at a session.
  unfoldable pub kids : SystemState w → SessionId → List SessionId
  kids s x = spawned_of (Map.get x s.sessions)

  abbrev pub kids_at : SystemState w → Option SessionId → List SessionId
  kids_at s none = []
  kids_at s (some x) = kids s x

  -- The `while` loop. The index is in bounds where `out[i]` is read.
  unfoldable pub subtree_loop : SystemState w → ℕ → ℕ → List SessionId → Option (List SessionId)
  subtree_loop s zero i out = if ltb i (length out) then none else some out
  subtree_loop s (suc fuel) i out =
      let rest = subtree_loop s fuel (i + 1) (out ++ kids_at s (get_elem? out i)) in
      if ltb i (length out) then rest else some out

  unfoldable pub subtree : SystemState w → ℕ → SessionId → Option (List SessionId)
  unfolding subtree_loop
  subtree s fuel r = subtree_loop s fuel 0 (r ∷ [])
