-- ===== src/Tests/States.antt =====
-- The state on concrete events.
use mathlib.Core.List.{Memᴰ}
use apex_os_rv.Prelude.{
  ◌≡◌, ◌↔◌, refl, not, true, false, none, some, List, [], ◌∷◌, Text, codes, ◌==◌, list_eq, nat_eq,
  arith, if◌then◌else◌,
}
use apex_os_rv.Map
use apex_os_rv.Protocol.Wire.{SessionId}
use apex_os_rv.Protocol.Session.{ToolSpec, ToolCall, child, root}
use apex_os_rv.Protocol.Event.{
  Event, user_prompt, user_approval, plugin_up, plugin_down, approval_pending,
}
use apex_os_rv.State.{
  SystemState, default, apply, apply_all, register_child, kids, subtree, subtree_loop,
}
use apex_os_rv.State.Tree.{Below}
use apex_os_rv.State.Subtree.{
  Reachable, initial, applied, registered, rounds, subtree-Reachable, subtree-register_self,
}
use apex_os_rv.State.Sessions.{after_prompts, get-sessions}
use apex_os_rv.State.Plugins.{
  declares, HasLiveOwners, apply_all-HasLiveOwners, tools-up_down, tools-up_up,
}
use apex_os_rv.State.Colony.{
  Operation, event, child_of, perform_all, commit_all, view, walk, perform_all-commit_all,
}
use apex_os_rv.Tests.Values.{plain}

abbrev spec : Text → ToolSpec plain
spec name = record { name = name; description = []; input_schema = 0 }

abbrev prompted : SystemState plain
prompted = apply (default plain) (user_prompt 1 (codes "hello") [])

prompted_reached : Reachable prompted
prompted_reached = applied (user_prompt 1 (codes "hello") []) initial

abbrev family : SystemState plain
family = register_child prompted 2 1

family_reached : Reachable family
family_reached = registered 2 1 (λ e. omega arith) prompted_reached

subtree-Reachable_example :
    (out : List SessionId) × (subtree family (rounds family_reached 1) 1 ≡ some out)
    × ((x : SessionId) → Memᴰ x out ↔ Below family 1 x)
subtree-Reachable_example =
    subtree-Reachable 1 family_reached (rounds family_reached 1) (omega arith)

family-subtree : subtree family 2 1 ≡ some (1 ∷ 2 ∷ [])
unfolding subtree subtree_loop kids register_child apply Map.get Map.insert child root
family-subtree = refl

subtree-register_self_example : subtree (register_child prompted 1 1) 1000 1 ≡ none
subtree-register_self_example = subtree-register_self prompted 1 1000

abbrev call : ToolCall plain
call = record { id = 7; tool = codes "store"; args = 0; needs_approval = true }

abbrev events : List (Event plain)
events =
    user_prompt 1 (codes "hello") []
    ∷ plugin_up (codes "memory") (spec (codes "store") ∷ [])
    ∷ approval_pending 1 call
    ∷ user_approval 1 7 false
    ∷ user_prompt 1 (codes "again") []
    ∷ []

get-sessions_example :
    Map.get 1 (apply_all family events).sessions
    ≡ after_prompts 1 (Map.get 1 family.sessions) events
get-sessions_example = get-sessions events family 1

default-HasLiveOwners : HasLiveOwners (default plain)
unfolding Map.get
default-HasLiveOwners = record { live = λ name p e. absurd (ground arith) }

apply_all-HasLiveOwners_example : HasLiveOwners (apply_all (default plain) events)
apply_all-HasLiveOwners_example =
    apply_all-HasLiveOwners (default plain) events default-HasLiveOwners

-- Another plugin owned the tool before.
abbrev owned : SystemState plain
owned = apply (default plain) (plugin_up (codes "memory") (spec (codes "store") ∷ []))

tools-up_down_example :
    Map.get
      (codes "store")
      (apply
        (apply owned (plugin_up (codes "disk") (spec (codes "store") ∷ [])))
        (plugin_down (codes "disk") [])).tools
    ≡ (if declares (codes "store") (spec (codes "store") ∷ [])
        then none
        else Map.passing
            (λ _ owner. not (owner == codes "disk"))
            (codes "store")
            (Map.get (codes "store") owned.tools))
tools-up_down_example =
    tools-up_down owned (codes "disk") (spec (codes "store") ∷ []) [] (codes "store")

abbrev upgraded : SystemState plain
upgraded =
    apply (apply (default plain) (plugin_up (codes "memory") (spec (codes "store") ∷ [])))
      (plugin_up (codes "memory") (spec (codes "recall") ∷ []))

tools-up_up_example :
    (Map.get (codes "store") upgraded.tools ≡ some (codes "memory"))
    × (Map.get (codes "memory") upgraded.plugins ≡ some (spec (codes "recall") ∷ []))
tools-up_up_example =
    tools-up_up (default plain) (codes "memory") (spec (codes "store") ∷ [])
      (spec (codes "recall") ∷ []) (codes "store") refl refl

abbrev operations : List (Operation plain)
operations =
    event (plugin_up (codes "memory") (spec (codes "store") ∷ []))
    ∷ child_of 2 1
    ∷ event (user_prompt 2 (codes "help") [])
    ∷ []

perform_all-commit_all_example :
    (view (perform_all prompted operations) ≡ commit_all (view prompted) operations)
    × (subtree (perform_all prompted operations) 2 1
        ≡ walk (commit_all (view prompted) operations) 2 0 (1 ∷ []))
perform_all-commit_all_example = perform_all-commit_all prompted operations 2 1
