-- ===== src/Tests/Suite/Fold.antt =====
-- The tests of the colony's state (agent-core/src/state.rs, `mod tests`), but for those of serde.
use apex_os_rv.Prelude.{
  ℕ, ◌≡◌, refl, Bool, true, false, ◌&&◌, Option, none, some, List, [], ◌∷◌, Text, codes, ◌==◌,
  list_eq, nat_eq, eqb, leb, length, get_elem?, if◌then◌else◌,
}
use apex_os_rv.Map
use apex_os_rv.Protocol.Session.{
  ToolSpec, ToolCall, ImageSource, ContentBlock, text, image, Message, user, assistant, is_root,
  root, child,
}
use apex_os_rv.Protocol.Event.{user_prompt, user_approval, plugin_up, plugin_down, approval_pending}
use apex_os_rv.State.{
  SystemState, default, prompt_content, register_tools, apply, register_child, kids, subtree,
  subtree_loop,
}
use apex_os_rv.Tests.Values.{plain}

abbrev spec : Text → ToolSpec plain
spec name = record { name = name; description = []; input_schema = 0 }

abbrev where_some : {A : Type 0} → Option A → (A → Bool) → Bool
where_some none test = false
where_some (some a) test = test a

abbrev prompt : Text → List ImageSource → SystemState plain → SystemState plain
prompt txt images s = apply s (user_prompt 1 txt images)

abbrev user_prompt_creates_root_session_and_appends_history : Bool
user_prompt_creates_root_session_and_appends_history =
    let s = prompt (codes "hi") [] (default plain) in
    where_some (Map.get 1 s.sessions) (λ ctx. is_root ctx && eqb (length ctx.history) 1)

abbrev cerebro : Text
cerebro = codes "cerebro"

abbrev plugin_up_registers_tools_then_down_removes_them : Bool
plugin_up_registers_tools_then_down_removes_them =
    let up =
      apply (default plain)
        (plugin_up cerebro (spec (codes "cerebro.recall") ∷ spec (codes "cerebro.store") ∷ [])) in
    let down = apply up (plugin_down cerebro (codes "exit")) in
    eqb (length up.tools) 2
    && where_some (Map.get (codes "cerebro.recall") up.tools) (λ owner. owner == cerebro)
    && eqb (length down.tools) 0
    && eqb (length down.plugins) 0

-- `sort_by_key`
abbrev sorted_in : ℕ → List ℕ → List ℕ
sorted_in x [] = x ∷ []
sorted_in x (y ∷ ys) = let rest = sorted_in x ys in if leb x y then x ∷ y ∷ ys else y ∷ rest

abbrev sorted : List ℕ → List ℕ
sorted [] = []
sorted (x ∷ xs) = sorted_in x (sorted xs)

abbrev subtree_collects_transitive_children : Bool
subtree_collects_transitive_children =
    let s = prompt (codes "root") [] (default plain) in
    let family = register_child (register_child (register_child s 2 1) 3 1) 4 2 in
    where_some (subtree family 4 1) (λ tree. sorted tree == (1 ∷ 2 ∷ 3 ∷ 4 ∷ []))

abbrev approval_pending_then_resolved_clears_state : Bool
approval_pending_then_resolved_clears_state =
    let call : ToolCall plain = record {
      id = 7;
      tool = codes "shell.exec";
      args = 0;
      needs_approval = true;
    } in
    let waits = apply (default plain) (approval_pending 1 call) in
    let resolved = apply waits (user_approval 1 7 true) in
    eqb (length waits.pending_approvals) 1 && eqb (length resolved.pending_approvals) 0

abbrev second_user_prompt_appends_to_existing_session : Bool
second_user_prompt_appends_to_existing_session =
    let s = prompt (codes "second") [] (prompt (codes "first") [] (default plain)) in
    where_some (Map.get 1 s.sessions) (λ ctx. eqb (length ctx.history) 2)

abbrev is_text : Text → ContentBlock plain → Bool
is_text t (text u) = u == t
is_text t _ = false

abbrev is_image : Text → Text → ContentBlock plain → Bool
is_image media encoded (image m d) = m == media && (d == encoded)
is_image media encoded _ = false

abbrev is_some_image : ContentBlock plain → Bool
is_some_image (image m d) = true
is_some_image _ = false

abbrev of_user : Message plain → (List (ContentBlock plain) → Bool) → Bool
of_user (user content) test = test content
of_user (assistant content) test = false

abbrev first_message : SystemState plain → (List (ContentBlock plain) → Bool) → Bool
first_message s test =
    where_some (Map.get 1 s.sessions)
      (λ ctx. where_some (get_elem? ctx.history 0) (λ m. of_user m test))

abbrev user_prompt_with_images_folds_text_then_image_blocks : Bool
user_prompt_with_images_folds_text_then_image_blocks =
    let s =
      prompt (codes "look")
        (record { media_type = codes "image/jpeg"; image_data = codes "QUJD" } ∷ [])
        (default plain) in
    where_some (Map.get 1 s.sessions) (λ ctx. eqb (length ctx.history) 1)
    && first_message s (λ content.
      eqb (length content) 2
      && where_some (get_elem? content 0) (is_text (codes "look"))
      && where_some (get_elem? content 1) (is_image (codes "image/jpeg") (codes "QUJD")))

abbrev image_only_prompt_skips_the_empty_text_block : Bool
image_only_prompt_skips_the_empty_text_block =
    let s =
      prompt [] (record { media_type = codes "image/png"; image_data = codes "QQ" } ∷ [])
        (default plain) in
    first_message s
      (λ content. eqb (length content) 1 && where_some (get_elem? content 0) is_some_image)

tests_hold :
    (user_prompt_creates_root_session_and_appends_history
      && plugin_up_registers_tools_then_down_removes_them && subtree_collects_transitive_children
      && approval_pending_then_resolved_clears_state
      && second_user_prompt_appends_to_existing_session
      && user_prompt_with_images_folds_text_then_image_blocks
      && image_only_prompt_skips_the_empty_text_block)
    ≡ true
unfolding apply register_child subtree subtree_loop kids register_tools prompt_content is_root root
    child Map.get Map.insert Map.remove Map.retain
tests_hold = refl
