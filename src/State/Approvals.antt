-- ===== src/State/Approvals.antt =====
-- The pending approvals (agent-core/src/state.rs).
use apex_os_rv.Prelude.{
  ◌≡◌, refl, ap, ◌∙◌, Option, none, some, List, [], ◌∷◌, ◌==◌, nat_eq, if◌then◌else◌,
}
use apex_os_rv.Map
use apex_os_rv.Map.{Map}
use apex_os_rv.Protocol.Wire.{Wire, SessionId, ActionId}
use apex_os_rv.Protocol.Event.{Event, user_approval, approval_pending}
use apex_os_rv.State.{SystemState, apply, apply_all}

module _ {w : Wire} where
  -- Whether an action waits, and for which session, by the newest event that names it: `o` is the
  -- answer before the events.
  abbrev pub waiting : ActionId → Option SessionId → List (Event w) → Option SessionId
  waiting a o [] = o
  waiting a o (approval_pending session call ∷ es) =
      waiting a (if call.id == a then some session else o) es
  waiting a o (user_approval session action granted ∷ es) =
      waiting a (if action == a then none else o) es
  waiting a o (_ ∷ es) = waiting a o es

  -- After any events, from any state, exactly those actions wait whose newest event asked for an
  -- approval; whether one was granted or refused makes no difference.
  pub get-pending_approvals :
      (es : List (Event w)) (s : SystemState w) (a : ActionId)
      → Map.get a (apply_all s es).pending_approvals ≡ waiting a (Map.get a s.pending_approvals) es
  unfolding apply_all apply
  get-pending_approvals [] s a = refl
  get-pending_approvals (approval_pending session call ∷ es) s a =
      get-pending_approvals es (apply s (approval_pending session call)) a
      ∙ ap (λ o. waiting a o es) (Map.get-insert call.id a session s.pending_approvals)
  get-pending_approvals (user_approval session action granted ∷ es) s a =
      get-pending_approvals es (apply s (user_approval session action granted)) a
      ∙ ap (λ o. waiting a o es) (Map.get-remove action a s.pending_approvals)
  get-pending_approvals (e ∷ es) s a = get-pending_approvals es (apply s e) a
