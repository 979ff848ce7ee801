-- ===== src/State/Sessions.antt =====
-- The conversations (agent-core/src/state.rs, `UserPrompt`).
use apex_os_rv.Prelude.{
  ◌≡◌, refl, ap, ◌∙◌, Option, some, List, [], ◌∷◌, ◌++◌, ◌==◌, nat_eq, eqb_iff, unwrap_or,
  if◌then◌else◌, Bool-cases, inl, inr,
}
use apex_os_rv.Map
use apex_os_rv.Map.{Map}
use apex_os_rv.Protocol.Wire.{Wire, SessionId}
use apex_os_rv.Protocol.Session.{AgentContext, Message, user, root}
use apex_os_rv.Protocol.Event.{Event, user_prompt}
use apex_os_rv.State.{SystemState, prompt_content, apply, apply_all}

module _ {w : Wire} where
  -- One more message of a session, which is a root session if it is new.
  abbrev pub heard : SessionId → Option (AgentContext w) → Message w → Option (AgentContext w)
  heard x o m =
      let ctx = unwrap_or o (root w x) in some (record ctx { history = ctx.history ++ m ∷ [] })

  -- A session after the prompts that name it, in order.
  abbrev pub after_prompts :
      SessionId → Option (AgentContext w) → List (Event w) → Option (AgentContext w)
  after_prompts x o [] = o
  after_prompts x o (user_prompt session txt images ∷ es) =
      after_prompts x (if session == x then heard x o (user (prompt_content txt images)) else o) es
  after_prompts x o (_ ∷ es) = after_prompts x o es

  heard-insert :
      (s : SystemState w) (x session : SessionId) (m : Message w)
      → let ctx = unwrap_or (Map.get session s.sessions) (root w session) in
        Map.get x (Map.insert session (record ctx { history = ctx.history ++ m ∷ [] }) s.sessions)
        ≡ (if session == x then heard x (Map.get x s.sessions) m else Map.get x s.sessions)
  heard-insert s x session m = rw Map.get-insert (elim (Bool-cases (session == x)) [
    | inl same ↦ let e : session ≡ x = (eqb_iff session x).0 same in rw e
    | inr other ↦ rw other
  ])

  -- After any events, from any state, a session is what its own prompts make of it: a root
  -- session with a message for each, or the session of before with these messages added. No other
  -- event touches a session.
  pub get-sessions :
      (es : List (Event w)) (s : SystemState w) (x : SessionId)
      → Map.get x (apply_all s es).sessions ≡ after_prompts x (Map.get x s.sessions) es
  unfolding apply_all apply
  get-sessions [] s x = refl
  get-sessions (user_prompt session txt images ∷ es) s x =
      get-sessions es (apply s (user_prompt session txt images)) x
      ∙ ap (λ o. after_prompts x o es) (heard-insert s x session (user (prompt_content txt images)))
  get-sessions (e ∷ es) s x = get-sessions es (apply s e) x
