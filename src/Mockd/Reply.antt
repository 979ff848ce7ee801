-- ===== src/Mockd/Reply.antt =====
-- A turn against the `llm` mock (xtest/src/bin/mockd.rs; kernel/src/net/mesh.rs, `MeshInference`).
use apex_os_rv.Prelude.{
  ℕ, suc, ◌+◌, ◌*◌, ◌≤◌, ◌<◌, ◌≡◌, refl, ap, ◌∙◌, subst, Bool, false, none, some, [], ◌∷◌, ◌++◌,
  append_assoc, Text, codes, ltb, unwrap_or, returned, arith, if◌then◌else◌, Bool-cases, inl, inr,
}
use apex_os_rv.Str.Lines.{newline}
use apex_os_rv.Str.Decimal.{decimal}
use apex_os_rv.Protocol.Wire.{Wire}
use apex_os_rv.Gateway.{ClientFrame}
use apex_os_rv.Goal.Driver.{TickContext, Verdict, completed, pending, u32}
use apex_os_rv.Goal.Directive.{step_directive, parse_goal_step}
use apex_os_rv.Goal.Directive.RoundTrip.{verdict_line, IsSayable, parse-verdict_line}
use apex_os_rv.Kernel.Mesh.{Channel, Serde, MeshInference, next}
use apex_os_rv.Kernel.Watchdog.Patient.{Answers, later}
use apex_os_rv.Mockd
use apex_os_rv.Mockd.{Json, is_contract, on_prompt, llm_round, reply_frames, body_and_verdict}
use apex_os_rv.Kernel.Mesh.Engine.{engine}
use apex_os_rv.Mockd.Peer.{Peer, wire, Agrees}
use apex_os_rv.Mockd.Turns.{
  talking, idle, waits, waits-total, reply_after, verdict, talking-Answers,
}

-- The verdict of the mock's turn `k`.
abbrev pub verdict_at : ℕ → Verdict
verdict_at k = if ltb k 3 then Verdict.continue none else Verdict.done

-- What the frames of a turn make of the reply.
abbrev pub reply_at : ℕ → Text × Text → Text
reply_at k (body, verdict) =
    (codes "Step " ++ (decimal k ++ (codes " " ++ (body ++ codes "\n")))) ++ verdict

regroup :
    (a b c d : Text) (n : ℕ) (v : Text)
    → (a ++ (b ++ (c ++ (d ++ n ∷ [])))) ++ v ≡ (a ++ (b ++ (c ++ d))) ++ n ∷ v
regroup a b c d n v = simp append_assoc refl

reply-verdict :
    (k : ℕ) (body : Text) (v : Verdict)
    → IsSayable v
    → parse_goal_step (reply_at k (body, verdict_line v)) ≡ some v
reply-verdict k body v h =
    ap parse_goal_step
      (regroup (codes "Step ") (decimal k) (codes " ") body newline (verdict_line v))
    ∙ parse-verdict_line (codes "Step " ++ (decimal k ++ (codes " " ++ body))) v h

module _ {w : Wire} {V : Type 0} (serde : Serde w) (json : Json V)
    (agrees : Agrees serde json) where
  parse-reply_at :
      (k : ℕ) → parse_goal_step (reply_at k (body_and_verdict json k)) ≡ some (verdict_at k)
  parse-reply_at k = elim (Bool-cases (ltb k 3)) [
    | inl early ↦
        rw early (reply-verdict k (codes "acknowledged — proceeding.") (Verdict.continue none) tt)
    | inr last ↦ rw last (reply-verdict k (codes "objective complete.") Verdict.done tt)
  ]

  -- The mock takes the kernel's prompt.
  pub llm_round-prompt :
      (silent : Bool) (k : ℕ) (frame : ClientFrame)
      → llm_round json silent k (Mockd.text (serde.to_string frame))
        ≡ returned (some (u32 (k + 1)), reply_frames json silent (u32 (k + 1)))
  unfolding llm_round on_prompt is_contract
  llm_round-prompt silent k frame =
      let (v, read, typed, session, images) = agrees.prompt_read frame in
      rw read (rw (typed, session, images) refl)

  module _ (delay : ℕ → ℕ) (fuel : ℕ) (enough : 2 < fuel) where
    abbrev pub channel : Channel Peer
    channel = wire json false delay

    -- Between two turns.
    abbrev pub idle_at : ℕ → ℕ → Text → MeshInference Peer
    idle_at k n reply = idle (record { serving = some k; sent = n; queue = [] }) reply

    -- A whole turn, where no frame waits for more than `most` calls.
    pub idle_at-Answers :
        (most k n : ℕ) (reply : Text) (ctx : TickContext)
        → ((i : ℕ) → delay i ≤ most)
        → let k' = u32 (k + 1) in
          (m : ℕ) × (m ≤ 3 * most + 1)
          × Answers w
              (engine serde channel fuel)
              ctx
              m
              (returned (idle_at k n reply))
              (completed (verdict_at k'))
              (returned (idle_at k' (n + 3) (reply_at k' (body_and_verdict json k'))))
    unfolding next reply_frames
    idle_at-Answers most k n reply ctx soon =
        let k' = u32 (k + 1) in
        let (body, said) = body_and_verdict json k' in
        let first =
          json.agent_text 42
            (codes "Step " ++ (decimal k' ++ (codes " " ++ (body ++ codes "\n")))) in
        let second = json.agent_text 42 said in
        let rest = (delay (suc n), second) ∷ (delay (suc (suc n)), json.turn_complete 42) ∷ [] in
        let p : Peer = record { serving = some k'; sent = n + 3; queue = [] } in
        let asked : engine serde channel fuel (returned (idle_at k n reply)) ctx
            ≡ (pending, returned (talking p ((delay n, first) ∷ rest) [])) =
          rw (llm_round-prompt false k (ClientFrame.user_prompt (step_directive ctx))) refl in
        let answered : Answers w (engine serde channel fuel) ctx (waits (delay n) rest)
            (returned (talking p ((delay n, first) ∷ rest) []))
            (verdict (reply_after serde [] first rest))
            (returned (idle p (reply_after serde [] first rest))) =
          talking-Answers serde json false delay fuel ctx (delay n) first rest p [] enough
            (rw agrees.text_read refl, (rw agrees.text_read refl, rw agrees.complete_read refl)) in
        let heard : reply_after serde [] first rest ≡ reply_at k' (body, said) =
          rw agrees.text_read (rw agrees.text_read refl) in
        (
          suc (waits (delay n) rest),
          omega (arith, waits-total (delay n) rest, soon n, soon (suc n), soon (suc (suc n))),
          later asked (
              subst
                (λ v.
                  Answers w (engine serde channel fuel) ctx (waits (delay n) rest)
                    (returned (talking p ((delay n, first) ∷ rest) []))
                    (completed (unwrap_or v (Verdict.continue none)))
                    (returned (idle p (reply_at k' (body, said)))))
                (parse-reply_at k')
                (subst
                  (λ x.
                    Answers w (engine serde channel fuel) ctx (waits (delay n) rest)
                      (returned (talking p ((delay n, first) ∷ rest) [])) (verdict x)
                      (returned (idle p x)))
                  heard answered)),
        )
