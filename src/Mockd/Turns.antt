-- ===== src/Mockd/Turns.antt =====
-- A turn of the inference over frames that arrive late (kernel/src/net/mesh.rs, `MeshInference::next`).
use apex_os_rv.Prelude.{
  ℕ, zero, suc, ◌+◌, ◌<◌, ◌≡◌, ◌≢◌, refl, ap, ◌∙◌, Bool, true, false, none, List, [], ◌∷◌, ◌++◌,
  Text, length, unwrap_or, returned, arith,
}
use apex_os_rv.Protocol.Wire.{Wire}
use apex_os_rv.Goal.Driver.{TickContext, TurnResult, Verdict, completed, pending}
use apex_os_rv.Goal.Directive.{parse_goal_step}
use apex_os_rv.Kernel.Mesh.{Serde, MeshInference, receive}
use apex_os_rv.Kernel.Mesh.Turn.{
  said_by, is_end, receive-suc, receive-end, receive-idle, next-in_flight,
}
use apex_os_rv.Kernel.Watchdog.Patient.{Answers, now, later}
use apex_os_rv.Mockd.{Json}
use apex_os_rv.Kernel.Mesh.Engine.{ran, engine}
use apex_os_rv.Mockd.Peer.{Peer, wire}

-- With a turn in flight, and with none.
abbrev pub talking : Peer → List (ℕ × Text) → Text → MeshInference Peer
talking p queue reply = record {
  mesh = record p { queue = queue };
  reply = reply;
  in_flight = true;
}

abbrev pub idle : Peer → Text → MeshInference Peer
idle p reply = record { mesh = record p { queue = [] }; reply = reply; in_flight = false }

-- How many calls frames wait for, behind a first one that waits for `d`.
abbrev pub waits : ℕ → List (ℕ × Text) → ℕ
waits zero [] = 0
waits (suc d) [] = suc (waits d [])
waits zero ((d', t') ∷ rest) = waits d' rest
waits (suc d) ((d', t') ∷ rest) = suc (waits d ((d', t') ∷ rest))

abbrev pub total_wait : List (ℕ × Text) → ℕ
total_wait [] = 0
total_wait ((d, t) ∷ rest) = d + total_wait rest

pub waits-total : (d : ℕ) (rest : List (ℕ × Text)) → waits d rest ≡ d + total_wait rest
waits-total zero [] = omega arith
waits-total (suc d) [] = omega (arith, waits-total d [])
waits-total zero ((d', t') ∷ rest) = omega (arith, waits-total d' rest)
waits-total (suc d) ((d', t') ∷ rest) = omega (arith, waits-total d ((d', t') ∷ rest))

abbrev pub verdict : Text → TurnResult
verdict reply = completed (unwrap_or (parse_goal_step reply) (Verdict.continue none))

module _ {w : Wire} (serde : Serde w) where
  -- The frames behind a first one, of which the last and only the last ends the turn, and what they
  -- leave in the reply.
  abbrev pub IsTurn : Text → List (ℕ × Text) → Type 0
  IsTurn t [] = is_end (serde.from_str t) ≡ true
  IsTurn t ((d', t') ∷ rest) = (is_end (serde.from_str t) ≡ false) × IsTurn t' rest

  abbrev pub reply_after : Text → Text → List (ℕ × Text) → Text
  reply_after reply t [] = reply
  reply_after reply t ((d', t') ∷ rest) = reply_after (reply ++ said_by (serde.from_str t)) t' rest

  module _ {V : Type 0} (json : Json V) (silent : Bool) (delay : ℕ → ℕ) (fuel : ℕ)
      (ctx : TickContext) where
    -- A call of which `k` rounds are left starts an answer.
    abbrev Begins : ℕ → ℕ → MeshInference Peer → TurnResult → MeshInference Peer → Type 0
    Begins k zero inf r inf' = receive serde (wire json silent delay) k inf ≡ returned (r, inf')
    Begins k (suc n) inf r inf' =
        (onward : MeshInference Peer) × (receive serde (wire json silent delay) k inf
          ≡ returned (pending, onward))
        × Answers w (engine serde (wire json silent delay) fuel) ctx n (returned onward) r
            (returned inf')

    Begins-along :
        (k k' n : ℕ) (inf inf' end : MeshInference Peer) (r : TurnResult)
        → receive serde (wire json silent delay) k inf
          ≡ receive serde (wire json silent delay) k' inf'
        → Begins k' n inf' r end
        → Begins k n inf r end
    Begins-along k k' zero inf inf' end r e b = e ∙ b
    Begins-along k k' (suc n) inf inf' end r e (onward, f, answers) = (onward, e ∙ f, answers)

    Begins-Answers :
        (n : ℕ) (inf inf' : MeshInference Peer) (r : TurnResult)
        → inf.in_flight ≡ true
        → r ≢ pending
        → Begins fuel n inf r inf'
        → Answers w
            (engine serde (wire json silent delay) fuel)
            ctx
            n
            (returned inf)
            r
            (returned inf')
    Begins-Answers zero inf inf' r on ne b =
        now (ap ran (next-in_flight serde (wire json silent delay) fuel inf ctx on ∙ b)) ne
    Begins-Answers (suc n) inf inf' r on ne (onward, f, answers) =
        later (ap ran (next-in_flight serde (wire json silent delay) fuel inf ctx on ∙ f)) answers

    begins :
        (rest : List (ℕ × Text)) (d : ℕ) (t : Text) (k : ℕ) (p : Peer) (reply : Text)
        → length rest < k
        → length rest < fuel
        → IsTurn t rest
        → Begins k
            (waits d rest)
            (talking p ((d, t) ∷ rest) reply)
            (verdict (reply_after reply t rest))
            (idle p (reply_after reply t rest))
    begins rest d t zero p reply h enough turn = absurd (omega arith)
    begins [] zero t (suc k) p reply h enough turn =
        receive-end serde (wire json silent delay) k (talking p ((0, t) ∷ []) reply) _ t refl turn
    begins [] (suc d) t (suc k) p reply h enough turn = (
      talking p ((d, t) ∷ []) reply,
      receive-idle serde (wire json silent delay) k (talking p ((suc d, t) ∷ []) reply) _ refl,
      Begins-Answers (waits d []) (talking p ((d, t) ∷ []) reply) _ _ refl (λ e. cc)
          (begins [] d t fuel p reply enough enough turn),
    )
    begins ((d', t') ∷ rest) zero t (suc k) p reply h enough (quiet, turn) =
        Begins-along (suc k) k (waits d' rest) (talking p ((0, t) ∷ (d', t') ∷ rest) reply)
          (talking p ((d', t') ∷ rest) (reply ++ said_by (serde.from_str t))) _ _
          (receive-suc serde (wire json silent delay) k (talking p ((0, t) ∷ (d', t') ∷ rest) reply)
            _ t refl quiet)
          (begins rest d' t' k p (reply ++ said_by (serde.from_str t)) (omega arith) (omega arith)
            turn)
    begins ((d', t') ∷ rest) (suc d) t (suc k) p reply h enough turn = (
      talking p ((d, t) ∷ (d', t') ∷ rest) reply,
      receive-idle serde (wire json silent delay) k (talking p ((suc d, t) ∷ (d', t') ∷ rest) reply)
          _ refl,
      Begins-Answers (waits d ((d', t') ∷ rest)) (talking p ((d, t) ∷ (d', t') ∷ rest) reply) _ _
          refl (λ e. cc) (begins ((d', t') ∷ rest) d t fuel p reply enough enough turn),
    )

    -- With a turn in flight, and its frames under way: the inference is pending for as many calls as
    -- they wait for, and then answers the verdict of the reply that they make.
    pub talking-Answers :
        (d : ℕ) (t : Text) (rest : List (ℕ × Text)) (p : Peer) (reply : Text)
        → length rest < fuel
        → IsTurn t rest
        → Answers w
            (engine serde (wire json silent delay) fuel)
            ctx
            (waits d rest)
            (returned (talking p ((d, t) ∷ rest) reply))
            (verdict (reply_after reply t rest))
            (returned (idle p (reply_after reply t rest)))
    talking-Answers d t rest p reply enough turn =
        Begins-Answers (waits d rest) _ _ _ refl (λ e. cc)
          (begins rest d t fuel p reply enough enough turn)
