-- ===== src/Kernel/Mesh/Turn.antt =====
-- What a call of `MeshInference::next` comes to (kernel/src/net/mesh.rs).
use apex_os_rv.Prelude.{
  ℕ, suc, ◌+◌, ◌-◌, ◌<◌, ◌≡◌, refl, ap, sym, ◌∙◌, Bool, true, false, Option, none, some, List, [],
  ◌∷◌, ◌++◌, append_assoc, append-nil, Text, unwrap_or, length, arith, if◌then◌else◌, returned,
}
use apex_os_rv.Protocol.Wire.{Wire}
use apex_os_rv.Protocol.Event.{Event, agent_text, turn_complete}
use apex_os_rv.Goal.Driver.{TickContext, Verdict, completed, pending}
use apex_os_rv.Goal.Directive.{parse_goal_step}
use apex_os_rv.Kernel.Mesh.{Channel, Serde, MeshInference, on_frame, on_text, receive, next}

-- What a frame adds to the reply.
abbrev pub said_by : {w : Wire} → Option (Event w) → Text
said_by (some (agent_text session delta)) = delta
said_by _ = []

abbrev pub is_end : {w : Wire} → Option (Event w) → Bool
is_end (some (turn_complete session)) = true
is_end _ = false

module _ {w : Wire} {M : Type 0} (serde : Serde w) (channel : Channel M) where
  -- What a list of texts adds to the reply.
  abbrev pub said : List Text → Text
  said [] = []
  said (t ∷ ts) = said_by (serde.from_str t) ++ said ts

  -- `Arrives m ts m'`: from the session `m` on, as many calls of `try_next_text` as `ts` has texts
  -- return these texts, none of which ends the turn, and lead to the session `m'`.
  pub data Arrives : M → List Text → M → Type 0 where
    nothing : {m : M} → Arrives m [] m
    text :
        {m m' m'' : M} {t : Text} {ts : List Text}
        → channel.try_next_text m ≡ returned (some t, m')
        → is_end (serde.from_str t) ≡ false
        → Arrives m' ts m''
        → Arrives m (t ∷ ts) m''

  on_frame-said :
      (e : Option (Event w)) (inf : MeshInference M)
      → is_end e ≡ false
      → on_frame serde channel e inf ≡ (none, record inf { reply = inf.reply ++ said_by e })
  unfolding on_frame
  on_frame-said (some (agent_text session delta)) inf h = refl
  on_frame-said (some (turn_complete session)) inf h = absurd (ground arith)
  on_frame-said e inf h = ap (λ r. (none, record inf { reply = r })) (sym (append-nil inf.reply))

  -- The session and the reply of an inference, after texts arrived.
  abbrev heard : MeshInference M → M → List Text → MeshInference M
  heard inf m ts = record inf { mesh = m; reply = inf.reply ++ said ts }

  pub receive-suc :
      (fuel : ℕ) (inf : MeshInference M) (m : M) (t : Text)
      → channel.try_next_text inf.mesh ≡ returned (some t, m)
      → is_end (serde.from_str t) ≡ false
      → receive serde channel (suc fuel) inf
        ≡ receive serde channel fuel
            (record inf { mesh = m; reply = inf.reply ++ said_by (serde.from_str t) })
  unfolding receive on_text
  receive-suc fuel inf m t e quiet =
      rw (e, on_frame-said (serde.from_str t) (record inf { mesh = m }) quiet) refl

  -- The fuel that is left with `fuel` behind these texts.
  abbrev past : List Text → ℕ → ℕ
  past [] fuel = fuel
  past (t ∷ ts) fuel = suc (past ts fuel)

  past-length : (ts : List Text) (fuel : ℕ) → past ts fuel ≡ length ts + fuel
  past-length [] fuel = omega arith
  past-length (t ∷ ts) fuel = omega (arith, past-length ts fuel)

  receive-Arrives :
      (fuel : ℕ) (inf : MeshInference M) {m : M} {ts : List Text}
      → Arrives inf.mesh ts m
      → receive serde channel (past ts fuel) inf ≡ receive serde channel fuel (heard inf m ts)
  receive-Arrives fuel inf nothing =
      ap (λ r. receive serde channel fuel (record inf { reply = r })) (sym (append-nil inf.reply))
  receive-Arrives fuel inf (text {m' = m'} {m'' = m''} {t = t} {ts = ts} e quiet more) =
      receive-suc (past ts fuel) inf m' t e quiet
      ∙ receive-Arrives fuel
          (record inf { mesh = m'; reply = inf.reply ++ said_by (serde.from_str t) }) more
      ∙ ap (λ r. receive serde channel fuel (record inf { mesh = m''; reply = r }))
          (append_assoc inf.reply (said_by (serde.from_str t)) (said ts))

  abbrev verdict : Text → Verdict
  verdict reply = unwrap_or (parse_goal_step reply) (Verdict.continue none)

  on_frame-end :
      (e : Option (Event w)) (inf : MeshInference M)
      → is_end e ≡ true
      → on_frame serde channel e inf
        ≡ (some (completed (verdict inf.reply)), record inf { in_flight = false })
  unfolding on_frame
  on_frame-end (some (turn_complete session)) inf h = refl
  on_frame-end e inf h = absurd (ground arith)

  pub receive-end :
      (fuel : ℕ) (inf : MeshInference M) (m : M) (t : Text)
      → channel.try_next_text inf.mesh ≡ returned (some t, m)
      → is_end (serde.from_str t) ≡ true
      → receive serde channel (suc fuel) inf
        ≡ returned (completed (verdict inf.reply), record inf { mesh = m; in_flight = false })
  unfolding receive on_text
  receive-end fuel inf m t e ends =
      rw (e, on_frame-end (serde.from_str t) (record inf { mesh = m }) ends) refl

  pub receive-idle :
      (fuel : ℕ) (inf : MeshInference M) (m : M)
      → channel.try_next_text inf.mesh ≡ returned (none, m)
      → receive serde channel (suc fuel) inf ≡ returned (pending, record inf { mesh = m })
  unfolding receive on_text
  receive-idle fuel inf m e = rw e refl

  pub next-in_flight :
      (fuel : ℕ) (inf : MeshInference M) (ctx : TickContext)
      → inf.in_flight ≡ true
      → next serde channel fuel inf ctx ≡ receive serde channel fuel inf
  unfolding next
  next-in_flight fuel inf ctx on =
      ap
        (λ b.
          if b
          then receive serde channel fuel inf
          else next serde channel fuel (record inf { in_flight = false }) ctx)
        on

  -- A call with a turn in flight, from where the texts have arrived on.
  next-Arrives :
      (fuel : ℕ) (inf : MeshInference M) (ctx : TickContext) {m : M} {ts : List Text}
      → inf.in_flight ≡ true
      → Arrives inf.mesh ts m
      → length ts < fuel
      → next serde channel fuel inf ctx
        ≡ receive serde channel (suc (fuel - suc (length ts))) (heard inf m ts)
  next-Arrives fuel inf ctx {ts = ts} on arrives enough =
      let left = suc (fuel - suc (length ts)) in
      next-in_flight fuel inf ctx on
      ∙ ap (λ n. receive serde channel n inf) (omega (arith, past-length ts left))
      ∙ receive-Arrives left inf arrives

  -- With a turn in flight, when `ts`, of which none ends the turn, and then a text that ends it
  -- arrive: the call returns the verdict of the reply that was heard in all, or `continue` where
  -- it has none, and no turn is in flight any more. One round for each text and one for the end
  -- are fuel enough.
  pub next-completed :
      (fuel : ℕ) (inf : MeshInference M) (ctx : TickContext) {m m' : M} {ts : List Text} {t : Text}
      → inf.in_flight ≡ true
      → Arrives inf.mesh ts m
      → channel.try_next_text m ≡ returned (some t, m')
      → is_end (serde.from_str t) ≡ true
      → length ts < fuel
      → next serde channel fuel inf ctx
        ≡ returned (
          completed (unwrap_or (parse_goal_step (inf.reply ++ said ts)) (Verdict.continue none)),
          record { mesh = m'; reply = inf.reply ++ said ts; in_flight = false },
        )
  next-completed fuel inf ctx {m} {m'} {ts} {t} on arrives e ends enough =
      next-Arrives fuel inf ctx on arrives enough
      ∙ receive-end (fuel - suc (length ts)) (heard inf m ts) m' t e ends

  -- With a turn in flight, when `ts`, of which none ends the turn, and then nothing arrive: the
  -- call returns that the turn is pending, keeps the turn in flight, and has added to the reply
  -- what was heard. One round for each text and one more are fuel enough.
  pub next-pending :
      (fuel : ℕ) (inf : MeshInference M) (ctx : TickContext) {m m' : M} {ts : List Text}
      → inf.in_flight ≡ true
      → Arrives inf.mesh ts m
      → channel.try_next_text m ≡ returned (none, m')
      → length ts < fuel
      → next serde channel fuel inf ctx
        ≡ returned (pending, record inf { mesh = m'; reply = inf.reply ++ said ts })
  next-pending fuel inf ctx {m} {m'} {ts} on arrives e enough =
      next-Arrives fuel inf ctx on arrives enough
      ∙ receive-idle (fuel - suc (length ts)) (heard inf m ts) m' e
