-- ===== src/Mockd.antt =====
-- The mock peer of the mesh gates (xtest/src/bin/mockd.rs): its decisions, on what it reads off its
-- connection. The listener, the connection and the printing are not modelled; tungstenite's messages
-- and serde's values are parameters. `Outcome.panicked` is an assertion of the mock that failed.
pub mod Peer
pub mod Turns
pub mod Reply
pub mod Goal
pub mod Silent
use apex_os_rv.Prelude.{
  ℕ, zero, suc, ◌+◌, Bool, true, false, not, ◌&&◌, Option, none, some, List, [], ◌∷◌, ◌++◌, Text,
  codes, ltb, ◌==◌, list_eq, nat_eq, unwrap_or, if◌then◌else◌, Outcome, returned, panicked,
  out_of_fuel, and_then, expect,
}
use apex_os_rv.Str.Decimal.{decimal}
use apex_os_rv.Goal.Driver.{u32}

-- `llm` with whether it is silent.
pub data Mode : Type 0 where
  echo ws : Mode
  llm : Bool → Mode

-- The match on the first argument; `none` exits with code 2.
unfoldable pub mode_of : Option Text → Option Mode
mode_of arg =
    let mode = unwrap_or arg (codes "echo") in
    if mode == codes "echo"
    then some echo
    else if mode == codes "ws"
    then some ws
    else if mode == codes "llm"
    then some (llm false)
    else if mode == codes "silent"
    then some (llm true)
    else none

-- The second argument, with `str::parse` at u16.
unfoldable pub port_of : (Text → Option ℕ) → Option Text → ℕ
port_of parse none = 9601
port_of parse (some p) = unwrap_or (parse p) 9601

-- What `sock.read()` returns: a close, a message that is a text or is none, or an error.
pub data Read : Type 0 where
  close : Read
  text : Text → Read
  not_text : Read
  error : Read

-- `serde_json::Value`: reading one, `v[key]` where that is a string, whether `v.get(key)` is some, and
-- the two frames that `json!` builds, as printed.
pub record Json (V : Type 0) : Type 0 where
  pub from_str : Text → Option V
  pub string_at : Text → V → Option Text
  pub has : Text → V → Bool
  pub agent_text : ℕ → Text → Text
  pub turn_complete : ℕ → Text

abbrev pub session_init : Text
session_init = codes "{\"type\": \"session_init\", \"session_id\": 42, \"history\": []}"

module _ {V : Type 0} (json : Json V) where
  -- The three assertions on a frame of the client.
  unfoldable pub is_contract : V → Bool
  is_contract v =
      (unwrap_or (json.string_at (codes "type") v) [] == codes "user_prompt")
      && not (json.has (codes "session") v)
      && not (json.has (codes "images") v)

  -- What stands in the reply of a turn: the work, and the verdict.
  abbrev pub body_and_verdict : ℕ → Text × Text
  body_and_verdict turn =
      if ltb turn 3
      then (codes "acknowledged — proceeding.", codes "GOAL_STEP: continue")
      else (codes "objective complete.", codes "GOAL_STEP: done")

  -- The frames that a prompt is replied with.
  unfoldable pub reply_frames : Bool → ℕ → List Text
  reply_frames true turn = json.agent_text 42 (codes "thinking very hard about") ∷ []
  reply_frames false turn =
      let (body, verdict) = body_and_verdict turn in
      json.agent_text 42 (codes "Step " ++ (decimal turn ++ (codes " " ++ (body ++ codes "\n"))))
      ∷ json.agent_text 42 verdict
      ∷ json.turn_complete 42
      ∷ []

  -- A prompt, at the number of turns so far: the new number, and the frames.
  unfoldable pub on_prompt : Bool → ℕ → Text → Outcome (ℕ × List Text)
  on_prompt silent turn frame = and_then (expect (json.from_str frame)) (λ v.
      if is_contract v
      then returned (u32 (turn + 1), reply_frames silent (u32 (turn + 1)))
      else panicked)

  -- The body of the loop of `llm`; without a number of turns the loop has ended.
  unfoldable pub llm_round : Bool → ℕ → Read → Outcome (Option ℕ × List Text)
  llm_round silent turn close = returned (none, [])
  llm_round silent turn error = returned (none, [])
  llm_round silent turn not_text = returned (some turn, [])
  llm_round silent turn (text frame) =
      and_then (on_prompt silent turn frame) (λ (turn', frames). returned (some turn', frames))

-- The loop of `ws`: whether it goes on.
unfoldable pub ws_goes_on : Read → Bool
ws_goes_on close = false
ws_goes_on error = false
ws_goes_on _ = true

-- The loop of `echo`, on the reads of the connection, where `none` is the error, and whether the write
-- after each succeeds: the bytes that are written.
unfoldable pub echo_loop : List (Option (List ℕ) × Bool) → List ℕ
echo_loop [] = []
echo_loop ((none, ok) ∷ more) = []
echo_loop ((some [], ok) ∷ more) = []
echo_loop ((some (b ∷ bytes), ok) ∷ more) =
    let rest = echo_loop more in if ok then (b ∷ bytes) ++ rest else []
