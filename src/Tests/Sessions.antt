-- ===== src/Tests/Sessions.antt =====
-- A session whose frames are single bytes: 9 is a ping, and 33 ends a message.
use apex_os_rv.Prelude.{
  none, unwrap_or, true, false, returned_inj, subst, length, ◌+◌, ◌≤◌, Outcome, returned,
  out_of_fuel, ℕ, ◌≡◌, ◌≢◌, refl, some, List, [], ◌∷◌, eqb, codes, if◌then◌else◌, arith,
}
use apex_os_rv.Protocol.Event.{turn_complete}
use apex_os_rv.Gateway.{ClientFrame}
use apex_os_rv.Goal.Driver.{completed, Verdict}
use apex_os_rv.Goal.Directive.{parse_goal_step}
use apex_os_rv.Kernel.Mesh.{Serde, next}
use apex_os_rv.Kernel.Mesh.OverSession.{session, next-message}
use apex_os_rv.Tests.Values.{plain, context}
use apex_os_rv.Kernel.Session.{
  text, ping, Frame, Decoded, decoded, frame_incomplete, WebSocket, Stream, Mesh,
}
use apex_os_rv.Kernel.Session.Receive.{IsTotal, ConsumesHeader}
use apex_os_rv.Kernel.Session.Fragments.{nothing, fragment, answered}

abbrev frame_of : ℕ → Frame
frame_of b = record {
  len_from = 1;
  message_type = if eqb b 9 then ping else text;
  end_of_message = eqb b 33;
  payload = b ∷ [];
}

abbrev pub read_byte : ℕ → List ℕ → Decoded ℕ
read_byte ws [] = frame_incomplete
read_byte ws (b ∷ bytes) = decoded (frame_of b) ws

abbrev pub web : WebSocket ℕ
web = record {
  read = read_byte;
  write_text = λ ws payload. some (payload, ws);
  write_close = λ ws. some (136 ∷ [], ws);
  as_bytes = λ t. t;
  write_pong = λ ws payload. some (payload, ws);
  from_utf8 = λ bytes. some bytes;
}

-- What was sent stands last first.
abbrev sent_byte : List ℕ → List ℕ → Outcome (List ℕ)
sent_byte [] link = returned link
sent_byte (b ∷ more) link = returned (b ∷ link)

abbrev stream : Stream (List ℕ)
stream = record {
  pump = λ link. returned ([], link);
  blocking_send_raw = sent_byte;
  idle_tick = λ deadline link. returned link;
  mtime = λ link. (0, link);
  nap = λ link. link;
  poll = λ link. link;
  close = λ link. link;
}

-- "ok!" in three fragments, with a ping behind the first.
abbrev mesh : Mesh ℕ (List ℕ)
mesh = record {
  link = [];
  ws = 0;
  rx_raw = 111 ∷ 9 ∷ 107 ∷ 33 ∷ [];
  msg_partial = [];
  session_id = 42;
}

pub web-ConsumesHeader : ConsumesHeader web
web-ConsumesHeader ws ws' [] r e = absurd (ground arith)
web-ConsumesHeader ws ws' (b ∷ bytes) r e = ground arith

sent_byte_total : (bytes link : List ℕ) → sent_byte bytes link ≢ out_of_fuel
sent_byte_total [] link = λ e. cc
sent_byte_total (b ∷ more) link = λ e. cc

stream-IsTotal : IsTotal stream
stream-IsTotal = record {
  pump_total = λ l e. cc;
  send_total = sent_byte_total;
  idle_total = λ deadline l e. cc;
}

nothing_pumped :
    (bytes link : List ℕ)
    → stream.pump mesh.link ≡ returned (bytes, link)
    → length mesh.rx_raw + length bytes ≤ 4
nothing_pumped bytes link e =
    subst (λ got. length mesh.rx_raw + length got.0 ≤ 4) (returned_inj e) (omega arith)

-- The message ends the turn whose verdict was heard before.
abbrev ending : Serde plain
ending = record {
  to_string = λ frame. elim frame [ ClientFrame.user_prompt t ↦ t ];
  from_str = λ t. some (turn_complete 42);
}

next-message_example :
    next ending
      (session web stream (λ m. 3))
      1
      (record { mesh = mesh; reply = codes "GOAL_STEP: done"; in_flight = true })
      context
    ≡ returned (
      completed (unwrap_or (parse_goal_step (codes "GOAL_STEP: done")) (Verdict.continue none)),
      record {
        mesh = record { link = 9 ∷ []; ws = 0; rx_raw = []; msg_partial = []; session_id = 42 };
        reply = codes "GOAL_STEP: done";
        in_flight = false;
      },
    )
next-message_example =
    next-message ending web stream (λ m. 3) 1
      (record { mesh = mesh; reply = codes "GOAL_STEP: done"; in_flight = true }) context
      (record {
        link = 9 ∷ [];
        ws = 0;
        rx_raw = 33 ∷ [];
        msg_partial = 111 ∷ 107 ∷ [];
        session_id = 42;
      })
      [] (111 ∷ 107 ∷ []) [] 3 (frame_of 33) 0 (codes "ok!") refl refl
      (fragment (record { waits = refl; read = refl; typed = refl }) refl
        (answered (record { waits = refl; read = refl; typed = refl }) refl refl
          (fragment (record { waits = refl; read = refl; typed = refl }) refl nothing)))
      (record { waits = refl; read = refl; typed = refl }) refl refl refl (omega arith)
      (omega arith)
