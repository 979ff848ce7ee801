-- ===== src/Tests/Links.antt =====
-- A socket that takes two bytes at a time, one that takes none, the masking generator with the session's
-- seed, the echo, and an address.
use apex_os_rv.Prelude.{
  codes, Outcome, drop, ◌+◌, ℕ, suc, ◌≤◌, ◌≡◌, refl, Bool, true, false, Option, some, List, [], ◌∷◌,
  ◌++◌, take, length, min, subst, returned, panicked, ◌⊎◌, arith,
}
use mathlib.Core.Option.{some_inj}
use apex_os_rv.Kernel.Session.{Mesh}
use apex_os_rv.Kernel.Link.{
  Tcp, nap, idle_tick, send_some, idle_unless_done, send_round, send_loop, blocking_send_raw,
}
use apex_os_rv.Kernel.Link.Total.{IsTimed, blocking_send_raw_total}
use apex_os_rv.Kernel.Link.Sends.{HasAccepted, blocking_send_raw-accepted}
use apex_os_rv.Protocol.Wire.{GoalState}
use apex_os_rv.Kernel.Mesh.{MeshInference}
use apex_os_rv.Kernel.Watchdog.{u64, Loop}
use apex_os_rv.Kernel.Rng.{seeded, next_u64}
use apex_os_rv.Kernel.Rng.Back.{previous, unscramble, previous-next_u64}
use apex_os_rv.Str.Decimal.{decimal}
use apex_os_rv.Kernel.Address.{gateway_addr, dotted, gateway_addr-dotted}
use apex_os_rv.Kernel.Smoke.{EchoTcp}
use apex_os_rv.Kernel.Smoke.Ends.{slow, IsSteady}
use apex_os_rv.Kernel.Probe.{probe}
use apex_os_rv.Kernel.Boot.Smokes.{echo_gate, smoke_kernel}
use apex_os_rv.Kernel.Boot.Smokes.Ends.{EndsWell, Echoed, smoke_kernel-echo_gate}
use apex_os_rv.Tests.Boots.{virtio, mac}
use apex_os_rv.Tests.Values.{plain, acting_driver}

-- The time, the buffers that arrived, and the bytes that were taken.
record Socket : Type 0 where
  now : ℕ
  inbox : List (List ℕ)
  taken : List ℕ

abbrev is_some_buffer : List (List ℕ) → Bool
is_some_buffer [] = false
is_some_buffer (b ∷ more) = true

abbrev first_buffer : Socket → List (List ℕ) → List ℕ × Socket
first_buffer t [] = ([], t)
first_buffer t (b ∷ more) = (b, record t { inbox = more })

abbrev socket : Bool → Tcp Socket
socket able = record {
  poll = λ t. t;
  can_recv = λ t. is_some_buffer t.inbox;
  recv = λ t. first_buffer t t.inbox;
  can_send = λ t. able;
  send_slice = λ bytes t.
      some
        (min 2 (length bytes), record t { taken = t.taken ++ take (min 2 (length bytes)) bytes });
  close = λ t. t;
  mtime = λ t. (u64 t.now, t);
  wait = λ deadline t. record t { now = suc t.now };
}

-- Sending leaves the time.
sent_now :
    (t t' : Socket) (n m : ℕ) (taken : List ℕ)
    → ◌≡◌ {A = Option (ℕ × Socket)} (some (n, record t { taken = taken })) (some (m, t'))
    → (t.now ≤ t'.now) × (t'.now ≤ t.now + slow)
sent_now t t' n m taken e =
    subst (λ x. (t.now ≤ x.1.now) × (x.1.now ≤ t.now + slow)) (some_inj.0 e)
      (omega arith, omega arith)

socket-IsTimed : (able : Bool) → IsTimed (socket able)
socket-IsTimed able = record {
  time = λ t. t.now;
  reads = λ t. refl;
  mtime_takes = λ t. (omega arith, omega arith);
  poll_takes = λ t. (omega arith, omega arith);
  send_takes = λ bytes t n t' e. sent_now t t' _ _ _ e;
  wait_takes = λ deadline t. (omega arith, omega arith);
}

socket-HasAccepted : (able : Bool) → HasAccepted (socket able)
socket-HasAccepted able = record {
  accepted = λ t. t.taken;
  after_poll = λ t. refl;
  after_mtime = λ t. refl;
  after_wait = λ deadline t. refl;
  after_send = λ bytes t n t' e.
      subst (λ x. (x.0 ≤ length bytes) × (x.1.taken ≡ t.taken ++ take x.0 bytes)) (some_inj.0 e)
        (omega arith, refl);
}

abbrev fresh : Socket
fresh = record { now = 5; inbox = []; taken = 9 ∷ [] }

three_sent :
    blocking_send_raw (socket true) 3 (1 ∷ 2 ∷ 3 ∷ []) fresh
    ≡ returned (record { now = 6; inbox = []; taken = 9 ∷ 1 ∷ 2 ∷ 3 ∷ [] })
unfolding blocking_send_raw send_loop send_round send_some idle_unless_done idle_tick nap
three_sent = refl

blocking_send_raw-accepted_example : 9 ∷ 1 ∷ 2 ∷ 3 ∷ [] ≡ fresh.taken ++ 1 ∷ 2 ∷ 3 ∷ []
unfolding socket-HasAccepted
blocking_send_raw-accepted_example =
    blocking_send_raw-accepted (socket true) (socket-HasAccepted true) 3 (1 ∷ 2 ∷ 3 ∷ []) fresh
      (record { now = 6; inbox = []; taken = 9 ∷ 1 ∷ 2 ∷ 3 ∷ [] }) three_sent

blocking_send_raw_total_example :
    ((t : Socket) × (blocking_send_raw (socket true) 100000002 (1 ∷ 2 ∷ 3 ∷ []) fresh ≡ returned t))
    ⊎ (blocking_send_raw (socket true) 100000002 (1 ∷ 2 ∷ 3 ∷ []) fresh ≡ panicked)
unfolding socket-IsTimed
blocking_send_raw_total_example =
    blocking_send_raw_total (socket true) 100000002 (1 ∷ 2 ∷ 3 ∷ []) fresh (socket-IsTimed true)
      (omega arith) (omega arith)

abbrev waits_fuel : Socket → ℕ
waits_fuel t = length t.inbox

abbrev open_mesh : Mesh ℕ Socket
open_mesh = record { link = fresh; ws = 0; rx_raw = []; msg_partial = []; session_id = 42 }

-- A done goal, whose session is still to be closed.
abbrev inference : MeshInference (Mesh ℕ Socket)
inference = record { mesh = open_mesh; reply = []; in_flight = false }

abbrev done_loop : Loop plain (Outcome (MeshInference (Mesh ℕ Socket)))
done_loop = record {
  driver = record acting_driver { state = GoalState.done };
  engine = returned inference;
  log = [];
  polls = 3;
  last_step = 2;
  step_started = 0;
  reads = 5;
  wakeups = [];
}

-- The session's seed.
previous-next_u64_example :
    (previous (next_u64 (seeded 0x5EED_CAFE_D00D)).1.state ≡ 0x5EED_CAFE_D00D)
    × (unscramble (next_u64 (seeded 0x5EED_CAFE_D00D)).0
        ≡ (next_u64 (seeded 0x5EED_CAFE_D00D)).1.state)
previous-next_u64_example = previous-next_u64 (seeded 0x5EED_CAFE_D00D) (omega arith)

gateway_addr-dotted_example :
    gateway_addr (some (dotted 192 168 0 17)) (some (decimal 9700))
    ≡ returned (192 ∷ 168 ∷ 0 ∷ 17 ∷ [], 9700)
gateway_addr-dotted_example =
    gateway_addr-dotted 192 168 0 17 9700 (omega arith) (omega arith) (omega arith) (omega arith)
      (omega arith)

-- A peer that echoes at once, on a timer that starts shortly before it wraps: the time, and what is
-- under way.
abbrev echoing : EchoTcp (ℕ × List ℕ)
echoing = record {
  poll = λ t. t;
  can_send = λ t. true;
  send_slice = λ bytes t. some (length bytes, (t.0, bytes));
  can_recv = λ t. true;
  recv_slice = λ n t. some (take n t.1, (t.0, drop n t.1));
  close = λ t. t;
  mtime = λ t. (u64 t.0, t);
  wait = λ deadline t. (suc t.0, t.1);
}

echoing-IsSteady : IsSteady echoing
echoing-IsSteady = record {
  time = λ t. t.0;
  reads = λ t. refl;
  mtime_takes = λ t. (omega arith, omega arith);
  poll_takes = λ t. (omega arith, omega arith);
  send_takes = λ bytes t r e.
      subst (λ x. (t.0 ≤ x.1.0) × (x.1.0 ≤ t.0 + slow)) (some_inj.0 e) (omega arith, omega arith);
  recv_takes = λ n t r e.
      subst (λ x. (t.0 ≤ x.1.0) × (x.1.0 ≤ t.0 + slow)) (some_inj.0 e) (omega arith, omega arith);
  wait_takes = λ deadline t. (omega arith, omega arith);
}

smoke_kernel-echo_gate_example :
    EndsWell mac
      (probe virtio)
      (codes "boom")
      (Echoed (λ nic. some (18446744073709551600, [])) echoing 100000002 (probe virtio))
      (smoke_kernel virtio mac
        (codes "boom")
        (echo_gate (λ nic. some (18446744073709551600, [])) echoing 100000002))
smoke_kernel-echo_gate_example =
    smoke_kernel-echo_gate virtio mac (codes "boom") (λ nic. some (18446744073709551600, []))
      echoing 100000002 echoing-IsSteady (omega arith)
