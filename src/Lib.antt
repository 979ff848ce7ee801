-- ===== src/Lib.antt =====
-- ApexOS-RV: the agent core and the kernel's own logic.
--
-- The program is a bare-metal RISC-V node of an agent colony. Its parts, and the files about them:
--
--   * vendor/apexos-protocol/src/lib.rs, the wire contract: the event enum and the types it
--     carries. Protocol (Wire, Evolution, Sensor, Session, Event). The newtypes are what they
--     hold; JSON values and floating-point numbers are the types of a parameter, `Wire`.
--   * agent-core/src/goal.rs, the goal driver: a goal is advanced one turn at a time by what an
--     inference engine answers, within a budget of steps, and every transition is one event.
--     Goal.Driver has `GoalDriver` and its methods, Goal.Script the scripted engine and its
--     transcripts, Goal.Directive the prompt of a turn (`step_directive`) and the reader of its
--     verdict (`parse_goal_step`). Goal.Lifecycle, Goal.Trace, Goal.Refinement, Goal.Run,
--     Goal.Steer, Goal.Script.Narrate, Goal.Script.Turns, Goal.Directive.RoundTrip and
--     Goal.Directive.Sound are about them.
--   * agent-core/src/state.rs, the colony's state as a fold of events. State has `SystemState`,
--     `apply`, `register_child` and `subtree`; State.Plugins, State.Approvals, State.Sessions,
--     State.Tree, State.Walk and State.Subtree are about them, and State.Colony has the abstract
--     state that they implement.
--   * agent-core/src/gateway.rs, the control frames: Gateway.
--   * kernel/src/agent.rs and kernel/src/time.rs, the cooperative loop with its stall watchdog:
--     Kernel.Watchdog, with Round, Keeps, Liveness, Trail, Transparent, Polls, Calm and Patient.
--   * kernel/src/main.rs, kernel/src/agent.rs, kernel/src/proto.rs and kernel/src/heap.rs, the
--     kernel from its entry to the test device, in the builds without a mesh: Kernel.Boot, a chain
--     of parts that print lines and may panic, with Prints, Success, Golden, Hang, Shows, Ends,
--     Fate, Gates and Port, and Kernel.Boot.Smokes, with Ends about the echo, the builds that end
--     in a smoke test. Kernel.Proto is the wire test, with Stable, and Kernel.Env what the build's
--     environment sets. Kernel.Agent, with Exit, has the events and assertions of the
--     demonstration and the exit word alone, for any inference; kernel/src/qemu.rs is Kernel.Qemu.
--   * kernel/src/net/mesh.rs, the inference over the gateway's wire and the session below it, in
--     three layers. Kernel.Mesh is the inference (`MeshInference`), with Turn, over an interface
--     that OverSession fills, with Engine and Flow for the builds that use it. Kernel.Session is
--     `Mesh::try_next_text`, with Receive and Fragments, and Kernel.Session.Client has
--     `send_text`, `next_text`, `establish` and `close_clean`, over an interface of streams.
--     Kernel.Link fills that one: `pump`, `idle_tick` and `blocking_send_raw` over the calls of
--     smoltcp and of the timer, with Total, Sends and Stuck. Kernel.Rng is the masking generator,
--     with Xor, Linear, Alive, Back and Fill, and Kernel.Address reads the gateway's address from
--     the build environment.
--   * kernel/src/net/smol.rs, the device that smoltcp polls: Kernel.Nic, with Buffers.
--   * kernel/src/net/smoke.rs, the echo smoke test: Kernel.Smoke, with Ends.
--   * xtest/src/bin/mockd.rs, the mock peer of the mesh gates: Mockd. Mockd.Peer puts the mock at
--     the other end of the inference, Turns and Reply follow a turn between them, and Goal and
--     Silent a goal.
--   * kernel/src/net/mod.rs, the DMA arena and the search for the device: Kernel.Dma, with Arena,
--     and Kernel.Probe. kernel/src/uart.rs, the serial writer: Kernel.Uart, for bytes, and
--     Kernel.Console, for lines and for events, with Reads and Contract about a host that reads
--     the port.
--
-- How they interact: the loop polls the driver, the driver calls the inference (scripted or mesh)
-- with a context and advances by its answer, and the watchdog advances it by a stall. The mesh
-- inference sends the directive of the context and reads the verdict of the reply; it calls the
-- session, the session calls the WebSocket library and the socket. A call that may panic has an
-- `Outcome`. The kernel first tests the wire contract and folds a few events through the state,
-- then runs the loop, prints what the sink holds, and its exit word says how the goal ended. A
-- part of the kernel that prints is its lines and its outcome; of a loop that returned, the sink's
-- events are printed together.
--
-- How the code is rendered. A method that mutates `self` returns the new value; the sink for
-- events is the list of the emitted events. `u32`, `u64` and `usize` arithmetic wraps, written out
-- with `u32`, `u64` and `usize`, as in a build without overflow checks. A `str` is the list of its
-- code points, bytes are numbers. A map is an association list, of which only lookups are
-- observed. Str and Map have the functions of Rust's libraries that the source calls. The clock is
-- a parameter: reading number `k` of `mtime` is `clock k` modulo 2^64.
--
-- Fuel. `run` and the kernel's loop take one unit for each round, `subtree` one for each session
-- that its loop walks over, the mesh inference one for each call of `try_next_text`,
-- `try_next_text` one for each frame, `pump` one for each buffer, and sending and waiting one for
-- each idle tick; `none` or `out_of_fuel` says that it ran out. The clamped budget is enough for
-- `run` with turns that complete; nine times the timeout and two more ticks, eight steps and the
-- end with a round for each tick, are enough for the kernel's loop; the weight of the spawn graph
-- below the root is enough for `subtree`; a round for each text and one more are enough for the
-- mesh inference; the number of bytes that wait is enough for `try_next_text`; the ticks of the
-- timeout are enough for sending and for the echo smoke test. The results below say so. That the
-- session's handshake, its wait for a text and its close end is not shown: `try_next_text` may
-- answer any number of pings, each of which may take the whole timeout, so that no bound on the
-- time of a round, and none on when a wrapping timer is read, is at hand.
--
-- Assumed. A timer reads the low 64 bits of the time. No call takes more than a sixteenth of its
-- range and a wait takes a tick at least; a sending starts with more than half of the range and
-- the timeout ahead of the wrap, while the clock of the kernel's loop may wrap at any time.
-- Between the mock and the kernel a frame may wait for any number of calls; frames keep their
-- order, as TCP does.
--
-- Not modelled: serde's derived code and serde_json, smoltcp, embedded_websocket, tungstenite and
-- virtio-drivers (libraries); in kernel/src/net the set-up of the interface, of the socket and of
-- the upgrade request; the heap's and the timer's set-up, and a lack of memory anywhere but at the
-- gate of the tiny heap; the lines that the build with mesh-goal prints; the listener of the mock,
-- and the test programs (xtest/tests, vendor/apexos-protocol/tests).
--
-- Tests holds concrete inputs for the results, and Tests.Suite runs the unit tests of the agent
-- core on the model.
mod Prelude
pub mod Str
pub mod Map
pub mod Protocol
pub mod Gateway
pub mod Goal
pub mod State
pub mod Kernel
pub mod Mockd
pub mod Tests
