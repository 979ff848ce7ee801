-- ===== src/Kernel/Mesh/Flow.antt =====
-- The flow of the builds that use the mesh (kernel/src/agent.rs, `run` with mesh-goal, behind its
-- demonstration; kernel/src/net/mesh.rs, `smoke`; kernel/src/main.rs, the exit words). Serde is a
-- parameter, and `rx_fuel` and `fuel` are what the calls of the session have.
use apex_os_rv.Prelude.{
  ℕ, if◌then◌else◌, Bool, Option, none, some, Text, Outcome, returned, panicked, out_of_fuel,
  and_then,
}
use apex_os_rv.Protocol.Wire.{Wire}
use apex_os_rv.Kernel.Mesh.{Serde, MeshInference, new, finish}
use apex_os_rv.Kernel.Mesh.Engine.{engine}
use apex_os_rv.Kernel.Mesh.OverSession.{session}
use apex_os_rv.Kernel.Qemu.{exit_pass, exit_fail}
use apex_os_rv.Kernel.Session.{WebSocket, Stream, Mesh}
use apex_os_rv.Kernel.Session.Client.{Handshake, establish, close_clean}
use apex_os_rv.Kernel.Watchdog.{Loop, drive_goal, is_done}

-- The word by what `run` returned; a panic ends the kernel with code 1.
unfoldable pub mesh_word : Outcome Bool → Option ℕ
mesh_word (returned done) = some (if done then exit_pass else exit_fail 2)
mesh_word panicked = some (exit_fail 1)
mesh_word out_of_fuel = none

module _ {w : Wire} {Ws Link : Type 0} (web : WebSocket Ws) (stream : Stream Link) (fuel : ℕ) where
  -- What stands behind `drive_goal`.
  unfoldable pub after_goal :
      Option (Loop w (Outcome (MeshInference (Mesh Ws Link)))) → Outcome Bool
  after_goal none = out_of_fuel
  after_goal (some l) = and_then l.engine (λ inf.
      and_then (close_clean web stream fuel (finish inf))
        (λ closed. returned (is_done l.driver.state)))

  module _ {Key : Type 0} (shake : Handshake w Ws Key) (rx_fuel : Mesh Ws Link → ℕ) where
    unfoldable pub run_mesh : Serde w → (ℕ → ℕ) → ℕ → ℕ → Text → Ws → Link → Outcome Bool
    run_mesh serde clock timeout rounds objective ws link =
        and_then (establish web stream rx_fuel shake fuel ws link) (λ mesh. after_goal (
          drive_goal w (engine serde (session web stream rx_fuel) fuel) clock timeout rounds
            objective (returned (new mesh))))

    unfoldable pub mesh_smoke : Ws → Link → Outcome ℕ
    mesh_smoke ws link =
        and_then (establish web stream rx_fuel shake fuel ws link)
          (λ mesh. and_then (close_clean web stream fuel mesh) (λ closed. returned exit_pass))
