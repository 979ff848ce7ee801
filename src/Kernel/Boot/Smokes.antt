-- ===== src/Kernel/Boot/Smokes.antt =====
-- The builds whose `main` ends in a smoke test of the network (kernel/src/main.rs, the features net-smoke
-- and mesh-smoke; kernel/src/net/smoke.rs, `run`; kernel/src/net/mesh.rs, `smoke`). The set-up of the
-- interface and of the socket over a device is a parameter; `none` is a connection that is refused.
pub mod Ends
use apex_os_rv.Prelude.{
  ℕ, Option, none, some, List, [], ◌∷◌, ◌++◌, Text, codes, Outcome, returned, panicked, out_of_fuel,
}
use apex_os_rv.Str.Decimal.{digits}
use apex_os_rv.Protocol.Wire.{Wire}
use apex_os_rv.Kernel.Qemu.{exit_pass}
use apex_os_rv.Kernel.Probe.{Virtio, probe}
use apex_os_rv.Kernel.Console.{Console, ◌>>=◌, ◌>>◌, pure, println, unwrap}
use apex_os_rv.Kernel.Smoke.{EchoTcp, smoke}
use apex_os_rv.Kernel.Session.{WebSocket, Stream, Mesh}
use apex_os_rv.Kernel.Session.Client.{Handshake, establish, close_clean}
use apex_os_rv.Kernel.Boot.{init, handled}

-- A part that prints nothing.
abbrev quietly : {A : Type 0} → Outcome A → Console A
quietly o = ([], o)

abbrev pub echoed : Text
echoed = codes "net: tcp echo ok"

unfoldable pub session_line : ℕ → Text
session_line id = codes "mesh: session " ++ digits 20 id [] ++ codes " established"

-- `net::smoke::run`
unfoldable pub echo_gate :
    {Nic T : Type 0} → (Nic → Option T) → EchoTcp T → ℕ → Option Nic → Console ℕ
echo_gate connect tcp fuel found = do
  nic ← unwrap found
  socket ← unwrap (connect nic)
  quietly (smoke tcp fuel socket)
  println echoed
  pure exit_pass

module _ {w : Wire} {Ws Link Key : Type 0} (web : WebSocket Ws) (stream : Stream Link)
    (shake : Handshake w Ws Key) (rx_fuel : Mesh Ws Link → ℕ) (fuel : ℕ) (ws : Ws) where
  -- `net::mesh::smoke`
  unfoldable pub mesh_gate : {Nic : Type 0} → (Nic → Option Link) → Option Nic → Console ℕ
  mesh_gate connect found = do
    nic ← unwrap found
    link ← unwrap (connect nic)
    mesh ← quietly (establish web stream rx_fuel shake fuel ws link)
    println (session_line mesh.session_id)
    quietly (close_clean web stream fuel mesh)
    pure exit_pass

-- `main` with a gate, and the handler of its panics.
unfoldable pub smoke_kernel :
    {Transport Nic : Type 0}
    → Virtio Transport Nic
    → (Nic → ℕ → ℕ)
    → Text
    → (Option Nic → Console ℕ)
    → Console ℕ
smoke_kernel virtio mac_address info gate =
    handled info
      (do println (codes "apexos-rv: hart 0 online"); found ← init virtio mac_address; gate found)
