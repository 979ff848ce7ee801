-- ===== src/Kernel/Nic.antt =====
-- The device that smoltcp polls (kernel/src/net/smol.rs). The calls of virtio-drivers are parameters. A
-- token holds a pointer to the device: what it does when it is consumed goes by the state of the device
-- at that time, and the function that reads a packet may use the device, as smoltcp's does, which answers
-- a packet with the transmit token of the same pair.
pub mod Buffers
use apex_os_rv.Prelude.{ℕ, Bool, Option, none, some, List, replicate, not, if◌then◌else◌}

-- `VirtIONet`, with its receive buffers; a transmit buffer is its bytes, zeros at first. A call that
-- fails has no buffer, and a failed sending is passed over.
pub record VirtioNet (N Buffer : Type 0) : Type 0 where
  pub can_recv : N → Bool
  pub receive : N → Option Buffer × N
  pub packet : Buffer → List ℕ
  pub recycle_rx_buffer : Buffer → N → N
  pub can_send : N → Bool
  pub send : List ℕ → N → N

pub record Capabilities : Type 0 where
  pub max_transmission_unit : ℕ
  pub max_burst_size : Option ℕ

-- `capabilities`, next to the medium.
unfoldable pub capabilities : Capabilities
capabilities = record { max_transmission_unit = 1514; max_burst_size = some 1 }

module _ {N Buffer : Type 0} (nic : VirtioNet N Buffer) where
  -- The pair of tokens, if any: the receive token's buffer.
  unfoldable pub receive : N → Option Buffer × N
  receive n = if not (nic.can_recv n) then (none, n) else nic.receive n

  -- Whether there is a transmit token.
  unfoldable pub transmit : N → Bool
  transmit n = if not (nic.can_send n) then Bool.false else Bool.true

  -- `VRxToken::consume`
  unfoldable pub consume_rx : {R : Type 0} → (List ℕ → N → R × N) → Buffer → N → R × N
  consume_rx f buffer n =
      let (r, n') = f (nic.packet buffer) n in (r, nic.recycle_rx_buffer buffer n')

  -- `VTxToken::consume`
  unfoldable pub consume_tx : {R : Type 0} → ℕ → (List ℕ → R × List ℕ) → N → R × N
  consume_tx len f n = let (r, packet) = f (replicate len 0) in (r, nic.send packet n)
