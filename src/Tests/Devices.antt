-- ===== src/Tests/Devices.antt =====
-- The mesh inference, the DMA arena, the serial line, the probe and the device under smoltcp.
use apex_os_rv.Prelude.{
  ◌++◌, ◌-◌, zero, suc, Option, ap, sym, ℕ, ◌+◌, ◌*◌, ◌≤◌, ◌<◌, eqb, ◌≡◌, ◌↔◌, refl, true, none,
  some, List, [], ◌∷◌, Text, returned, codes, All, ◌==◌, list_eq, nat_eq, if◌then◌else◌, arith,
}
use apex_os_rv.Protocol.Event.{agent_text, turn_complete}
use apex_os_rv.Gateway.{ClientFrame}
use apex_os_rv.Kernel.Mesh.{Channel, Serde, MeshInference}
use apex_os_rv.Kernel.Dma.{usize, Buffer, arena_pages, page_size, dma_alloc, dma_allocs}
use apex_os_rv.Kernel.Dma.Arena.{
  Within, AreApart, total, dma_allocs-AreApart, dma_allocs-some_iff, dma_allocs-wrapped,
}
use apex_os_rv.Kernel.Nic.{VirtioNet}
use apex_os_rv.Kernel.Nic.Buffers.{HasBuffers, ingress, egress, used_all, used_all-held}
use apex_os_rv.Kernel.Probe.{Virtio, ComesUp, Fails, try_slot, probe_from, probe, probe_iff}
use apex_os_rv.Tests.Values.{plain}

-- A session that holds the texts that are still to arrive.
abbrev queue : Channel (List Text)
queue = record {
  send_text = λ t texts. returned texts;
  try_next_text = λ texts. elim texts [ [] ↦ returned (none, []) | t ∷ ts ↦ returned (some t, ts) ];
}

-- The text "end" ends the turn; every other text is a delta.
abbrev frames : Serde plain
frames = record {
  to_string = λ frame. elim frame [ ClientFrame.user_prompt t ↦ t ];
  from_str = λ t. if t == codes "end" then some (turn_complete 1) else some (agent_text 1 t);
}

abbrev deltas : List Text
deltas = codes "GOAL_STEP: " ∷ codes "done" ∷ []

abbrev in_turn : List Text → MeshInference (List Text)
in_turn texts = record { mesh = texts; reply = []; in_flight = true }

-- Two queues and two pages of buffers, at an address of the kernel's image.
abbrev arena : ℕ
arena = 2147487744

abbrev sizes : List ℕ
sizes = 2 ∷ 2 ∷ 60 ∷ []

abbrev buffers : List Buffer
buffers =
    record { address = arena; pages = 2 }
    ∷ record { address = arena + 8192; pages = 2 }
    ∷ record { address = arena + 16384; pages = 60 }
    ∷ []

sizes-dma_allocs : dma_allocs arena 0 sizes ≡ some (buffers, 64)
unfolding dma_allocs dma_alloc
sizes-dma_allocs = refl

dma_allocs-AreApart_example :
    All (Within arena (arena + arena_pages * page_size)) buffers × AreApart buffers
dma_allocs-AreApart_example =
    dma_allocs-AreApart arena sizes buffers 64 (omega arith, (omega arith, (omega arith, tt)))
      sizes-dma_allocs

dma_allocs-some_iff_example :
    ((r : List Buffer × ℕ) × (dma_allocs arena 0 sizes ≡ some r))
    ↔ ((before after : List ℕ) → sizes ≡ before ++ after → usize (total before) ≤ arena_pages)
dma_allocs-some_iff_example = dma_allocs-some_iff arena sizes

dma_allocs-wrapped_example :
    (a b c : Buffer) × (dma_allocs arena 0 (2 ∷ (18446744073709551616 - 2) ∷ 3 ∷ [])
      ≡ some (a ∷ b ∷ c ∷ [], 3))
    × (a.address ≡ arena)
    × (c.address ≡ arena)
    × (¬ AreApart (a ∷ b ∷ c ∷ []))
dma_allocs-wrapped_example =
    dma_allocs-wrapped arena 2 3 (omega arith) (omega arith) (omega arith) (omega arith)

-- Slot 2 holds another device, and slot 5 the network device.
abbrev board : Virtio ℕ ℕ
board = record {
  transport = λ address.
      if eqb address 268447744 then some 16 else if eqb address 268460032 then some 1 else none;
  is_network = λ device. eqb device 1;
  nic = λ device. some device;
}

probe_iff_example :
    (probe board ≡ some 1)
    ↔ ((k : ℕ) × (k < 8) × ComesUp board k 1 × ((j : ℕ) → j < k → Fails board j))
probe_iff_example = probe_iff board 1

probe-board : probe board ≡ some 1
unfolding probe probe_from try_slot
probe-board = refl

-- A device with nothing but its receive buffers, which are all alike.
abbrev take_buffer : ℕ → Option ℕ × ℕ
take_buffer zero = (none, 0)
take_buffer (suc n) = (some 7, n)

abbrev buffered : VirtioNet ℕ ℕ
buffered = record {
  can_recv = λ n. true;
  receive = take_buffer;
  packet = λ b. b ∷ [];
  recycle_rx_buffer = λ b n. n + 1;
  can_send = λ n. true;
  send = λ packet n. n;
}

taken_buffer : (n n' b : ℕ) → ◌≡◌ {A = Option ℕ × ℕ} (take_buffer n) (some b, n') → n' + 1 ≡ n
taken_buffer zero n' b e = absurd (ground arith)
taken_buffer (suc n) n' b e = omega (arith, ap (λ r. r.1) e)

no_buffer : (n n' : ℕ) → ◌≡◌ {A = Option ℕ × ℕ} (take_buffer n) (none, n') → n' ≡ n
no_buffer zero n' e = sym (ap (λ r. r.1) e)
no_buffer (suc n) n' e = absurd (ground arith)

buffered-HasBuffers : HasBuffers buffered
buffered-HasBuffers = record {
  held = λ n. n;
  received = taken_buffer;
  failed = no_buffer;
  recycled = λ b n. refl;
  sent = λ packet n. refl;
}

used_all-held_example :
    used_all buffered (ingress (λ packet. packet ∷ []) ∷ egress (1 ∷ 2 ∷ []) ∷ []) 16 ≡ 16
unfolding buffered-HasBuffers
used_all-held_example =
    used_all-held buffered buffered-HasBuffers
      (ingress (λ packet. packet ∷ []) ∷ egress (1 ∷ 2 ∷ []) ∷ []) 16
