-- ===== src/Kernel/Boot/Smokes/Ends.antt =====
-- The smoke test of the echo ends, and the port says how.
use apex_os_rv.Prelude.{
  Option-cases, ℕ, ◌+◌, ◌≤◌, ◌≡◌, ◌⊎◌, inl, inr, refl, ap, ◌∙◌, Option, none, some, List, [], ◌∷◌,
  ◌++◌, take, length, Text, codes, returned, panicked,
}
use apex_os_rv.Kernel.Qemu.{exit_pass, exit_fail}
use apex_os_rv.Kernel.Probe.{Virtio, probe}
use apex_os_rv.Kernel.Console.{Console}
use apex_os_rv.Kernel.Smoke.{EchoTcp, Smoke, ping, timeout_ticks, smoke}
use apex_os_rv.Kernel.Smoke.Ends.{IsSteady, smoke_total}
use apex_os_rv.Kernel.Boot.{panic_line, handled}
use apex_os_rv.Kernel.Boot.Prints.{device_lines, init-Prints}
use apex_os_rv.Kernel.Boot.Smokes.{echoed, echo_gate, smoke_kernel}

-- A gate passes, having printed lines of which this holds, or it panics.
data Gated (P : List Text → Type 0) (c : Console ℕ) : Type 0 where
  passes : (lines : List Text) → P lines → c ≡ (lines, returned exit_pass) → Gated P c
  panics : c.1 ≡ panicked → Gated P c

-- The kernel over a gate: the lines of the boot and of the gate, and the passing word, or a line of a
-- panic last, and the failing word of code 1.
abbrev pub EndsWell :
    {Nic : Type 0} → (Nic → ℕ → ℕ) → Option Nic → Text → (List Text → Type 0) → Console ℕ → Type 0
EndsWell mac_address found info P c =
    ((lines : List Text) × P lines
      × (c ≡ (
        codes "apexos-rv: hart 0 online" ∷ device_lines mac_address found ++ lines,
        returned exit_pass,
      )))
    ⊎ ((lines : List Text) × (c ≡ (lines ++ panic_line info ∷ [], returned (exit_fail 1))))

module _ {Nic T : Type 0} (connect : Nic → Option T) where
  -- The echo arrived over a connection of the device that was found.
  abbrev pub Echoed : EchoTcp T → ℕ → Option Nic → List Text → Type 0
  Echoed tcp fuel found lines =
      (nic : Nic) × (socket : T) × (s : Smoke T) × (found ≡ some nic)
      × (connect nic ≡ some socket)
      × (smoke tcp fuel socket ≡ returned s)
      × (take (length ping) s.buf ≡ ping)
      × (lines ≡ echoed ∷ [])

module _ {Transport Nic : Type 0} (virtio : Virtio Transport Nic) (mac_address : Nic → ℕ → ℕ)
    (info : Text) where
  boot :
      (gate : Option Nic → Console ℕ)
      → smoke_kernel virtio mac_address info gate
        ≡ handled info (
          codes "apexos-rv: hart 0 online" ∷ device_lines mac_address (probe virtio)
              ++ (gate (probe virtio)).0,
          (gate (probe virtio)).1,
        )
  unfolding smoke_kernel
  boot gate = rw (init-Prints virtio mac_address) refl

  smoke_kernel-Gated :
      (P : List Text → Type 0) (gate : Option Nic → Console ℕ)
      → Gated P (gate (probe virtio))
      → EndsWell mac_address (probe virtio) info P (smoke_kernel virtio mac_address info gate)
  unfolding handled
  smoke_kernel-Gated P gate (passes lines p e) = inl (
    lines,
    p,
    boot gate
        ∙ ap
            (λ c. handled info (
              codes "apexos-rv: hart 0 online" ∷ device_lines mac_address (probe virtio) ++ c.0,
              c.1,
            ))
            e,
  )
  smoke_kernel-Gated P gate (panics e) = inr (
    codes "apexos-rv: hart 0 online" ∷ device_lines mac_address (probe virtio)
        ++ (gate (probe virtio)).0,
    boot gate
        ∙ ap
            (λ o. handled info (
              codes "apexos-rv: hart 0 online" ∷ device_lines mac_address (probe virtio)
                  ++ (gate (probe virtio)).0,
              o,
            ))
            e,
  )

  module _ {T : Type 0} (connect : Nic → Option T) where
    echo_gate-Gated :
        (tcp : EchoTcp T) (h : IsSteady tcp) (fuel : ℕ) (found : Option Nic)
        → timeout_ticks + 2 ≤ fuel
        → Gated (Echoed connect tcp fuel found) (echo_gate connect tcp fuel found)
    unfolding echo_gate
    echo_gate-Gated tcp h fuel none enough = panics refl
    echo_gate-Gated tcp h fuel (some nic) enough = elim (Option-cases (connect nic)) [
      | inl refused ↦ panics (rw refused refl)
      | inr (socket, e) ↦ elim (smoke_total tcp h fuel socket enough) [
        | inl p ↦ panics (rw (e, p) refl)
        | inr (s, r, same) ↦
            passes (echoed ∷ []) (nic, socket, s, refl, e, r, same, refl) (rw (e, r) refl)
      ]
    ]

    -- When every call takes a sixteenth of the timer's range at most and every wait at least a
    -- tick, where the timer may wrap: with fuel for the ticks of the timeout, the build with
    -- net-smoke either prints the lines of the boot, of the device that was found and of the
    -- echo, and ends with the passing word, and then a connection over that device has returned
    -- exactly the ping; or it ends with the failing word of code 1 behind the line of a panic.
    pub smoke_kernel-echo_gate :
        (tcp : EchoTcp T) (fuel : ℕ)
        → IsSteady tcp
        → timeout_ticks + 2 ≤ fuel
        → EndsWell mac_address
            (probe virtio)
            info
            (Echoed connect tcp fuel (probe virtio))
            (smoke_kernel virtio mac_address info (echo_gate connect tcp fuel))
    smoke_kernel-echo_gate tcp fuel h enough =
        smoke_kernel-Gated _ (echo_gate connect tcp fuel)
          (echo_gate-Gated tcp h fuel (probe virtio) enough)
