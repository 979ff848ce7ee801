-- ===== src/Kernel/Mesh/Engine.antt =====
-- The inference as the engine of the kernel's loop (kernel/src/net/mesh.rs, `MeshInference`;
-- kernel/src/agent.rs). A panic ends the kernel: the engine is gone then, and stays so.
use apex_os_rv.Prelude.{ℕ, Outcome, returned, panicked, out_of_fuel, and_then}
use apex_os_rv.Protocol.Wire.{Wire}
use apex_os_rv.Goal.Driver.{TurnResult, Inference, stalled}
use apex_os_rv.Kernel.Mesh.{Channel, Serde, MeshInference, next}

abbrev pub ran : {S : Type 0} → Outcome (TurnResult × S) → TurnResult × Outcome S
ran (returned (r, s)) = (r, returned s)
ran panicked = (stalled, panicked)
ran out_of_fuel = (stalled, out_of_fuel)

abbrev pub engine :
    {w : Wire} {M : Type 0} → Serde w → Channel M → ℕ → Inference (Outcome (MeshInference M))
engine serde channel fuel o ctx = ran (and_then o (λ inf. next serde channel fuel inf ctx))
