-- ===== src/Kernel/Boot/Gates.antt =====
-- The builds that are to fail (kernel/src/main.rs, the features panic-test and tiny-heap).
use apex_os_rv.Prelude.{
  ◌⊎◌, false, ap, if◌then◌else◌, ℕ, ◌<◌, ◌≡◌, refl, ap, sym, subst, Bool, true, false, Option, List,
  [], ◌∷◌, ◌++◌, Text, codes, returned, panicked, arith, if◌then◌else◌, inl, inr,
}
use apex_os_rv.Protocol.Wire.{Wire}
use apex_os_rv.Kernel.Qemu.{exit_fail}
use apex_os_rv.Kernel.Probe.{Virtio}
use apex_os_rv.Kernel.Console.{
  panic, assert, pure, ◌>>=◌, Console, panic, Json, println, pure, assert, ◌>>=◌, ◌>>◌,
}
use apex_os_rv.Kernel.Proto
use apex_os_rv.Kernel.Proto.{Literals}
use apex_os_rv.Kernel.Boot.{
  Features, heap_size, alloc_line, handled, overdraw, decide, normal_flow, main, kernel, init,
}
use apex_os_rv.Kernel.Boot.Prints.{init-Prints}
use apex_os_rv.Kernel.Boot.{overdraw, decide, normal_flow, main, kernel, init, panic_line}
use apex_os_rv.Kernel.Boot.Ends.{Stays, bind-Stays, Ends, proto-Ends, overdraw-Ends}

data Breaks {A : Type 0} (c : Console A) : Type 0 where
  breaks : c.1 ≡ panicked → Breaks c

Breaks-Stays : {A : Type 0} → Stays (Breaks {A = A})
Breaks-Stays = record {
  behind = λ more lines o b. elim b [ breaks e ↦ breaks e ];
  panics = λ lines. breaks refl;
}

panic-Breaks : (p : Bool) (c : Console ℕ) → p ≡ true → Breaks (if p then panic else c)
panic-Breaks p c e = rw e (breaks refl)

drawn-Breaks :
    (tiny serves : Bool) (line : Text)
    → tiny ≡ true
    → serves ≡ false
    → Breaks (if tiny then assert serves >> println line else pure tt)
drawn-Breaks tiny serves line t s = rw (t, s) (breaks refl)

heap_size_tiny : (f : Features) → f.tiny_heap ≡ true → heap_size f ≡ 1024
unfolding heap_size
heap_size_tiny f t = ap (λ tiny. if tiny then 1024 else 1048576) t

stops : {A B : Type 0} (c : Console A) (g : A → Console B) → c.1 ≡ panicked → (c >>= g).1 ≡ panicked
stops (lines, o) g e = ap (λ o. ((lines, o) >>= g).1) e

handled-Breaks :
    (info : Text) (c : Console ℕ)
    → Breaks c
    → (lines : List Text) × (handled info c
        ≡ (lines ++ panic_line info ∷ [], returned (exit_fail 1)))
unfolding handled
handled-Breaks info (lines, o) (breaks e) = (lines, ap (λ o. handled info (lines, o)) e)

module _ {w : Wire} (json : Json w) (empty content : w.Value) (clock : ℕ → ℕ)
    (secs goal : Option Text) (fuel : ℕ) (lit : Literals w) (served : ℕ → ℕ → Bool)
    (f : Features) where
  -- A feature that ends the kernel with a panic, of an allocator that serves nothing that is
  -- larger than its memory.
  abbrev pub IsNegative : Type 0
  IsNegative = (f.panic_test ≡ true) ⊎ (f.tiny_heap ≡ true)

  module _ (bounded : (size n : ℕ) → size < n → served size n ≡ false) where
    overdraw-Breaks : f.tiny_heap ≡ true → Breaks (overdraw served f)
    unfolding overdraw
    overdraw-Breaks t =
        drawn-Breaks f.tiny_heap (served (heap_size f) 4096) _ t
          (bounded (heap_size f) 4096 (omega (arith, heap_size_tiny f t)))

    gated :
        IsNegative → Breaks (overdraw served f >> decide json empty content clock secs goal fuel f)
    unfolding decide
    gated (inl p) =
        bind-Stays Breaks-Stays (overdraw served f)
          (λ _. decide json empty content clock secs goal fuel f) (overdraw-Ends served f)
          (λ _ _ _. panic-Breaks f.panic_test _ p)
    gated (inr t) = elim (overdraw-Breaks t) [ breaks e ↦ breaks (stops (overdraw served f) _ e) ]

    normal_flow-Breaks :
        IsNegative → Breaks (normal_flow json empty content clock secs goal fuel lit served f)
    unfolding normal_flow
    normal_flow-Breaks n =
        bind-Stays Breaks-Stays (println (alloc_line (heap_size f))) _ (λ e. cc)
          (λ _ _ _.
            bind-Stays Breaks-Stays (Proto.run json lit) _ (proto-Ends json lit) (λ _ _ _. gated n))

    -- For any serde and clock, with an allocator that serves no request that is larger than its
    -- memory: a build with panic-test or with tiny-heap prints the line of a panic last and ends
    -- with the failing word of code 1.
    pub kernel-IsNegative :
        {Transport Nic : Type 0} (virtio : Virtio Transport Nic) (mac_address : Nic → ℕ → ℕ)
        (info : Text)
        → IsNegative
        → (lines : List Text) × (kernel json empty content clock secs goal fuel lit served virtio
              mac_address info f
            ≡ (lines ++ panic_line info ∷ [], returned (exit_fail 1)))
    unfolding kernel main
    kernel-IsNegative virtio mac_address info n = handled-Breaks info _ (
        bind-Stays Breaks-Stays (println (codes "apexos-rv: hart 0 online")) _ (λ e. cc)
          (λ _ _ _.
            bind-Stays Breaks-Stays (init virtio mac_address) _
              (subst Ends (sym (init-Prints virtio mac_address)) (λ e. cc))
              (λ _ _ _. normal_flow-Breaks n)))
