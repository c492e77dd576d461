-- ===== src/Kernel/Accounting.antt =====
-- CPU time that the handlers account, over the runs of one CPU.
use scaphandre.Base.{ℕ, ◌+◌, ◌-◌, ◌%◌, ◌≤◌, ◌<◌, ◌≡◌, refl, none, some, arith, u64_mod}
use scaphandre.Kernel.{Kernel, charge, charge_and_remove}
use scaphandre.Kernel.PerCpu.{Maps}
use scaphandre.Sensor.Stat.{add_u64, sub_u64}

pub add_u64-elapsed :
    (c b now t : ℕ)
    → t ≤ now
    → now < u64_mod
    → add_u64 ((c + b) % u64_mod) (sub_u64 now t) ≡ (c + (b + (now - t))) % u64_mod
add_u64-elapsed c b now t h k = omega arith

module _ {maps : Maps} where
  open maps use {slot, insert, remove, has_room, at, put}

  pub at-charge :
      (cpu tgid delta c : ℕ) (k : Kernel maps)
      → at cpu k.cpu_time ≡ some c
      → at cpu (charge maps cpu tgid delta k).cpu_time ≡ some (add_u64 c delta)
  unfolding charge
  at-charge cpu tgid delta c k h = rw h (maps.at-put_same cpu (add_u64 c delta) c k.cpu_time h)

  pub at-charge_and_remove :
      (now cpu tgid t c : ℕ) (k : Kernel maps)
      → slot cpu tgid k.pid_last ≡ some t
      → at cpu k.cpu_time ≡ some c
      → (at cpu (charge_and_remove maps now cpu tgid k).cpu_time ≡ some (add_u64 c (sub_u64 now t)))
        × (slot cpu tgid (charge_and_remove maps now cpu tgid k).pid_last ≡ none)
  unfolding charge_and_remove charge
  at-charge_and_remove now cpu tgid t c k m h = (
    rw (charge_and_remove, m) (at-charge cpu tgid (sub_u64 now t) c k h),
    rw (charge_and_remove, m) (maps.slot-remove_same cpu tgid k.pid_last),
  )

  pub charge_and_remove-unmarked :
      (now cpu tgid : ℕ) (k : Kernel maps)
      → slot cpu tgid k.pid_last ≡ none
      → charge_and_remove maps now cpu tgid k ≡ k
  unfolding charge_and_remove
  charge_and_remove-unmarked now cpu tgid k m = rw (charge_and_remove, m) refl
