-- ===== src/Roots/Mount/Laws.antt =====
-- What roots.c relies on of the operating system, and chains of calls.
use midnight_i9000_recovery.Common.{zero, suc, ◌≡◌, ◌≢◌, refl, true, false, ◌++◌}
use midnight_i9000_recovery.Common.Int.{ℤ, pos, negsuc}
use midnight_i9000_recovery.Common.Text.{Bytes, codes}
use midnight_i9000_recovery.Roots.Mount.{System, mount_command, or_else}

-- A call that returns 0 leaves a state with this property.
abbrev pub Achieves : {S : Type 0} → (S → Type 0) → ℤ × S → Type 0
Achieves Q (pos zero, s) = Q s
Achieves Q (pos (suc n), s) = Unit
Achieves Q (negsuc n, s) = Unit

-- A mount or an unmount that reports success has done its work, and the table of mounts is true.
pub record IsSystem {S P : Type 0} (sys : System S P) : Type 1 where
  pub Mounted : S → Bytes → Type 0
  pub Unmounted : S → Bytes → Type 0
  pub mount-Mounted :
      (device mount_point fs_type : Bytes) (s : S)
      → Achieves (λ s'. Mounted s' mount_point) (sys.mount device mount_point fs_type s)
  pub command-Mounted :
      (flags device mount_point : Bytes) (s : S)
      → Achieves
          (λ s'. Mounted s' mount_point)
          (sys.system (mount_command flags device mount_point) s)
  pub path-Mounted :
      (path : Bytes) (s : S)
      → Achieves (λ s'. Mounted s' path) (sys.system (codes "mount " ++ path) s)
  pub mtd-Mounted :
      (partition : P) (mount_point fs_type : Bytes) (s : S)
      → Achieves
          (λ s'. Mounted s' mount_point)
          (sys.mtd_mount_partition partition mount_point fs_type s)
  pub unmount-Unmounted :
      (mount_point : Bytes) (s : S)
      → Achieves (λ s'. Unmounted s' mount_point) (sys.unmount_mounted_volume mount_point s)
  pub is_mounted-Mounted :
      (mount_point : Bytes) (s s' : S)
      → sys.scan_mounted_volumes s ≡ (true, s')
      → sys.is_mounted mount_point s' ≡ true
      → Mounted s' mount_point
  pub is_mounted-Unmounted :
      (mount_point : Bytes) (s s' : S)
      → sys.scan_mounted_volumes s ≡ (true, s')
      → sys.is_mounted mount_point s' ≡ false
      → Unmounted s' mount_point

module _ {S P : Type 0} (sys : System S P) (lawful : IsSystem sys) where
  pub or_else-Achieves :
      (Q : S → Type 0) (r : ℤ × S) (next : ℤ → S → ℤ × S)
      → Achieves Q r
      → ((ret : ℤ) (s : S) → ret ≢ pos 0 → Achieves Q (next ret s))
      → Achieves Q (or_else sys r next)
  or_else-Achieves Q (pos zero, s) next h k = h
  or_else-Achieves Q (pos (suc n), s) next h k = k (pos (suc n)) s (λ e. absurd (cc))
  or_else-Achieves Q (negsuc n, s) next h k = k (negsuc n) s (λ e. absurd (cc))

  pub failed : (Q : S → Type 0) (ret : ℤ) (s : S) → ret ≢ pos 0 → Achieves Q (ret, s)
  failed Q (pos zero) s h = absurd (h refl)
  failed Q (pos (suc n)) s h = tt
  failed Q (negsuc n) s h = tt

  pub Achieves-weaken :
      (Q R : S → Type 0) (r : ℤ × S) → ((s : S) → Q s → R s) → Achieves Q r → Achieves R r
  Achieves-weaken Q R (pos zero, s) f h = f s h
  Achieves-weaken Q R (pos (suc n), s) f h = tt
  Achieves-weaken Q R (negsuc n, s) f h = tt
