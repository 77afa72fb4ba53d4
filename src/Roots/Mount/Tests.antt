-- ===== src/Roots/Mount/Tests.antt =====
-- Tests of the mounting of roots.c, and the theorems at a system that keeps a list of mount points.
use midnight_i9000_recovery.Common.{
  ◌≡◌, refl, Bool, true, false, ◌||◌, List, [], ◌∷◌, none, some, if◌then◌else◌, Bool-cases, inl,
  inr,
}
use midnight_i9000_recovery.Common.Int.{pos}
use midnight_i9000_recovery.Common.Text.{Bytes, codes, bytes_eq, bytes_eq_refl}
use midnight_i9000_recovery.Roots.{Volume, ramdisk_volume, volume_for_path}
use midnight_i9000_recovery.Roots.Mount.{
  System, minus_one, ensure_path_mounted, ensure_path_unmounted,
}
use midnight_i9000_recovery.Roots.Mount.Laws.{Achieves, IsSystem}
use midnight_i9000_recovery.Roots.Mount.Mounted.{PathMounted, ensure_path_mounted-PathMounted}
use midnight_i9000_recovery.Roots.Mount.Unmounted.{
  PathUnmounted, ensure_path_unmounted-PathUnmounted,
}

listed : Bytes → List Bytes → Bool
listed p [] = false
listed p (q ∷ qs) = bytes_eq q p || listed p qs

without : Bytes → List Bytes → List Bytes
without p [] = []
without p (q ∷ qs) = let rest = without p qs in if bytes_eq q p then rest else q ∷ rest

-- Commands of the shell fail here.
abbrev mounts : System (List Bytes) Bytes
mounts = record {
  mount = λ device p fs_type s. (pos 0, p ∷ s);
  system = λ cmd s. (minus_one, s);
  mkdir = λ p s. s;
  rmdir = λ p s. s;
  symlink = λ p q s. s;
  scan_mounted_volumes = λ s. (true, s);
  is_mounted = listed;
  unmount_mounted_volume = λ p s. (pos 0, without p s);
  find_partition = λ name s. (name, s);
  mtd_mount_partition = λ name p fs_type s. (pos 0, p ∷ s);
}

listed-cons : (p : Bytes) (s : List Bytes) → listed p (p ∷ s) ≡ true
unfolding listed
listed-cons p s = rw (bytes_eq_refl p) refl

listed-without : (p : Bytes) (s : List Bytes) → listed p (without p s) ≡ false
unfolding listed without
listed-without p [] = refl
listed-without p (q ∷ qs) = elim (Bool-cases (bytes_eq q p)) [
  | inl same ↦ rw same (listed-without p qs)
  | inr other ↦ rw other (rw other (listed-without p qs))
]

mounts-IsSystem : IsSystem mounts
mounts-IsSystem = record {
  Mounted = λ s p. listed p s ≡ true;
  Unmounted = λ s p. listed p s ≡ false;
  mount-Mounted = λ device p fs_type s. listed-cons p s;
  command-Mounted = λ flags device p s. tt;
  path-Mounted = λ path s. tt;
  mtd-Mounted = λ partition p fs_type s. listed-cons p s;
  unmount-Unmounted = λ p s. listed-without p s;
  is_mounted-Mounted = λ p s s' e h. h;
  is_mounted-Unmounted = λ p s s' e h. h;
}

abbrev system_volume : Volume
system_volume = record {
  mount_point = codes "/system";
  fs_type = codes "ext4";
  device = some (codes "/dev/stl9");
  device2 = none;
  fs_type2 = none;
  fs_options = none;
  fs_options2 = none;
}

abbrev volumes : List Volume
volumes = ramdisk_volume ∷ system_volume ∷ []

ensure_path_mounted-PathMounted_example :
    Achieves
      (PathMounted mounts mounts-IsSystem volumes (codes "/system/app"))
      (ensure_path_mounted mounts volumes (codes "/system/app") [])
ensure_path_mounted-PathMounted_example =
    ensure_path_mounted-PathMounted mounts mounts-IsSystem volumes (codes "/system/app") []

mount_system :
    ensure_path_mounted mounts volumes (codes "/system/app") [] ≡ (pos 0, codes "/system" ∷ [])
unfolding ensure_path_mounted volume_for_path listed
mount_system = refl

ensure_path_unmounted-PathUnmounted_example :
    Achieves
      (PathUnmounted mounts mounts-IsSystem volumes (codes "/system"))
      (ensure_path_unmounted mounts volumes (codes "/system") (codes "/system" ∷ []))
ensure_path_unmounted-PathUnmounted_example =
    ensure_path_unmounted-PathUnmounted mounts mounts-IsSystem volumes (codes "/system")
      (codes "/system" ∷ [])

unmount_system :
    ensure_path_unmounted mounts volumes (codes "/system") (codes "/system" ∷ []) ≡ (pos 0, [])
unfolding ensure_path_unmounted volume_for_path listed without
unmount_system = refl
