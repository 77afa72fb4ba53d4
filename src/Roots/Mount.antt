-- ===== src/Roots/Mount.antt =====
-- Mounting in roots.c: try_mount to ensure_path_unmounted. Messages are left out, and PATH_MAX is room
-- enough for a command. An `int` is an integer, 0 for success.
pub mod Laws
pub mod Mounted
pub mod Unmounted
mod Tests
use midnight_i9000_recovery.Common.{
  suc, ℕ, zero, not, Bool, true, false, ◌&&◌, ◌||◌, List, [], ◌∷◌, ◌++◌, Option, none, some,
  if◌then◌else◌,
}
use midnight_i9000_recovery.Common.Int.{ℤ, pos, negsuc}
use midnight_i9000_recovery.Common.Text.{Bytes, codes, bytes_eq, has_prefix}
use midnight_i9000_recovery.Roots.{Volume, volume_for_path, is_data_media}

-- The calls of the operating system, the mount table of mounts.c and the partitions of mtdutils. `P` is
-- a partition. The scan is `false` if it fails; the table is that of the last scan.
pub record System (S P : Type 0) : Type 0 where
  pub mount : Bytes → Bytes → Bytes → S → ℤ × S
  pub system : Bytes → S → ℤ × S
  pub mkdir : Bytes → S → S
  pub rmdir : Bytes → S → S
  pub symlink : Bytes → Bytes → S → S
  pub scan_mounted_volumes : S → Bool × S
  pub is_mounted : Bytes → S → Bool
  pub unmount_mounted_volume : Bytes → S → ℤ × S
  pub find_partition : Option Bytes → S → Option P × S
  pub mtd_mount_partition : P → Bytes → Bytes → S → ℤ × S

abbrev pub minus_one : ℤ
minus_one = negsuc 0

-- What %s prints of a pointer that may be NULL.
abbrev pub printed : Option Bytes → Bytes
printed none = codes "(null)"
printed (some text) = text

-- "mount -t <flags> <device> <mount_point>"
abbrev pub mount_command : Bytes → Bytes → Bytes → Bytes
mount_command flags device mount_point =
    codes "mount -t " ++ (flags ++ (codes " " ++ (device ++ (codes " " ++ mount_point))))

module _ {S P : Type 0} (sys : System S P) where
  -- A call, and another one if it fails.
  abbrev pub or_else : ℤ × S → (ℤ → S → ℤ × S) → ℤ × S
  or_else (pos zero, s) next = (pos 0, s)
  or_else (pos (suc n), s) next = next (pos (suc n)) s
  or_else (negsuc n, s) next = next (negsuc n) s

  abbrev pub and_then : ℤ × S → (S → ℤ × S) → ℤ × S
  and_then (pos zero, s) next = next s
  and_then (pos (suc n), s) next = (pos (suc n), s)
  and_then (negsuc n, s) next = (negsuc n, s)

  abbrev pub first_mount : Bytes → Bytes → Bytes → Option Bytes → S → ℤ × S
  first_mount device mount_point fs_type none = sys.mount device mount_point fs_type
  first_mount device mount_point fs_type (some fs_options) =
      sys.system (mount_command (fs_type ++ (codes " -o" ++ fs_options)) device mount_point)

  -- The last try, for the card; `ret` is the result of the one before.
  abbrev pub try_vfat : Bytes → Bytes → ℤ → S → ℤ × S
  try_vfat device mount_point ret s =
      if bytes_eq (codes "/sdcard") mount_point
      then sys.system (mount_command (codes "vfat") device mount_point) s
      else (ret, s)

  abbrev pub try_known : Bytes → Bytes → Bytes → Option Bytes → S → ℤ × S
  try_known device mount_point fs_type fs_options s =
      or_else (first_mount device mount_point fs_type fs_options s) λ ret1 s1.
        or_else (sys.system (mount_command (codes "ext4") device mount_point) s1) λ ret2 s2.
          or_else (sys.system (mount_command (codes "rfs") device mount_point) s2)
            (try_vfat device mount_point)

  unfoldable pub try_mount : Option Bytes → Bytes → Option Bytes → Option Bytes → S → ℤ × S
  try_mount none mount_point fs_type fs_options s = (minus_one, s)
  try_mount (some device) mount_point none fs_options s = (minus_one, s)
  try_mount (some device) mount_point (some fs_type) fs_options s =
      try_known device mount_point fs_type fs_options s

  abbrev pub mount_yaffs2 : Volume → Option P × S → ℤ × S
  mount_yaffs2 v (none, s) = (minus_one, s)
  mount_yaffs2 v (some partition, s) = sys.mtd_mount_partition partition v.mount_point v.fs_type s

  -- The two devices with the two types.
  abbrev pub mount_block : Volume → S → ℤ × S
  mount_block v s =
      or_else (try_mount v.device v.mount_point (some v.fs_type) v.fs_options s) λ ret1 s1.
        or_else (try_mount v.device2 v.mount_point (some v.fs_type) v.fs_options s1) λ ret2 s2.
          or_else (try_mount v.device v.mount_point v.fs_type2 v.fs_options2 s2)
            λ ret3 s3. try_mount v.device2 v.mount_point v.fs_type2 v.fs_options2 s3

  abbrev pub mount_other : Volume → Bytes → S → ℤ × S
  mount_other v path s =
      or_else (sys.system (mount_command (codes "ext4") (printed v.device) v.mount_point) s)
        λ ret1 s1.
          or_else (sys.system (mount_command (codes "rfs") (printed v.device) v.mount_point) s1)
            λ ret2 s2. sys.system (codes "mount " ++ path) s2

  abbrev pub is_block_type : Bytes → Bool
  is_block_type fs_type =
      (bytes_eq fs_type (codes "ext4") || bytes_eq fs_type (codes "ext3"))
      || (bytes_eq fs_type (codes "rfs") || bytes_eq fs_type (codes "vfat"))

  abbrev pub mount_by_type : Volume → Bytes → S → ℤ × S
  mount_by_type v path s =
      if bytes_eq v.fs_type (codes "yaffs2")
      then mount_yaffs2 v (sys.find_partition v.device s)
      else if is_block_type v.fs_type
      then mount_block v s
      else mount_other v path s

  abbrev pub mount_if_needed : Volume → Bytes → Bool × S → ℤ × S
  mount_if_needed v path (false, s) = (minus_one, s)
  mount_if_needed v path (true, s) =
      if sys.is_mounted v.mount_point s
      then (pos 0, s)
      else mount_by_type v path (sys.mkdir v.mount_point s)

  -- The part of ensure_path_mounted behind the search for the volume.
  unfoldable pub mount_volume : Volume → Bytes → S → ℤ × S
  unfolding try_mount
  mount_volume v path s =
      if bytes_eq v.fs_type (codes "ramdisk")
      then (pos 0, s)
      else mount_if_needed v path (sys.scan_mounted_volumes s)

  unfoldable pub setup_data_media : S → S
  setup_data_media s =
      sys.symlink (codes "/data/media") (codes "/sdcard")
        (sys.mkdir (codes "/data/media") (sys.rmdir (codes "/sdcard") s))

  abbrev pub mount_found : Option Volume → Bytes → S → ℤ × S
  mount_found none path s = (minus_one, s)
  mount_found (some v) path s = mount_volume v path s

  -- ensure_path_mounted("/data") finds a volume where is_data_media() is true.
  unfoldable pub ensure_path_mounted : List Volume → Bytes → S → ℤ × S
  unfolding mount_volume setup_data_media
  ensure_path_mounted volumes path s = elim (volume_for_path volumes path) [
    | some v ↦ mount_volume v path s
    | none ↦
        if has_prefix (codes "/sdcard") path && is_data_media volumes
        then and_then (mount_found (volume_for_path volumes (codes "/data")) (codes "/data") s)
            (λ s1. (pos 0, setup_data_media s1))
        else (minus_one, s)
  ]

  abbrev pub unmount_if_needed : Volume → Bool × S → ℤ × S
  unmount_if_needed v (false, s) = (minus_one, s)
  unmount_if_needed v (true, s) =
      if sys.is_mounted v.mount_point s
      then sys.unmount_mounted_volume v.mount_point s
      else (pos 0, s)

  -- The part of ensure_path_unmounted behind the search for the volume.
  abbrev pub unmount_found : Option Volume → S → ℤ × S
  unmount_found none s = (minus_one, s)
  unmount_found (some v) s =
      if bytes_eq v.fs_type (codes "ramdisk")
      then (minus_one, s)
      else unmount_if_needed v (sys.scan_mounted_volumes s)

  -- /data and /sdcard stay where there is no volume for /sdcard.
  abbrev pub stays_mounted : List Volume → Bytes → Bool
  stays_mounted volumes path = elim (volume_for_path volumes (codes "/sdcard")) [
    | some v ↦ false
    | none ↦ has_prefix (codes "/sdcard") path || has_prefix (codes "/data") path
  ]

  -- Its call of itself is for "/data".
  unfoldable pub ensure_path_unmounted : List Volume → Bytes → S → ℤ × S
  ensure_path_unmounted volumes path s =
      if stays_mounted volumes path then (pos 0, s) else elim (volume_for_path volumes path) [
        | some v ↦ unmount_found (some v) s
        | none ↦
            if has_prefix (codes "/sdcard") path && is_data_media volumes
            then if stays_mounted volumes (codes "/data")
              then (pos 0, s)
              else unmount_found (volume_for_path volumes (codes "/data")) s
            else (minus_one, s)
      ]
