-- ===== src/Roots/Mount/Mounted.antt =====
-- ensure_path_mounted of roots.c.
use midnight_i9000_recovery.Common.{
  zero, suc, ◌≡◌, ◌≢◌, refl, Bool, true, false, List, ◌++◌, Option, none, some, ◌⊎◌, inl, inr,
  Bool-cases, ◌&&◌, if◌then◌else◌,
}
use midnight_i9000_recovery.Common.Int.{ℤ, pos, negsuc}
use midnight_i9000_recovery.Common.Text.{Bytes, codes, bytes_eq, bytes_eq→≡, has_prefix}
use midnight_i9000_recovery.Roots.{Volume, volume_for_path, is_data_media}
use midnight_i9000_recovery.Roots.Mount.{
  System, mount_command, and_then, first_mount, try_vfat, try_mount, mount_yaffs2, mount_block,
  mount_other, is_block_type, mount_by_type, mount_if_needed, mount_volume, setup_data_media,
  mount_found, ensure_path_mounted, printed,
}
use midnight_i9000_recovery.Roots.Mount.Laws.{
  Achieves, IsSystem, or_else-Achieves, failed, Achieves-weaken,
}

module _ {S P : Type 0} (sys : System S P) (lawful : IsSystem sys) where
  abbrev At : Bytes → S → Type 0
  At mount_point s = lawful.Mounted s mount_point

  try_vfat-Mounted :
      (device mount_point : Bytes) (ret : ℤ) (s : S)
      → ret ≢ pos 0
      → Achieves (At mount_point) (try_vfat sys device mount_point ret s)
  try_vfat-Mounted device mount_point ret s h =
      elim (Bool-cases (bytes_eq (codes "/sdcard") mount_point)) [
        | inl card ↦ rw card (lawful.command-Mounted (codes "vfat") device mount_point s)
        | inr other ↦ rw other (failed sys lawful (At mount_point) ret s h)
      ]

  first_mount-Mounted :
      (device mount_point fs_type : Bytes) (fs_options : Option Bytes) (s : S)
      → Achieves (At mount_point) (first_mount sys device mount_point fs_type fs_options s)
  first_mount-Mounted device mount_point fs_type none s =
      lawful.mount-Mounted device mount_point fs_type s
  first_mount-Mounted device mount_point fs_type (some o) s =
      lawful.command-Mounted (fs_type ++ (codes " -o" ++ o)) device mount_point s

  try_mount-Mounted :
      (device : Option Bytes) (mount_point : Bytes) (fs_type fs_options : Option Bytes) (s : S)
      → Achieves (At mount_point) (try_mount sys device mount_point fs_type fs_options s)
  unfolding try_mount
  try_mount-Mounted none mount_point fs_type fs_options s = tt
  try_mount-Mounted (some device) mount_point none fs_options s = tt
  try_mount-Mounted (some device) mount_point (some fs_type) fs_options s =
      or_else-Achieves sys lawful (At mount_point)
        (first_mount sys device mount_point fs_type fs_options s) _
        (first_mount-Mounted device mount_point fs_type fs_options s)
        (λ ret1 s1 h1.
          or_else-Achieves sys lawful (At mount_point)
            (sys.system (mount_command (codes "ext4") device mount_point) s1) _
            (lawful.command-Mounted (codes "ext4") device mount_point s1)
            (λ ret2 s2 h2.
              or_else-Achieves sys lawful (At mount_point)
                (sys.system (mount_command (codes "rfs") device mount_point) s2) _
                (lawful.command-Mounted (codes "rfs") device mount_point s2)
                (try_vfat-Mounted device mount_point)))

  -- The mount point of the volume is mounted, or the path itself, or no mount is needed.
  abbrev pub IsReady : Volume → Bytes → S → Type 0
  IsReady v path s =
      (v.fs_type ≡ codes "ramdisk") ⊎ (lawful.Mounted s v.mount_point ⊎ lawful.Mounted s path)

  mounted-IsReady :
      (v : Volume) (path : Bytes) (r : ℤ × S)
      → Achieves (At v.mount_point) r
      → Achieves (IsReady v path) r
  mounted-IsReady v path r h =
      Achieves-weaken sys lawful (At v.mount_point) (IsReady v path) r (λ s m. inr (inl m)) h

  mount_block-Mounted : (v : Volume) (s : S) → Achieves (At v.mount_point) (mount_block sys v s)
  mount_block-Mounted v s =
      or_else-Achieves sys lawful (At v.mount_point)
        (try_mount sys v.device v.mount_point (some v.fs_type) v.fs_options s) _
        (try_mount-Mounted v.device v.mount_point (some v.fs_type) v.fs_options s)
        (λ ret1 s1 h1.
          or_else-Achieves sys lawful (At v.mount_point)
            (try_mount sys v.device2 v.mount_point (some v.fs_type) v.fs_options s1) _
            (try_mount-Mounted v.device2 v.mount_point (some v.fs_type) v.fs_options s1)
            (λ ret2 s2 h2.
              or_else-Achieves sys lawful (At v.mount_point)
                (try_mount sys v.device v.mount_point v.fs_type2 v.fs_options2 s2) _
                (try_mount-Mounted v.device v.mount_point v.fs_type2 v.fs_options2 s2)
                (λ ret3 s3 h3.
                  try_mount-Mounted v.device2 v.mount_point v.fs_type2 v.fs_options2 s3)))

  mount_other-IsReady :
      (v : Volume) (path : Bytes) (s : S) → Achieves (IsReady v path) (mount_other sys v path s)
  mount_other-IsReady v path s =
      or_else-Achieves sys lawful (IsReady v path)
        (sys.system (mount_command (codes "ext4") (printed v.device) v.mount_point) s) _
        (mounted-IsReady v path
          (sys.system (mount_command (codes "ext4") (printed v.device) v.mount_point) s)
          (lawful.command-Mounted (codes "ext4") (printed v.device) v.mount_point s))
        (λ ret1 s1 h1.
          or_else-Achieves sys lawful (IsReady v path)
            (sys.system (mount_command (codes "rfs") (printed v.device) v.mount_point) s1) _
            (mounted-IsReady v path
              (sys.system (mount_command (codes "rfs") (printed v.device) v.mount_point) s1)
              (lawful.command-Mounted (codes "rfs") (printed v.device) v.mount_point s1))
            (λ ret2 s2 h2.
              Achieves-weaken sys lawful (At path) (IsReady v path)
                (sys.system (codes "mount " ++ path) s2) (λ s m. inr (inr m))
                (lawful.path-Mounted path s2)))

  mount_yaffs2-IsReady :
      (v : Volume) (path : Bytes) (found : Option P × S)
      → Achieves (IsReady v path) (mount_yaffs2 sys v found)
  mount_yaffs2-IsReady v path (none, s) = tt
  mount_yaffs2-IsReady v path (some partition, s) =
      mounted-IsReady v path (sys.mtd_mount_partition partition v.mount_point v.fs_type s)
        (lawful.mtd-Mounted partition v.mount_point v.fs_type s)

  mount_by_type-IsReady :
      (v : Volume) (path : Bytes) (s : S) → Achieves (IsReady v path) (mount_by_type sys v path s)
  mount_by_type-IsReady v path s = elim (Bool-cases (bytes_eq v.fs_type (codes "yaffs2"))) [
    | inl yaffs2 ↦ rw yaffs2 (mount_yaffs2-IsReady v path (sys.find_partition v.device s))
    | inr other ↦ rw other (elim (Bool-cases (is_block_type sys v.fs_type)) [
      | inl block ↦
          rw block (mounted-IsReady v path (mount_block sys v s) (mount_block-Mounted v s))
      | inr unknown ↦ rw unknown (mount_other-IsReady v path s)
    ])
  ]

  mount_if_needed-IsReady :
      (v : Volume) (path : Bytes) (s : S) (r : Bool × S)
      → sys.scan_mounted_volumes s ≡ r
      → Achieves (IsReady v path) (mount_if_needed sys v path r)
  mount_if_needed-IsReady v path s (false, s') e = tt
  mount_if_needed-IsReady v path s (true, s') e =
      elim (Bool-cases (sys.is_mounted v.mount_point s')) [
        | inl there ↦ rw there (inr (inl (lawful.is_mounted-Mounted v.mount_point s s' e there)))
        | inr absent ↦ rw absent (mount_by_type-IsReady v path (sys.mkdir v.mount_point s'))
      ]

  mount_volume-IsReady :
      (v : Volume) (path : Bytes) (s : S) → Achieves (IsReady v path) (mount_volume sys v path s)
  unfolding mount_volume
  mount_volume-IsReady v path s = elim (Bool-cases (bytes_eq v.fs_type (codes "ramdisk"))) [
    | inl ramdisk ↦ rw ramdisk (inl (bytes_eq→≡ v.fs_type (codes "ramdisk") ramdisk))
    | inr other ↦ rw other (mount_if_needed-IsReady v path s (sys.scan_mounted_volumes s) refl)
  ]

  -- What a success of ensure_path_mounted means: the volume of the path is ready, or there is none, the
  -- volume of /data is ready and the links of /data/media have been made on it.
  abbrev pub PathMounted : List Volume → Bytes → S → Type 0
  PathMounted volumes path s =
      ((v : Volume) × (volume_for_path volumes path ≡ some v) × IsReady v path s)
      ⊎ ((v : Volume) × (volume_for_path volumes path ≡ none)
          × (volume_for_path volumes (codes "/data") ≡ some v)
          × (s' : S) × IsReady v (codes "/data") s'
          × (s ≡ setup_data_media sys s'))

  mount_data-PathMounted :
      (volumes : List Volume) (path : Bytes) (s : S)
      → volume_for_path volumes path ≡ none
      → (found : Option Volume) → volume_for_path volumes (codes "/data") ≡ found
      → Achieves (PathMounted volumes path) (
          and_then sys
            (mount_found sys found (codes "/data") s)
            (λ s1. (pos 0, setup_data_media sys s1)))
  mount_data-PathMounted volumes path s absent none e = tt
  mount_data-PathMounted volumes path s absent (some v) e =
      after (mount_volume sys v (codes "/data") s) (mount_volume-IsReady v (codes "/data") s)
    where
      after :
          (r : ℤ × S)
          → Achieves (IsReady v (codes "/data")) r
          → Achieves
              (PathMounted volumes path)
              (and_then sys r (λ s1. (pos 0, setup_data_media sys s1)))
      after (pos zero, s1) h = inr (v, absent, e, s1, h, refl)
      after (pos (suc n), s1) h = tt
      after (negsuc n, s1) h = tt

  -- If ensure_path_mounted returns 0, then the volume of the path is a ramdisk, or its mount point or
  -- the path is mounted; or there is no such volume, this holds of the volume of /data, and
  -- the links of /data/media have been made after that. The mounts that report success have
  -- mounted, and the table of mounts is true.
  pub ensure_path_mounted-PathMounted :
      (volumes : List Volume) (path : Bytes) (s : S)
      → Achieves (PathMounted volumes path) (ensure_path_mounted sys volumes path s)
  unfolding ensure_path_mounted
  ensure_path_mounted-PathMounted volumes path s = of_volume (volume_for_path volumes path) refl
    where
      of_volume :
          (found : Option Volume)
          → volume_for_path volumes path ≡ found
          → Achieves (PathMounted volumes path) (elim found [
            | some v ↦ mount_volume sys v path s
            | none ↦
                if has_prefix (codes "/sdcard") path && is_data_media volumes
                then and_then sys
                    (mount_found sys (volume_for_path volumes (codes "/data")) (codes "/data") s)
                    (λ s1. (pos 0, setup_data_media sys s1))
                else (negsuc 0, s)
          ])
      of_volume (some v) e =
          Achieves-weaken sys lawful (IsReady v path) (PathMounted volumes path)
            (mount_volume sys v path s) (λ s1 h. inl (v, e, h)) (mount_volume-IsReady v path s)
      of_volume none e =
          elim (Bool-cases (has_prefix (codes "/sdcard") path && is_data_media volumes)) [
            | inl media ↦ rw media (
                mount_data-PathMounted volumes path s e (volume_for_path volumes (codes "/data"))
                  refl)
            | inr other ↦ rw other tt
          ]
