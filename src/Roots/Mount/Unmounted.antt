-- ===== src/Roots/Mount/Unmounted.antt =====
-- ensure_path_unmounted of roots.c.
use midnight_i9000_recovery.Common.{
  ◌≡◌, ◌≢◌, refl, Bool, true, false, List, Option, none, some, ◌⊎◌, inl, inr, Bool-cases, ◌&&◌,
  ◌||◌, if◌then◌else◌,
}
use midnight_i9000_recovery.Common.Int.{pos, negsuc}
use mathlib.Core.Path.{subst}
use midnight_i9000_recovery.Common.Text.{bytes_eq_refl, Bytes, codes, bytes_eq, has_prefix}
use midnight_i9000_recovery.Roots.{Volume, volume_for_path, is_auto, is_data_media}
use midnight_i9000_recovery.Roots.Mount.{
  System, unmount_if_needed, unmount_found, stays_mounted, ensure_path_unmounted,
}
use midnight_i9000_recovery.Roots.Mount.Laws.{Achieves, IsSystem, Achieves-weaken}

module _ {S P : Type 0} (sys : System S P) (lawful : IsSystem sys) where
  -- The volume of a path is not mounted.
  abbrev pub VolumeUnmounted : List Volume → Bytes → S → Type 0
  VolumeUnmounted volumes path s =
      (v : Volume) × (volume_for_path volumes path ≡ some v)
      × (v.fs_type ≢ codes "ramdisk")
      × lawful.Unmounted s v.mount_point

  -- A path that begins with the bytes /sdcard or /data, where no volume is for /sdcard.
  abbrev pub OnMedia : List Volume → Bytes → Type 0
  OnMedia volumes path =
      (volume_for_path volumes (codes "/sdcard") ≡ none)
      × ((has_prefix (codes "/sdcard") path ≡ true) ⊎ (has_prefix (codes "/data") path ≡ true))

  -- What a success means.
  abbrev pub PathUnmounted : List Volume → Bytes → S → Type 0
  PathUnmounted volumes path s = OnMedia volumes path ⊎ VolumeUnmounted volumes path s

  stays-OnMedia :
      (volumes : List Volume) (path : Bytes)
      → stays_mounted sys volumes path ≡ true
      → OnMedia volumes path
  stays-OnMedia volumes path h =
      of_volume (volume_for_path volumes (codes "/sdcard")) refl (has_prefix (codes "/sdcard") path)
        refl (has_prefix (codes "/data") path) refl h
    where
      of_volume :
          (card : Option Volume)
          → volume_for_path volumes (codes "/sdcard") ≡ card
          → (a : Bool) → has_prefix (codes "/sdcard") path ≡ a
          → (b : Bool) → has_prefix (codes "/data") path ≡ b
          → elim card [ some v ↦ false | none ↦ a || b ] ≡ true
          → OnMedia volumes path
      of_volume (some v) found a e b f h = absurd (cc)
      of_volume none found true e b f h = (found, inl e)
      of_volume none found false e true f h = (found, inr f)
      of_volume none found false e false f h = absurd (cc)

  unmount_if_needed-Unmounted :
      (v : Volume) (s : S) (r : Bool × S)
      → sys.scan_mounted_volumes s ≡ r
      → Achieves (λ s'. lawful.Unmounted s' v.mount_point) (unmount_if_needed sys v r)
  unmount_if_needed-Unmounted v s (false, s') e = tt
  unmount_if_needed-Unmounted v s (true, s') e =
      elim (Bool-cases (sys.is_mounted v.mount_point s')) [
        | inl there ↦ rw there (lawful.unmount-Unmounted v.mount_point s')
        | inr absent ↦ rw absent (lawful.is_mounted-Unmounted v.mount_point s s' e absent)
      ]

  unmount_found-VolumeUnmounted :
      (volumes : List Volume) (path : Bytes) (v : Volume) (s : S)
      → volume_for_path volumes path ≡ some v
      → Achieves (VolumeUnmounted volumes path) (unmount_found sys (some v) s)
  unmount_found-VolumeUnmounted volumes path v s e =
      elim (Bool-cases (bytes_eq v.fs_type (codes "ramdisk"))) [
        | inl ramdisk ↦ rw ramdisk tt
        | inr other ↦ rw other (
            Achieves-weaken sys lawful (λ s'. lawful.Unmounted s' v.mount_point)
              (VolumeUnmounted volumes path) (unmount_if_needed sys v (sys.scan_mounted_volumes s))
              (λ s' h. (v, e, differ v other, h))
              (unmount_if_needed-Unmounted v s (sys.scan_mounted_volumes s) refl))
      ]
    where
      differ :
          (v : Volume) → bytes_eq v.fs_type (codes "ramdisk") ≡ false → v.fs_type ≢ codes "ramdisk"
      differ v other same =
          let t : bytes_eq v.fs_type (codes "ramdisk") ≡ true =
            subst (λ z. bytes_eq v.fs_type z ≡ true) same (bytes_eq_refl v.fs_type) in
          absurd (cc)

  -- With a volume for /data but none for /sdcard, a path below /sdcard stays mounted.
  media_stays :
      (volumes : List Volume) (path : Bytes)
      → (has_prefix (codes "/sdcard") path && is_data_media volumes) ≡ true
      → stays_mounted sys volumes path ≡ true
  unfolding is_data_media
  media_stays volumes path h =
      of_volumes (volume_for_path volumes (codes "/data"))
        (volume_for_path volumes (codes "/sdcard")) (has_prefix (codes "/sdcard") path)
        (has_prefix (codes "/data") path) h
    where
      of_volumes :
          (media card : Option Volume) (a b : Bool)
          → (a && is_auto media card) ≡ true
          → elim card [ some v ↦ false | none ↦ a || b ] ≡ true
      of_volumes none card true b h = absurd (cc)
      of_volumes none card false b h = absurd (cc)
      of_volumes (some v) none true b h = refl
      of_volumes (some v) none false b h = absurd (cc)
      of_volumes (some v) (some c) true b h = absurd (cc)
      of_volumes (some v) (some c) false b h = absurd (cc)

  -- If ensure_path_unmounted returns 0, then the path begins with the bytes /sdcard or /data and there is
  -- no volume for /sdcard, or the volume of the path is no ramdisk and is not mounted. The unmounts that report success have unmounted, and the table of mounts is true.
  pub ensure_path_unmounted-PathUnmounted :
      (volumes : List Volume) (path : Bytes) (s : S)
      → Achieves (PathUnmounted volumes path) (ensure_path_unmounted sys volumes path s)
  unfolding ensure_path_unmounted
  ensure_path_unmounted-PathUnmounted volumes path s =
      elim (Bool-cases (stays_mounted sys volumes path)) [
        | inl stays ↦ rw stays (inl (stays-OnMedia volumes path stays))
        | inr goes ↦ rw goes (of_volume (volume_for_path volumes path) refl goes)
      ]
    where
      of_volume :
          (found : Option Volume)
          → volume_for_path volumes path ≡ found
          → stays_mounted sys volumes path ≡ false
          → Achieves (PathUnmounted volumes path) (elim found [
            | some v ↦ unmount_found sys (some v) s
            | none ↦
                if has_prefix (codes "/sdcard") path && is_data_media volumes
                then if stays_mounted sys volumes (codes "/data")
                  then (pos 0, s)
                  else unmount_found sys (volume_for_path volumes (codes "/data")) s
                else (negsuc 0, s)
          ])
      of_volume (some v) e goes =
          Achieves-weaken sys lawful (VolumeUnmounted volumes path) (PathUnmounted volumes path)
            (unmount_found sys (some v) s) (λ s' h. inr h)
            (unmount_found-VolumeUnmounted volumes path v s e)
      of_volume none e goes =
          elim (Bool-cases (has_prefix (codes "/sdcard") path && is_data_media volumes)) [
            | inl media ↦ let stays = media_stays volumes path media in absurd (cc)
            | inr other ↦ rw other tt
          ]
