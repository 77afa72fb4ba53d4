-- ===== src/Mounts/Tests.antt =====
-- Tests of the model of mounts.c on a file of two lines, of which one is read.
use midnight_i9000_recovery.Common.{
  ◌≡◌, refl, true, [], ◌∷◌, ◌++◌, take, Option, none, some, if◌then◌else◌, arith,
}
use midnight_i9000_recovery.Common.Run.{ok}
use midnight_i9000_recovery.Common.Text.{Bytes, codes, has_prefix}
use midnight_i9000_recovery.Mounts.{
  MountedVolume, scan_mounted_volumes, find_mounted_volume_by_mount_point,
  find_mounted_volume_by_device, eat_line,
}
use midnight_i9000_recovery.Mounts.Scan.{volumes_of, lines_from, scan_mounted_volumes-volumes_of}

abbrev data_volume : MountedVolume
data_volume = record {
  device = some (codes "/dev/stl10");
  mount_point = some (codes "/data");
  filesystem = some (codes "rfs");
  flags = some (codes "rw");
}

-- It knows one line.
data_line : Bytes → Option MountedVolume
data_line text = if has_prefix (codes "/dev/stl10 ") text then some data_volume else none

abbrev proc_mounts : Bytes
proc_mounts = codes "rootfs" ++ 10 ∷ codes "/dev/stl10 /data rfs rw 0 0" ++ 10 ∷ []

scan_mounted_volumes-volumes_of_example :
    scan_mounted_volumes data_line true (some proc_mounts) []
    ≡ ok (true, volumes_of data_line (lines_from true (take 2047 proc_mounts)))
unfolding data_line lines_from
scan_mounted_volumes-volumes_of_example =
    scan_mounted_volumes-volumes_of data_line proc_mounts [] (omega arith)

scan_data : scan_mounted_volumes data_line true (some proc_mounts) [] ≡ ok (true, data_volume ∷ [])
unfolding scan_mounted_volumes data_line eat_line
scan_data = refl

find_data : find_mounted_volume_by_mount_point (data_volume ∷ []) (codes "/data") ≡ some data_volume
unfolding find_mounted_volume_by_mount_point
find_data = refl

find_device : find_mounted_volume_by_device (data_volume ∷ []) (codes "/data") ≡ none
unfolding find_mounted_volume_by_device
find_device = refl
