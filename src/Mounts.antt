-- ===== src/Mounts.antt =====
-- The table of mounted volumes of mounts.c. The file /proc/mounts is a text; sscanf() with strdup(), and
-- the allocation of the table, are parameters. Only the volumes in use stand in the list.
pub mod Scan
mod Tests
use midnight_i9000_recovery.Common.{
  ℕ, zero, suc, ◌==◌, ltb, Bool, true, false, List, [], ◌∷◌, ◌++◌, length, take, Option, none, some,
  if◌then◌else◌,
}
use midnight_i9000_recovery.Common.Run
use midnight_i9000_recovery.Common.Run.{Run, ok, fault, Fault}
use midnight_i9000_recovery.Common.Text.{Bytes, bytes_eq}
use midnight_i9000_recovery.Common.CString.{c_string}

-- The strings are NULL where strdup() fails.
pub record MountedVolume : Type 0 where
  pub device : Option Bytes
  pub mount_point : Option Bytes
  pub filesystem : Option Bytes
  pub flags : Option Bytes

abbrev pub numv : ℕ
numv = 32

-- volumes[volume_count++] = …
abbrev pub add_volume : List MountedVolume → MountedVolume → Run (List MountedVolume)
add_volume volumes v =
    if ltb (length volumes) numv then ok (volumes ++ (v ∷ [])) else fault Fault.out_of_bounds

-- Eat the line.
unfoldable pub eat_line : Bytes → Bytes
eat_line [] = []
eat_line (c ∷ cs) = let rest = eat_line cs in if c == 10 then cs else rest

-- `sscanf` gives the volume of a line, if it finds all four strings.
module _ (sscanf : Bytes → Option MountedVolume) where
  abbrev pub scan_line :
      (List MountedVolume → Run (List MountedVolume))
      → List MountedVolume
      → Option MountedVolume
      → Run (List MountedVolume)
  scan_line later volumes none = later volumes
  scan_line later volumes (some v) = Run.◌>>=◌ (add_volume volumes v) later

  -- The loop over the text.
  unfoldable pub scan_text : ℕ → Bytes → List MountedVolume → Run (List MountedVolume)
  scan_text zero text volumes = fault Fault.no_fuel
  scan_text (suc fuel) [] volumes = ok volumes
  scan_text (suc fuel) (c ∷ cs) volumes =
      scan_line (λ volumes'. scan_text fuel (eat_line (c ∷ cs)) volumes') volumes
        (sscanf (c_string (c ∷ cs)))

  -- `content` is the file, `none` if it cannot be opened or read.
  abbrev pub scan_content : Option Bytes → Run (Bool × List MountedVolume)
  scan_content none = ok (false, [])
  scan_content (some content) =
      Run.◌>>=◌ (scan_text (suc (length (take 2047 content))) (take 2047 content) [])
        λ volumes. ok (true, volumes)

  -- Whether it succeeds, and the table; `allocated` tells whether there is one or malloc() succeeds.
  unfoldable pub scan_mounted_volumes :
      Bool → Option Bytes → List MountedVolume → Run (Bool × List MountedVolume)
  unfolding scan_text
  scan_mounted_volumes false content volumes = ok (false, volumes)
  scan_mounted_volumes true content volumes = scan_content content

abbrev pub is_string : Option Bytes → Bytes → Bool
is_string none wanted = false
is_string (some text) wanted = bytes_eq text wanted

unfoldable pub find_mounted_volume_by_device : List MountedVolume → Bytes → Option MountedVolume
find_mounted_volume_by_device [] wanted = none
find_mounted_volume_by_device (v ∷ vs) wanted =
    let rest = find_mounted_volume_by_device vs wanted in
    if is_string v.device wanted then some v else rest

unfoldable pub find_mounted_volume_by_mount_point :
    List MountedVolume → Bytes → Option MountedVolume
find_mounted_volume_by_mount_point [] wanted = none
find_mounted_volume_by_mount_point (v ∷ vs) wanted =
    let rest = find_mounted_volume_by_mount_point vs wanted in
    if is_string v.mount_point wanted then some v else rest
