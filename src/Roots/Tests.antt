-- ===== src/Roots/Tests.antt =====
-- Tests of the model of roots.c.
use midnight_i9000_recovery.Common.{
  false, ◌==◌, ap, zero, suc, ◌≡◌, refl, [], ◌∷◌, ◌++◌, none, some, arith,
}
use midnight_i9000_recovery.Common.Text.{Bytes, codes}
use midnight_i9000_recovery.Roots.{
  buffers_of, ramdisk_volume, load_volume_table, from_lines, from_line, from_text, words_of,
  volume_of, volume_for_path,
}
use midnight_i9000_recovery.Roots.Table.{
  text_of, Entry, volumes_of, lines_of, AllWritable, load_volume_table-lines_of,
}
use midnight_i9000_recovery.Common.CString.{NoNul, c_string, fgets}
use midnight_i9000_recovery.Common.Words.{words_by}
use midnight_i9000_recovery.Roots.Search.{FirstOver, volume_for_path-FirstOver}

-- /c, of type e or else r with the option x.
abbrev cache : Entry
cache = record {
  mount_point = codes "/c";
  fs_type = codes "e";
  device = codes "d";
  device2 = none;
  fs_options = none;
  other = some (codes "r", some (codes "x"));
}

cache-AllWritable : AllWritable (cache ∷ [])
cache-AllWritable = (
  (
    (refl, (refl, tt)),
    omega arith,
    ((refl, tt), refl),
    (refl, tt),
    tt,
    tt,
    (((refl, tt), refl), ((refl, tt), refl)),
  ),
  tt,
)

abbrev tail : Bytes → Bytes
tail [] = []
tail (c ∷ cs) = cs

positive : (text : Bytes) → c_string text ≡ text → NoNul text
positive [] e = tt
positive (zero ∷ cs) e = absurd (cc)
positive (suc n ∷ cs) e =
    let inside : (suc n == 0) ≡ false = ground arith in
    (omega arith, positive cs (ap tail (rw inside at e)))

all_positive : NoNul (text_of (lines_of (cache ∷ [])))
all_positive = positive (text_of (lines_of (cache ∷ []))) refl

load_volume_table-lines_of_example :
    load_volume_table (some (text_of (lines_of (cache ∷ []))))
    ≡ ramdisk_volume ∷ volumes_of (cache ∷ [])
load_volume_table-lines_of_example =
    load_volume_table-lines_of (cache ∷ []) cache-AllWritable (omega arith, all_positive, tt)

-- A comment and a line with two words give no volume.
skipped_lines :
    load_volume_table (some (35 ∷ codes " fstab" ++ 10 ∷ codes "/data  ext4")) ≡ ramdisk_volume ∷ []
unfolding load_volume_table buffers_of fgets from_lines from_line from_text words_of words_by
    volume_of
skipped_lines = refl

-- The first volume is taken, and a mount point has to end at a slash.
path_below : volume_for_path (ramdisk_volume ∷ []) (codes "/tmp/a") ≡ some ramdisk_volume
unfolding volume_for_path
path_below = refl

path_beside : volume_for_path (ramdisk_volume ∷ []) (codes "/tmpfs") ≡ none
unfolding volume_for_path
path_beside = refl

volume_for_path-FirstOver_example :
    FirstOver
      (ramdisk_volume ∷ [])
      (codes "/tmp/a")
      (volume_for_path (ramdisk_volume ∷ []) (codes "/tmp/a"))
volume_for_path-FirstOver_example = volume_for_path-FirstOver (ramdisk_volume ∷ []) (codes "/tmp/a")
