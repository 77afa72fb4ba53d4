-- ===== src/Roots.antt =====
-- The volume table of roots.c: the lines of /etc/recovery.fstab, and the volume of a path. Messages are left out.
pub mod Words
pub mod Table
pub mod Search
pub mod Mount
mod Tests
use midnight_i9000_recovery.Common.{
  ℕ, zero, suc, ◌+◌, ◌==◌, Bool, true, false, not, ◌&&◌, ◌||◌, List, [], ◌∷◌, ◌++◌, length, drop,
  Option, none, some, if◌then◌else◌,
}
use midnight_i9000_recovery.Common.Words.{words_by}
use midnight_i9000_recovery.Common.CString.{c_string, fgets}
use midnight_i9000_recovery.Common.Text.{Bytes, codes, bytes_eq, has_prefix, skip_space}

pub record Volume : Type 0 where
  pub mount_point : Bytes
  pub fs_type : Bytes
  pub device : Option Bytes
  pub device2 : Option Bytes
  pub fs_type2 : Option Bytes
  pub fs_options : Option Bytes
  pub fs_options2 : Option Bytes

abbrev pub is_null : Option Bytes → Bool
is_null none = true
is_null (some sz) = bytes_eq (codes "NULL") sz

abbrev pub dupe_string : Option Bytes → Option Bytes
dupe_string sz = if is_null sz then none else sz

-- One of " \t\n".
abbrev pub is_delimiter : ℕ → Bool
is_delimiter c = (c == 32) || (c == 9) || (c == 10)

-- strtok(…, " \t\n"), one word after the other.
unfoldable pub words_of : Bytes → List Bytes
unfolding words_by
words_of text = words_by is_delimiter [] text

abbrev pub word_at : List Bytes → ℕ → Option Bytes
word_at [] i = none
word_at (w ∷ ws) zero = some w
word_at (w ∷ ws) (suc i) = word_at ws i

-- The entry of a line with these words, unless there are too few.
unfoldable pub volume_of : List Bytes → Option Volume
volume_of (mount_point ∷ fs_type ∷ device ∷ more) =
    let second = word_at more 1 in
    some (record {
      mount_point = mount_point;
      fs_type = elim second [ none ↦ fs_type | some t ↦ if is_null (some t) then fs_type else t ];
      device = some device;
      device2 = dupe_string (word_at more 0);
      fs_type2 = if is_null second then none else some fs_type;
      fs_options =
          if is_null second then dupe_string (word_at more 2) else dupe_string (word_at more 3);
      fs_options2 = if is_null second then none else dupe_string (word_at more 2);
    })
volume_of _ = none

unfoldable pub from_text : Bytes → Option Volume
unfolding volume_of words_of
from_text [] = none
from_text (c ∷ cs) = if c == 35 then none else volume_of (words_of (c ∷ cs))

-- The body of the loop of `load_volume_table`.
unfoldable pub from_line : Bytes → Option Volume
unfolding from_text
from_line buffer = from_text (skip_space buffer)

unfoldable pub from_lines : List Bytes → List Volume
unfolding from_line
from_lines [] = []
from_lines (line ∷ lines) =
    let rest = from_lines lines in elim (from_line line) [ none ↦ rest | some v ↦ v ∷ rest ]

-- The source does not set `fs_type2` of this entry.
abbrev pub ramdisk_volume : Volume
ramdisk_volume = record {
  mount_point = codes "/tmp";
  fs_type = codes "ramdisk";
  device = none;
  device2 = none;
  fs_type2 = none;
  fs_options = none;
  fs_options2 = none;
}

-- The strings that fgets() leaves in the buffer, of at most 1022 bytes each. Each call takes at least
-- one byte of the text, so that `n` is enough where it is the length of the text.
unfoldable pub buffers_of : ℕ → Bytes → List Bytes
unfolding fgets
buffers_of zero text = []
buffers_of (suc n) [] = []
buffers_of (suc n) (c ∷ cs) =
    let (line, rest) = fgets 1022 (c ∷ cs) in c_string line ∷ buffers_of n rest

-- From the text of the file, `none` if it cannot be opened.
unfoldable pub load_volume_table : Option Bytes → List Volume
unfolding from_lines buffers_of
load_volume_table none = ramdisk_volume ∷ []
load_volume_table (some text) = ramdisk_volume ∷ from_lines (buffers_of (length text) text)

-- path[len] == '\0' || path[len] == '/'
abbrev pub ends_here : Bytes → Bool
ends_here [] = true
ends_here (c ∷ cs) = c == b'/'

unfoldable pub volume_for_path : List Volume → Bytes → Option Volume
volume_for_path [] path = none
volume_for_path (v ∷ vs) path =
    let rest = volume_for_path vs path in
    if has_prefix v.mount_point path && ends_here (drop (length v.mount_point) path)
    then some v
    else rest

-- From the volumes of /data and /sdcard.
abbrev pub is_auto : Option Volume → Option Volume → Bool
is_auto none sdcard = false
is_auto (some v) none = bytes_eq v.fs_type (codes "auto")
is_auto (some v) (some card) = false

unfoldable pub is_data_media : List Volume → Bool
is_data_media volumes =
    is_auto (volume_for_path volumes (codes "/data")) (volume_for_path volumes (codes "/sdcard"))
