-- ===== src/Roots/Table.antt =====
-- The volume table of roots.c, and its lines written out.
use midnight_i9000_recovery.Common.CString.{NoNul, c_string, c_string-NoNul, fgets}
use midnight_i9000_recovery.Roots.Words.{fgets-line_of, IsWord, AllWords, line_of, words_of-line_of}
use midnight_i9000_recovery.Common.{
  length-append, length, ℕ, zero, suc, ◌≤◌, ◌<◌, false, ◌≡◌, ◌≢◌, refl, sym, ◌∙◌, ap, List, [], ◌∷◌,
  ◌++◌, Option, none, some, arith,
}
use midnight_i9000_recovery.Roots.{
  buffers_of, Volume, dupe_string, words_of, volume_of, from_text, from_line, from_lines,
  ramdisk_volume, load_volume_table,
}
use midnight_i9000_recovery.Common.Text.{Bytes, codes, bytes_eq, skip_space}

-- An entry of the table as it is meant: the type to mount with and its options, and possibly another
-- type to try, with its own.
pub record Entry : Type 0 where
  pub mount_point : Bytes
  pub fs_type : Bytes
  pub device : Bytes
  pub device2 : Option Bytes
  pub fs_options : Option Bytes
  pub other : Option (Bytes × Option Bytes)

abbrev pub or_null : Option Bytes → Bytes
or_null none = codes "NULL"
or_null (some w) = w

-- A line gives the other type and its options first.
abbrev pub fields :
    Bytes → Bytes → Bytes → Option Bytes → Option Bytes → Option (Bytes × Option Bytes) → List Bytes
fields mount_point fs_type device device2 fs_options none =
    mount_point ∷ fs_type ∷ device ∷ or_null device2 ∷ codes "NULL" ∷ or_null fs_options ∷ []
fields mount_point fs_type device device2 fs_options (some (t, options)) =
    mount_point ∷ t ∷ device ∷ or_null device2 ∷ fs_type ∷ or_null options ∷ or_null fs_options ∷ []

abbrev pub other_type : Option (Bytes × Option Bytes) → Option Bytes
other_type none = none
other_type (some (t, options)) = some t

abbrev pub other_options : Option (Bytes × Option Bytes) → Option Bytes
other_options none = none
other_options (some (t, options)) = options

abbrev pub volume : Entry → Volume
volume e = record {
  mount_point = e.mount_point;
  fs_type = e.fs_type;
  device = some e.device;
  device2 = e.device2;
  fs_type2 = other_type e.other;
  fs_options = e.fs_options;
  fs_options2 = other_options e.other;
}

abbrev pub print : Entry → Bytes
print e = line_of (fields e.mount_point e.fs_type e.device e.device2 e.fs_options e.other)

-- A word that does not say that there is none.
abbrev pub IsName : Bytes → Type 0
IsName w = IsWord w × (bytes_eq (codes "NULL") w ≡ false)

abbrev pub IsNameIfAny : Option Bytes → Type 0
IsNameIfAny none = Unit
IsNameIfAny (some w) = IsName w

abbrev pub OtherNames : Option (Bytes × Option Bytes) → Type 0
OtherNames none = Unit
OtherNames (some (t, options)) = IsName t × IsNameIfAny options

abbrev pub NoComment : Bytes → Type 0
NoComment [] = ⊥
NoComment (c ∷ cs) = c ≢ 35

abbrev pub IsWritable : Entry → Type 0
IsWritable e =
    IsWord e.mount_point
    × NoComment e.mount_point
    × IsName e.fs_type
    × IsWord e.device
    × IsNameIfAny e.device2
    × IsNameIfAny e.fs_options
    × OtherNames e.other

dupe_string-or_null : (o : Option Bytes) → IsNameIfAny o → dupe_string (some (or_null o)) ≡ o
dupe_string-or_null none h = refl
dupe_string-or_null (some w) h = rw (h.1)

or_null-IsWord : (o : Option Bytes) → IsNameIfAny o → IsWord (or_null o)
or_null-IsWord none h = (refl, (refl, (refl, (refl, tt))))
or_null-IsWord (some w) h = h.0

module _ (mount_point fs_type device : Bytes) (device2 fs_options : Option Bytes)
    (named : IsName fs_type) (named2 : IsNameIfAny device2) (named3 : IsNameIfAny fs_options) where
  abbrev entry : Option (Bytes × Option Bytes) → Entry
  entry other = record {
    mount_point = mount_point;
    fs_type = fs_type;
    device = device;
    device2 = device2;
    fs_options = fs_options;
    other = other;
  }

  volume_of-fields :
      (other : Option (Bytes × Option Bytes))
      → OtherNames other
      → volume_of (fields mount_point fs_type device device2 fs_options other)
        ≡ some (volume (entry other))
  unfolding volume_of
  volume_of-fields none h =
      rw (dupe_string-or_null device2 named2, dupe_string-or_null fs_options named3)
  volume_of-fields (some (t, options)) h = rw (
    named.1,
    dupe_string-or_null device2 named2,
    dupe_string-or_null fs_options named3,
    dupe_string-or_null options h.1,
  )

fields-AllWords :
    (e : Entry)
    → IsWritable e
    → AllWords (fields e.mount_point e.fs_type e.device e.device2 e.fs_options e.other)
fields-AllWords e (word, hash, named, dev, named2, named3, others) = with_other e.other others
  where
    with_other :
        (other : Option (Bytes × Option Bytes))
        → OtherNames other
        → AllWords (fields e.mount_point e.fs_type e.device e.device2 e.fs_options other)
    with_other none h = (
      word,
      (
        named.0,
        (
          dev,
          (
            or_null-IsWord e.device2 named2,
            (or_null-IsWord none tt, (or_null-IsWord e.fs_options named3, tt)),
          ),
        ),
      ),
    )
    with_other (some (t, options)) h = (
      word,
      (
        h.0.0,
        (
          dev,
          (
            or_null-IsWord e.device2 named2,
            (named.0, (or_null-IsWord options h.1, (or_null-IsWord e.fs_options named3, tt))),
          ),
        ),
      ),
    )

no_skip : (w rest : Bytes) → IsWord w → skip_space (w ++ rest) ≡ w ++ rest
no_skip [] rest h = absurd h
no_skip (c ∷ cs) rest h = rw (h.0)

from_text-words :
    (w rest : Bytes)
    → IsWord w
    → NoComment w
    → from_text (w ++ rest) ≡ volume_of (words_of (w ++ rest))
unfolding from_text
from_text-words [] rest h k = absurd h
from_text-words (c ∷ cs) rest h k = ground arith

fields-first :
    (m f d : Bytes) (d2 o : Option Bytes) (other : Option (Bytes × Option Bytes))
    → (rest : Bytes) × (line_of (fields m f d d2 o other) ≡ m ++ rest)
fields-first m f d d2 o none = (_, refl)
fields-first m f d d2 o (some (t, options)) = (_, refl)

from_line-print : (e : Entry) → IsWritable e → from_line (print e) ≡ some (volume e)
unfolding from_line
from_line-print e h =
    let (rest, first) =
      fields-first e.mount_point e.fs_type e.device e.device2 e.fs_options e.other in
    rw
      (
        first,
        no_skip e.mount_point rest h.0,
        from_text-words e.mount_point rest h.0 h.1,
        sym first,
        words_of-line_of (fields e.mount_point e.fs_type e.device e.device2 e.fs_options e.other)
            (fields-AllWords e h),
      )
      (volume_of-fields e.mount_point e.fs_type e.device e.device2 e.fs_options h.2 h.4 h.5 e.other
        h.6)

-- The lines of a table.
abbrev pub AllWritable : List Entry → Type 0
AllWritable [] = Unit
AllWritable (e ∷ es) = IsWritable e × AllWritable es

abbrev pub lines_of : List Entry → List Bytes
lines_of [] = []
lines_of (e ∷ es) = print e ∷ lines_of es

abbrev pub volumes_of : List Entry → List Volume
volumes_of [] = []
volumes_of (e ∷ es) = volume e ∷ volumes_of es

from_lines-cons :
    (line : Bytes) (lines : List Bytes) (v : Volume)
    → from_line line ≡ some v
    → from_lines (line ∷ lines) ≡ v ∷ from_lines lines
unfolding from_lines
from_lines-cons line lines v e =
    ap (λ o. elim o [ none ↦ from_lines lines | some v ↦ v ∷ from_lines lines ]) e

from_lines-lines_of : (es : List Entry) → AllWritable es → from_lines (lines_of es) ≡ volumes_of es
unfolding from_lines
from_lines-lines_of [] h = refl
from_lines-lines_of (e ∷ es) h =
    from_lines-cons (print e) (lines_of es) (volume e) (from_line-print e h.0)
    ∙ ap (λ vs. volume e ∷ vs) (from_lines-lines_of es h.1)

-- Each line has room in the buffer, and no NUL in it.
abbrev pub AllShort : List Entry → Type 0
AllShort [] = Unit
AllShort (e ∷ es) = (length (print e) ≤ 1022) × NoNul (print e) × AllShort es

abbrev pub text_of : List Bytes → Bytes
text_of [] = []
text_of (line ∷ lines) = line ++ text_of lines

buffers_of-line :
    (n : ℕ) (text line rest : Bytes)
    → 0 < length text
    → fgets 1022 text ≡ (line, rest)
    → NoNul line
    → buffers_of (suc n) text ≡ line ∷ buffers_of n rest
unfolding buffers_of
buffers_of-line n [] line rest some_left e clean = absurd (omega arith)
buffers_of-line n (c ∷ cs) line rest some_left e clean =
    ap (λ r. c_string r.0 ∷ buffers_of n r.1) e
    ∙ ap (λ z. z ∷ buffers_of n rest) (c_string-NoNul line clean)

buffers_of-none : (n : ℕ) → buffers_of n [] ≡ []
unfolding buffers_of
buffers_of-none zero = refl
buffers_of-none (suc n) = refl

line_of-nonempty : (ws : List Bytes) → 0 < length (line_of ws)
line_of-nonempty [] = omega arith
line_of-nonempty (w ∷ ws) = omega (arith, length-append w (32 ∷ line_of ws))

buffers_of-text_of :
    (es : List Entry) (n : ℕ)
    → AllWritable es
    → AllShort es
    → length (text_of (lines_of es)) ≤ n
    → buffers_of n (text_of (lines_of es)) ≡ lines_of es
buffers_of-text_of [] n h k enough = buffers_of-none n
buffers_of-text_of (e ∷ es) zero h k enough = absurd (
    omega (
      arith,
      line_of-nonempty (fields e.mount_point e.fs_type e.device e.device2 e.fs_options e.other),
      length-append (print e) (text_of (lines_of es)),
    ))
buffers_of-text_of (e ∷ es) (suc n) h (short, clean, k) enough =
    let ws = fields e.mount_point e.fs_type e.device e.device2 e.fs_options e.other in
    let some_left = line_of-nonempty ws in
    let size = length-append (print e) (text_of (lines_of es)) in
    buffers_of-line n (print e ++ text_of (lines_of es)) (print e) (text_of (lines_of es))
      (omega (arith, size, some_left))
      (fgets-line_of ws (text_of (lines_of es)) 1022 (fields-AllWords e h.0) short) clean
    ∙ ap (λ z. print e ∷ z) (buffers_of-text_of es n h.1 k (omega (arith, size, some_left)))

-- A table that is written out with one line for each entry, of at most 1022 bytes and without NUL, is
-- read back, behind the entry for /tmp. The words are not empty and have no white space in them, no
-- optional one nor type is NULL, and no mount point starts with #.
pub load_volume_table-lines_of :
    (es : List Entry)
    → AllWritable es
    → AllShort es
    → load_volume_table (some (text_of (lines_of es))) ≡ ramdisk_volume ∷ volumes_of es
unfolding load_volume_table
load_volume_table-lines_of es h short =
    ap (λ lines. ramdisk_volume ∷ from_lines lines)
      (buffers_of-text_of es (length (text_of (lines_of es))) h short (omega arith))
    ∙ ap (λ vs. ramdisk_volume ∷ vs) (from_lines-lines_of es h)
