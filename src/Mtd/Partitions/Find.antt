-- ===== src/Mtd/Partitions/Find.antt =====
-- What mtd_find_partition_by_name of mtdutils/mtdutils.c finds after mtd_scan_partitions.
use midnight_i9000_recovery.Common.{
  ℕ, ◌≡◌, refl, sym, ap, ◌∙◌, Bool, true, false, List, [], ◌∷◌, Option, none, some, arith,
  Bool-cases, inl, inr,
}
use mathlib.Core.Path.{subst}
use midnight_i9000_recovery.Common.Int.{pos}
use midnight_i9000_recovery.Common.Run.{ok}
use midnight_i9000_recovery.Common.Text.{Bytes, bytes_eq, bytes_eq→≡}
use midnight_i9000_recovery.Mtd.Partitions.{
  Entry, Line, nump, MtdState, mtd_scan_partitions, has_name, find_name, mtd_find_partition_by_name,
}
use midnight_i9000_recovery.Mtd.Partitions.Scan.{
  IsRead, AllRead, StateTable, mtd_scan_partitions-StateTable, Numbered, IsState, Occurs, text_read,
}

some-injective : {A : Type 0} (a b : A) → some a ≡ some b → a ≡ b
some-injective a b h = cc

module _ (sscanf : Bytes → Option Line) (strdup : ℕ → Bytes → Option Bytes) where
  find_name-AllRead :
      (whole : Bytes) (es : List Entry) (wanted : Bytes) (e : Entry)
      → AllRead sscanf strdup whole es
      → find_name es wanted ≡ some e
      → IsRead sscanf strdup whole e × (has_name wanted e ≡ true)
  unfolding find_name
  find_name-AllRead whole [] wanted e all h = absurd (cc)
  find_name-AllRead whole (x ∷ es) wanted e all h = elim (Bool-cases (has_name wanted x)) [
    | inl this ↦
        let same : x ≡ e = some-injective x e (rw this at h) in
        (
          subst (IsRead sscanf strdup whole) same all.0,
          subst (λ z. has_name wanted z ≡ true) same this,
        )
    | inr other ↦ find_name-AllRead whole es wanted e all.1 (rw other at h)
  ]

  name_of :
      (wanted : Bytes) (e : Entry)
      → has_name wanted e ≡ true
      → (b : Bytes) × (e.name ≡ some b) × (bytes_eq b wanted ≡ true)
  name_of wanted e h = of_fields e.device_index e.name h
    where
      of_fields :
          (index : Option ℕ) (name : Option Bytes)
          → elim index [
            | none ↦ false
            | some n ↦ elim name [ none ↦ false | some b ↦ bytes_eq b wanted ]
          ]
            ≡ true
          → (b : Bytes) × (name ≡ some b) × (bytes_eq b wanted ≡ true)
      of_fields none name h = absurd (cc)
      of_fields (some n) none h = absurd (cc)
      of_fields (some n) (some b) h = (b, refl, h)

  -- With a name: a partition in use, that is one of a line, has this name.
  found_line :
      (whole wanted : Bytes) (e : Entry)
      → ((count : ℕ) (b c : Bytes) → strdup count b ≡ some c → c ≡ b)
      → IsRead sscanf strdup whole e
      → has_name wanted e ≡ true
      → (line : Line) × (n : ℕ) × Occurs sscanf strdup whole line
        × (line.mtdname ≡ wanted)
        × (line.mtdnum ≡ pos n)
        × (e.device_index ≡ some n)
        × (e.partition ≡ record { size = line.mtdsize; erase_size = line.mtderasesize })
  found_line whole wanted e copies (inl unused) h = absurd (ground (arith, unused, h))
  found_line whole wanted e copies (inr (line, n, count, read, number, same)) h =
      let (b, named, equal) = name_of wanted e h in
      let copied : strdup count line.mtdname ≡ some b = sym (ap Entry.name same) ∙ named in
      let b_is : b ≡ wanted = bytes_eq→≡ b wanted equal in
      (
        line,
        n,
        read,
        sym (copies count line.mtdname b copied) ∙ b_is,
        number,
        ap Entry.device_index same,
        ap Entry.partition same,
      )

  found_of_state :
      (content : Option Bytes) (r : Option ℕ × MtdState) (wanted : Bytes) (e : Entry)
      → StateTable sscanf strdup content r
      → mtd_find_partition_by_name r.1 wanted ≡ some e
      → IsRead sscanf strdup (text_read content) e × (has_name wanted e ≡ true)
  unfolding mtd_find_partition_by_name
  found_of_state content r wanted e (inl (nothing, no_count)) h =
      absurd (ground (arith, nothing, h))
  found_of_state content r wanted e (inr (es, there, full, all)) h =
      find_name-AllRead (text_read content) es wanted e all (rw there at h)

  -- What mtd_find_partition_by_name finds after a scan is the partition of a line in the text of this scan: it
  -- has the number, the sizes and the name of the line, and the name is the one asked for. sscanf()
  -- reads no number but 0 to 31, and strdup() copies.
  pub mtd_find_partition_by_name-Line :
      (allocated : Bool) (content : Option Bytes) (state : MtdState) (r : Option ℕ × MtdState)
      (wanted : Bytes) (e : Entry)
      → Numbered sscanf strdup nump
      → ((count : ℕ) (b c : Bytes) → strdup count b ≡ some c → c ≡ b)
      → IsState sscanf strdup state
      → mtd_scan_partitions sscanf strdup allocated content state ≡ ok r
      → mtd_find_partition_by_name r.1 wanted ≡ some e
      → (line : Line) × (n : ℕ) × Occurs sscanf strdup (text_read content) line
        × (line.mtdname ≡ wanted)
        × (line.mtdnum ≡ pos n)
        × (e.device_index ≡ some n)
        × (e.partition ≡ record { size = line.mtdsize; erase_size = line.mtderasesize })
  mtd_find_partition_by_name-Line allocated content state r wanted e numbered copies sized h found =
      let (r', e', table) =
        mtd_scan_partitions-StateTable sscanf strdup allocated content state numbered sized in
      let same : r' ≡ r = cc in
      let (read, named) =
        found_of_state content r wanted e (subst (StateTable sscanf strdup content) same table)
          found in
      found_line (text_read content) wanted e copies read named
