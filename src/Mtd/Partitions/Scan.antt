-- ===== src/Mtd/Partitions/Scan.antt =====
-- mtd_scan_partitions of mtdutils/mtdutils.c.
use midnight_i9000_recovery.Common.{
  if◌then◌else◌, ◌==◌, append_assoc, ◌++◌, ℕ, zero, suc, ◌+◌, ◌≤◌, ◌<◌, ◌≡◌, refl, ap, ◌∙◌, Bool,
  true, false, List, [], ◌∷◌, length, take, set, map, Option, none, some, arith, Bool-cases, inl,
  inr, ◌⊎◌, length-replicate, length-set, replicate, lt→ltb,
}
use midnight_i9000_recovery.Common.Int.{ℤ, pos}
use midnight_i9000_recovery.Common.Run.{Run, ok, Returns}
use midnight_i9000_recovery.Common.Text.{Bytes}
use midnight_i9000_recovery.Common.CString.{c_string}
use midnight_i9000_recovery.Mtd.Partitions.{
  Entry, Line, nump, cleared, reset, MtdState, after_line, entry_of, put_line, read_line,
  is_null_name, scan_from, scanned, scan_table, scan_into, mtd_scan_partitions,
}

length-after_line : (text : Bytes) → length (after_line text) ≤ length text
unfolding after_line
length-after_line [] = omega arith
length-after_line (c ∷ cs) = ground (arith, length-after_line cs)

after_line-shorter : (c : ℕ) (cs : Bytes) → length (after_line (c ∷ cs)) ≤ length cs
unfolding after_line
after_line-shorter c cs = ground (arith, length-after_line cs)

-- The line that is eaten.
eaten : Bytes → Bytes
eaten [] = []
eaten (c ∷ cs) = let rest = eaten cs in if c == 10 then c ∷ [] else c ∷ rest

eaten-after_line : (text : Bytes) → eaten text ++ after_line text ≡ text
unfolding eaten after_line
eaten-after_line [] = refl
eaten-after_line (c ∷ cs) = elim (Bool-cases (c == 10)) [
  | inl ends ↦ rw ends refl
  | inr more ↦ rw more (ap (λ z. c ∷ z) (eaten-after_line cs))
]

eat :
    (before text whole : Bytes)
    → before ++ text ≡ whole
    → (before ++ eaten text) ++ after_line text ≡ whole
eat before text whole e =
    append_assoc before (eaten text) (after_line text)
    ∙ ap (λ z. before ++ z) (eaten-after_line text)
    ∙ e

-- What is read of the file.
abbrev pub text_read : Option Bytes → Bytes
text_read none = []
text_read (some content) = take 2047 content

module _ (sscanf : Bytes → Option Line) (strdup : ℕ → Bytes → Option Bytes) where
  -- Somewhere in the text sscanf() reads this line.
  abbrev pub Occurs : Bytes → Line → Type 0
  Occurs whole line =
      (before : Bytes) × (text : Bytes) × (before ++ text ≡ whole)
      × (sscanf (c_string text) ≡ some line)

  -- The entry is not in use, or it is the partition of a line of the text.
  abbrev pub IsRead : Bytes → Entry → Type 0
  IsRead whole e =
      (e.device_index ≡ none)
      ⊎ ((line : Line) × (n : ℕ) × (count : ℕ) × Occurs whole line
          × (line.mtdnum ≡ pos n)
          × (e ≡ entry_of sscanf strdup count line n))

  abbrev pub AllRead : Bytes → List Entry → Type 0
  AllRead whole [] = Unit
  AllRead whole (e ∷ es) = IsRead whole e × AllRead whole es

  AllRead-set :
      (whole : Bytes) (es : List Entry) (i : ℕ) (e : Entry)
      → AllRead whole es
      → IsRead whole e
      → AllRead whole (set es i e)
  AllRead-set whole [] i e all one = tt
  AllRead-set whole (x ∷ es) zero e all one = (one, all.1)
  AllRead-set whole (x ∷ es) (suc i) e all one = (all.0, AllRead-set whole es i e all.1 one)

  AllRead-reset : (whole : Bytes) (es : List Entry) → AllRead whole (map reset es)
  AllRead-reset whole [] = tt
  AllRead-reset whole (e ∷ es) = (inl refl, AllRead-reset whole es)

  length-reset : (es : List Entry) → length (map reset es) ≡ length es
  length-reset [] = refl
  length-reset (e ∷ es) = ap suc (length-reset es)

  -- The numbers of the lines are those of a table of this size.
  abbrev pub Numbered : ℕ → Type 0
  Numbered size =
      (text : Bytes) (line : Line)
      → sscanf text ≡ some line
      → (n : ℕ) × (line.mtdnum ≡ pos n) × (n < size)

  abbrev Table : Bytes → ℕ → Option ℕ × List Entry → Type 0
  Table whole size (count, es) = (length es ≡ size) × AllRead whole es

  scan_from-suc :
      (fuel count c : ℕ) (cs : Bytes) (es : List Entry)
      → scan_from sscanf strdup (suc fuel) count (c ∷ cs) es
        ≡ read_line sscanf strdup
            (λ count' es'. scan_from sscanf strdup fuel count' (after_line (c ∷ cs)) es')
            count
            es
            (sscanf (c_string (c ∷ cs)))
  unfolding scan_from
  scan_from-suc fuel count c cs es = refl

  scan_from-nil :
      (fuel count : ℕ) (es : List Entry)
      → scan_from sscanf strdup (suc fuel) count [] es ≡ ok (some count, es)
  unfolding scan_from
  scan_from-nil fuel count es = refl

  put_line-ok :
      (es : List Entry) (count n : ℕ) (line : Line) (k : ℤ)
      → k ≡ pos n
      → n < length es
      → put_line sscanf strdup es count line k ≡ ok (set es n (entry_of sscanf strdup count line n))
  put_line-ok es count n line k e inside = rw (e, lt→ltb n (length es) inside)

  read_line-Table :
      (whole : Bytes) (size count : ℕ) (es : List Entry) (before text : Bytes)
      (later : ℕ → List Entry → Run (Option ℕ × List Entry))
      → Numbered size
      → length es ≡ size
      → AllRead whole es
      → ((count' : ℕ) (es' : List Entry)
          → length es' ≡ size
          → AllRead whole es'
          → Returns (later count' es') (Table whole size))
      → before ++ text ≡ whole
      → (found : Option Line) → sscanf (c_string text) ≡ found
      → Returns (read_line sscanf strdup later count es found) (Table whole size)
  read_line-Table whole size count es before text later numbered full all ih split none e =
      ih count es full all
  read_line-Table whole size count es before text later numbered full all ih split (some line) e =
      let (n, number, inside) = numbered (c_string text) line e in
      let new = entry_of sscanf strdup count line n in
      let full' : length (set es n new) ≡ size = length-set es n new ∙ full in
      let all' : AllRead whole (set es n new) =
        AllRead-set whole es n new all
          (inr (line, n, count, (before, text, split, e), number, refl)) in
      rw (put_line-ok es count n line line.mtdnum number (omega arith))
        (elim (Bool-cases (is_null_name sscanf strdup count line)) [
          | inl null ↦ rw null ((none, set es n new), refl, (full', all'))
          | inr named ↦ rw named (ih (count + 1) (set es n new) full' all')
        ])

  scan_from-Table :
      (whole : Bytes) (size fuel count : ℕ) (before text : Bytes) (es : List Entry)
      → before ++ text ≡ whole
      → Numbered size
      → length es ≡ size
      → AllRead whole es
      → length text < fuel
      → Returns (scan_from sscanf strdup fuel count text es) (Table whole size)
  scan_from-Table whole size zero count before text es split numbered full all enough =
      absurd (omega arith)
  scan_from-Table whole size (suc fuel) count before [] es split numbered full all enough =
      ((some count, es), scan_from-nil fuel count es, (full, all))
  scan_from-Table whole size (suc fuel) count before (c ∷ cs) es split numbered full all enough =
      rw (scan_from-suc fuel count c cs es) (
        read_line-Table whole size count es before (c ∷ cs)
          (λ count' es'. scan_from sscanf strdup fuel count' (after_line (c ∷ cs)) es') numbered
          full all
          (λ count' es' full' all'.
            scan_from-Table whole size fuel count' (before ++ eaten (c ∷ cs)) (after_line (c ∷ cs))
              es' (eat before (c ∷ cs) whole split) numbered full' all'
              (omega (arith, after_line-shorter c cs)))
          split (sscanf (c_string (c ∷ cs))) refl)

  -- A table of the state, as the scans leave it.
  abbrev pub IsState : MtdState → Type 0
  IsState state = (es : List Entry) → state.partitions ≡ some es → length es ≡ nump

  -- The scan has had no memory for the table, or all of it has been read now.
  abbrev pub StateTable : Option Bytes → Option ℕ × MtdState → Type 0
  StateTable content (count, state) =
      ((state.partitions ≡ none) × (count ≡ none))
      ⊎ ((es : List Entry) × (state.partitions ≡ some es)
          × (length es ≡ nump)
          × AllRead (text_read content) es)

  scan_table-Table :
      (content : Option Bytes) (es : List Entry)
      → Numbered nump
      → length es ≡ nump
      → AllRead (text_read content) es
      → Returns (scan_table sscanf strdup content es) (StateTable content)
  scan_table-Table none es numbered full all =
      (scanned sscanf strdup (none, es), refl, inr (es, refl, full, all))
  scan_table-Table (some content) es numbered full all =
      let text = take 2047 content in
      let (r, e, table) =
        scan_from-Table text nump (suc (length text)) 0 [] text es refl numbered full all
          (omega arith) in
      rw e (scanned sscanf strdup r, refl, inr (r.1, refl, table.0, table.1))

  -- mtd_scan_partitions ends without a fault from any state that it has left before, if sscanf() reads
  -- no number but 0 to 31. It has had no memory for the table and reports this, or the table has 32
  -- entries, of which each is not in use or is the partition of a line that sscanf() reads in the first
  -- 2047 bytes of the file.
  pub mtd_scan_partitions-StateTable :
      (allocated : Bool) (content : Option Bytes) (state : MtdState)
      → Numbered nump
      → IsState state
      → Returns (mtd_scan_partitions sscanf strdup allocated content state) (StateTable content)
  unfolding mtd_scan_partitions
  mtd_scan_partitions-StateTable allocated content state numbered sized =
      of_table allocated state.partitions refl
    where
      of_table :
          (allocated : Bool) (partitions : Option (List Entry))
          → state.partitions ≡ partitions
          → Returns
              (scan_into sscanf strdup allocated content state partitions)
              (StateTable content)
      of_table allocated (some es) e =
          scan_table-Table content (map reset es) numbered (length-reset es ∙ sized es e)
            (AllRead-reset (text_read content) es)
      of_table true none e =
          let new = replicate nump cleared in
          scan_table-Table content (map reset new) numbered
            (length-reset new ∙ length-replicate nump cleared)
            (AllRead-reset (text_read content) new)
      of_table false none e = ((none, state), refl, inl (e, refl))
