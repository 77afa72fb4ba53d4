-- ===== src/Mounts/Scan.antt =====
-- scan_mounted_volumes of mounts.c.
use midnight_i9000_recovery.Common.{
  ℕ, zero, suc, ◌==◌, lt→ltb, ◌≤◌, ◌<◌, ◌≡◌, refl, sym, ap, ◌∙◌, Bool, true, List, [], ◌∷◌, ◌++◌,
  length, take, Option, none, some, arith, Bool-cases, inl, inr, append-nil, append_assoc,
  length-append, if◌then◌else◌,
}
use midnight_i9000_recovery.Common.Run
use midnight_i9000_recovery.Common.Run.{Run, ok}
use midnight_i9000_recovery.Common.Text.{Bytes}
use midnight_i9000_recovery.Common.CString.{c_string}
use midnight_i9000_recovery.Mounts.{
  MountedVolume, numv, eat_line, scan_line, scan_text, scan_mounted_volumes,
}

-- The text from each line on; `begins` tells whether a line begins here.
unfoldable pub lines_from : Bool → Bytes → List Bytes
lines_from begins [] = []
lines_from begins (c ∷ cs) =
    let rest = lines_from (c == 10) cs in if begins then (c ∷ cs) ∷ rest else rest

lines_from-eat_line :
    (c : ℕ) (cs : Bytes) → lines_from (c == 10) cs ≡ lines_from true (eat_line (c ∷ cs))
unfolding eat_line lines_from
lines_from-eat_line c [] = elim (Bool-cases (c == 10)) [ inl e ↦ rw e refl | inr e ↦ rw e refl ]
lines_from-eat_line c (d ∷ ds) = elim (Bool-cases (c == 10)) [
  | inl ends ↦ rw ends refl
  | inr more ↦ rw more (lines_from-eat_line d ds)
]

length-eat_line : (c : ℕ) (cs : Bytes) → length (eat_line (c ∷ cs)) ≤ length cs
unfolding eat_line
length-eat_line c [] = ground arith
length-eat_line c (d ∷ ds) = ground (arith, length-eat_line d ds)

module _ (sscanf : Bytes → Option MountedVolume) where
  -- The volumes of the lines in their order.
  abbrev pub in_front : Option MountedVolume → List MountedVolume → List MountedVolume
  in_front none vs = vs
  in_front (some v) vs = v ∷ vs

  abbrev pub volumes_of : List Bytes → List MountedVolume
  volumes_of [] = []
  volumes_of (line ∷ lines) = in_front (sscanf (c_string line)) (volumes_of lines)

  lines_of_text :
      (c : ℕ) (cs : Bytes)
      → volumes_of (lines_from true (c ∷ cs))
        ≡ in_front (sscanf (c_string (c ∷ cs))) (volumes_of (lines_from true (eat_line (c ∷ cs))))
  unfolding lines_from
  lines_of_text c cs =
      ap (λ ls. in_front (sscanf (c_string (c ∷ cs))) (volumes_of ls)) (lines_from-eat_line c cs)

  scan_line-ok :
      (volumes rest : List MountedVolume) (later : List MountedVolume → Run (List MountedVolume))
      (found : Option MountedVolume)
      → length (volumes ++ in_front found rest) ≤ numv
      → ((vs : List MountedVolume) → length (vs ++ rest) ≤ numv → later vs ≡ ok (vs ++ rest))
      → scan_line sscanf later volumes found ≡ ok (volumes ++ in_front found rest)
  scan_line-ok volumes rest later none few ih = ih volumes few
  scan_line-ok volumes rest later (some v) few ih =
      let room : length volumes < numv = omega (arith, length-append volumes (v ∷ rest)) in
      let joined : (volumes ++ (v ∷ [])) ++ rest ≡ volumes ++ (v ∷ rest) =
        append_assoc volumes (v ∷ []) rest in
      rw (lt→ltb (length volumes) numv room)
        (ih (volumes ++ (v ∷ [])) (omega (arith, ap length joined)) ∙ ap ok joined)

  scan_text-ok :
      (fuel : ℕ) (text : Bytes) (volumes : List MountedVolume)
      → length text < fuel
      → length (volumes ++ volumes_of (lines_from true text)) ≤ numv
      → scan_text sscanf fuel text volumes ≡ ok (volumes ++ volumes_of (lines_from true text))
  unfolding scan_text lines_from
  scan_text-ok zero text volumes enough few = absurd (omega arith)
  scan_text-ok (suc fuel) [] volumes enough few = ap ok (sym (append-nil volumes))
  scan_text-ok (suc fuel) (c ∷ cs) volumes enough few =
      let same = lines_of_text c cs in
      scan_line-ok volumes (volumes_of (lines_from true (eat_line (c ∷ cs))))
        (λ volumes'. scan_text sscanf fuel (eat_line (c ∷ cs)) volumes')
        (sscanf (c_string (c ∷ cs))) (omega (arith, ap (λ vs. length (volumes ++ vs)) same))
        (λ vs few'.
          scan_text-ok fuel (eat_line (c ∷ cs)) vs (omega (arith, length-eat_line c cs)) few')
      ∙ ap (λ vs. ok (volumes ++ vs)) (sym same)

  -- scan_mounted_volumes ends without a fault where the first 2047 bytes of the file have at most 32
  -- lines that sscanf() reads, and the table is then that of these lines in their order, whatever
  -- it was before.
  pub scan_mounted_volumes-volumes_of :
      (content : Bytes) (volumes : List MountedVolume)
      → length (volumes_of (lines_from true (take 2047 content))) ≤ numv
      → scan_mounted_volumes sscanf true (some content) volumes
        ≡ ok (true, volumes_of (lines_from true (take 2047 content)))
  unfolding scan_mounted_volumes
  scan_mounted_volumes-volumes_of content volumes few =
      let text = take 2047 content in
      ap (λ r. Run.◌>>=◌ r (λ vs. ok (true, vs)))
        (scan_text-ok (suc (length text)) text [] (omega arith) few)
