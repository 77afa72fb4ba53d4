-- ===== src/Minzip/Zip/Whole.antt =====
-- mzOpenZipArchive of minzip/Zip.c as a whole: the entries of an archive that is not refused.
use midnight_i9000_recovery.Minzip.Zip.Reading.{
  Near, Fine, require-Fine, then_some-Fine, get2_le-Fine, get4_le-Fine, find_eocd-Fine, Inside,
  parse_entry-Inside,
}
use midnight_i9000_recovery.Minzip.Zip.{
  ZipEntry, SafeAdd, get4_le, find_eocd, insert_entry, parse_entry, parse_entries, parse_directory,
  mz_open_zip_archive, endsig, locsig,
}
use midnight_i9000_recovery.Minzip.Zip.Search.{Sorted, insert_entry-Sorted}
use midnight_i9000_recovery.Common.{
  ℕ, zero, suc, ◌+◌, ◌-◌, ◌^◌, ◌==◌, ◌≤◌, ◌<◌, ◌≡◌, ltb, leb, not, ◌&&◌, ◌||◌, Bool, true, List, [],
  ◌∷◌, ◌++◌, length, take, drop, Option, none, some, arith,
}
use midnight_i9000_recovery.Common.Run.{Run, ok, fault, ◌>>=◌}
use midnight_i9000_recovery.Common.Text.{Bytes}

abbrev pub AllInside : ℕ → List ZipEntry → Type 0
AllInside size [] = Unit
AllInside size (e ∷ es) = Inside size e × AllInside size es

insert-AllInside :
    (size t : ℕ) (e : ZipEntry) (es : List ZipEntry)
    → Inside size e
    → AllInside size es
    → AllInside size (take t es ++ (e ∷ drop t es))
insert-AllInside size zero e es h k = (h, k)
insert-AllInside size (suc t) e [] h k = (h, tt)
insert-AllInside size (suc t) e (x ∷ xs) h k = (k.0, insert-AllInside size t e xs h k.1)

Fine-map :
    {A : Type 0} (P Q : A → Type 0) (run : Run (Option A))
    → ((a : A) → P a → Q a)
    → Fine P run
    → Fine Q run
Fine-map P Q (fault cause) f h = h
Fine-map P Q (ok none) f h = tt
Fine-map P Q (ok (some a)) f h = f a h

module _ (safe_add : SafeAdd) (law : (a b : ℕ) → safe_add.of_pointers a b ≡ true → a + b < 2 ^ 32)
    (addr : ℕ) (content : Bytes) (mapped : addr + length content + 2 ^ 18 < 2 ^ 32)
    (small : length content < 2 ^ 30)
    (no_wrap : (i v : ℕ)
      → get4_le content i ≡ ok v
      → addr + v < 2 ^ 32
      → addr + v + 30 < 2 ^ 32) where
  abbrev Good : List ZipEntry → Type 0
  Good es = Sorted content es × AllInside (length content) es

  inserted-Good :
      (entry : ZipEntry) (es : List ZipEntry) (next : List ZipEntry → Run (Option (List ZipEntry)))
      → Inside (length content) entry
      → Good es
      → ((es' : List ZipEntry) → Good es' → Fine Good (next es'))
      → Fine Good (insert_entry content entry es >>= next)
  inserted-Good entry es next inside (sorted, all) ih =
      let (es', e, (sorted', (t, same))) = insert_entry-Sorted content entry es sorted in
      rw e (ih es' (sorted', rw same (insert-AllInside (length content) t entry es inside all)))

  parse_entries-Good :
      (n ptr : ℕ) (es : List ZipEntry)
      → Near safe_add law addr content mapped small no_wrap ptr
      → Good es
      → Fine Good (parse_entries safe_add addr content n ptr es)
  unfolding parse_entries
  parse_entries-Good zero ptr es near good = good
  parse_entries-Good (suc n) ptr es near good =
      then_some-Fine
        (λ r. Inside (length content) r.0 × Near safe_add law addr content mapped small no_wrap r.1)
        Good (parse_entry safe_add addr content ptr) _
        (parse_entry-Inside safe_add law addr content mapped small no_wrap ptr near)
        (λ r (inside, next).
          inserted-Good r.0 es (parse_entries safe_add addr content n r.1) inside good
            (λ es'. parse_entries-Good n r.1 es' next))

  parse_directory-Good :
      (allocated : Bool) (eocd : ℕ)
      → eocd + 22 ≤ length content
      → Fine Good (parse_directory safe_add addr content allocated eocd)
  parse_directory-Good allocated eocd inside =
      get2_le-Fine content Good (eocd + 8) _ (omega arith) λ num_entries a.
        get4_le-Fine content Good (eocd + 16) _ (omega arith) λ cd_offset is_offset b.
          require-Fine Good (not ((num_entries == 0) || leb (length content) cd_offset)) _ λ valid.
            require-Fine Good allocated _
              λ has_memory. parse_entries-Good num_entries cd_offset [] (ground arith) (tt, tt)

  open-Good : (allocated : Bool) → Fine Good (mz_open_zip_archive safe_add addr content allocated)
  unfolding mz_open_zip_archive
  open-Good allocated = require-Fine Good (not (ltb (length content) 22)) _ λ big.
      let enough : 22 ≤ length content = ground arith in
      get4_le-Fine content Good 0 _ (omega arith) λ val is_val v.
        require-Fine Good (not (val == endsig) && (val == locsig)) _ λ is_zip.
          then_some-Fine (λ i. i + 22 ≤ length content) Good
            (find_eocd content (length content - 22 + 1)) _
            (find_eocd-Fine content (length content - 22 + 1) (omega arith))
            (parse_directory-Good allocated)

  -- mzOpenZipArchive never reads outside of the map and ends, and if it does not refuse the archive,
  -- the name of each entry lies in the map, and so does its data, unless their number is negative as a
  -- `long`. The map has less than 2 ^ 30 bytes and ends more than 2 ^ 18 bytes before the end of an
  -- address space of 32 bits, safe_add() on pointers is right, and no four bytes of the map, read as a distance from its start, lead to the last 30
  -- bytes of the address space.
  pub mz_open_zip_archive-AllInside :
      (allocated : Bool)
      → Fine (AllInside (length content)) (mz_open_zip_archive safe_add addr content allocated)
  mz_open_zip_archive-AllInside allocated =
      Fine-map Good (AllInside (length content))
        (mz_open_zip_archive safe_add addr content allocated) (λ es good. good.1)
        (open-Good allocated)

  -- If mzOpenZipArchive does not refuse the archive, the names of the entries stand in the order of
  -- the dictionary, whatever their order in the file; under the same conditions.
  pub mz_open_zip_archive-Sorted :
      (allocated : Bool)
      → Fine (Sorted content) (mz_open_zip_archive safe_add addr content allocated)
  mz_open_zip_archive-Sorted allocated =
      Fine-map Good (Sorted content) (mz_open_zip_archive safe_add addr content allocated)
        (λ es good. good.0) (open-Good allocated)
