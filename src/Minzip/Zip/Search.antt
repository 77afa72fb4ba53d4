-- ===== src/Minzip/Zip/Search.antt =====
-- The binary search of minzip/Zip.c, and the entries in their order.
use midnight_i9000_recovery.Minzip.Zip.{
  ZipEntry, no_entry, name_of, Order, less, equal, greater, compare_names, search_on, search,
  insert_entry,
}
use midnight_i9000_recovery.Minzip.Zip.Names.{
  NotAfter, NotAfter-trans, Compared, compare_names-Compared,
}
use midnight_i9000_recovery.Common.{
  ℕ, zero, suc, ◌+◌, ◌-◌, ◌/◌, ◌≤◌, ◌<◌, ◌≡◌, refl, sym, inl, inr, Bool, true, false, List, [], ◌∷◌,
  ◌++◌, length, take, drop, get_or, ltb, arith, if◌then◌else◌,
}
use midnight_i9000_recovery.Common.Run.{Run, ok, Returns}
use midnight_i9000_recovery.Common.Text.{Bytes}

module _ (content : Bytes) where
  abbrev NameNotAfter : ZipEntry → ZipEntry → Type 0
  NameNotAfter a b = NotAfter (name_of content a) (name_of content b)

  abbrev NoneBefore : ZipEntry → List ZipEntry → Type 0
  NoneBefore entry [] = Unit
  NoneBefore entry (e ∷ es) = NameNotAfter entry e × NoneBefore entry es

  -- The names stand in the order of the dictionary.
  abbrev pub Sorted : List ZipEntry → Type 0
  Sorted [] = Unit
  Sorted (e ∷ es) = NoneBefore e es × Sorted es

  NoneBefore-get :
      (e : ZipEntry) (es : List ZipEntry) (i : ℕ)
      → NoneBefore e es
      → i < length es
      → NameNotAfter e (get_or es i no_entry)
  NoneBefore-get e [] i h inside = absurd (omega arith)
  NoneBefore-get e (x ∷ xs) zero h inside = h.0
  NoneBefore-get e (x ∷ xs) (suc i) h inside = NoneBefore-get e xs i h.1 (omega arith)

  Sorted-get :
      (es : List ZipEntry) (i j : ℕ)
      → Sorted es
      → i ≤ j
      → j < length es
      → NameNotAfter (get_or es i no_entry) (get_or es j no_entry)
  Sorted-get [] i j h order inside = absurd (omega arith)
  Sorted-get (e ∷ es) zero zero h order inside = inr refl
  Sorted-get (e ∷ es) zero (suc j) h order inside = NoneBefore-get e es j h.0 (omega arith)
  Sorted-get (e ∷ es) (suc i) zero h order inside = absurd (omega arith)
  Sorted-get (e ∷ es) (suc i) (suc j) h order inside =
      Sorted-get es i j h.1 (omega arith) (omega arith)

  -- `place` parts the entries into those not behind the name and those not before it.
  abbrev Parts : List ZipEntry → Bytes → ℕ → ℕ → Type 0
  Parts es name low end =
      ((i : ℕ) → i < low → i < length es → NotAfter (name_of content (get_or es i no_entry)) name)
      × ((i : ℕ) → end ≤ i → i < length es → NotAfter name (name_of content (get_or es i no_entry)))

  NoneBefore-all :
      (e : ZipEntry) (es : List ZipEntry)
      → ((i : ℕ) → i < length es → NameNotAfter e (get_or es i no_entry))
      → NoneBefore e es
  NoneBefore-all e [] h = tt
  NoneBefore-all e (x ∷ xs) h =
      (h 0 (omega arith), NoneBefore-all e xs (λ i inside. h (suc i) (omega arith)))

  NoneBefore-insert :
      (x e : ZipEntry) (t : ℕ) (es : List ZipEntry)
      → NameNotAfter x e
      → NoneBefore x es
      → NoneBefore x (take t es ++ (e ∷ drop t es))
  NoneBefore-insert x e zero es h k = (h, k)
  NoneBefore-insert x e (suc t) [] h k = (h, tt)
  NoneBefore-insert x e (suc t) (y ∷ ys) h k = (k.0, NoneBefore-insert x e t ys h k.1)

  insert-Sorted :
      (e : ZipEntry) (t : ℕ) (es : List ZipEntry)
      → Sorted es
      → Parts es (name_of content e) t t
      → Sorted (take t es ++ (e ∷ drop t es))
  insert-Sorted e zero es sorted (below, above) =
      (NoneBefore-all e es (λ i inside. above i (omega arith) inside), sorted)
  insert-Sorted e (suc t) [] sorted parts = (tt, tt)
  insert-Sorted e (suc t) (x ∷ xs) sorted (below, above) = (
    NoneBefore-insert x e t xs (below 0 (omega arith) (omega arith)) sorted.0,
    insert-Sorted e t xs sorted.1 (
      λ i h inside. below (suc i) (omega arith) (omega arith),
      λ i h inside. above (suc i) (omega arith) (omega arith),
    ),
  )

  search-suc :
      (fuel : ℕ) (es : List ZipEntry) (name : Bytes) (low end : ℕ)
      → search content (suc fuel) es name low end ≡ (
          if ltb low end
          then search_on content
              (low + (end - 1 - low) / 2)
              (search content fuel es name low (low + (end - 1 - low) / 2))
              (search content fuel es name (low + (end - 1 - low) / 2 + 1) end)
              (compare_names
                (name_of content (get_or es (low + (end - 1 - low) / 2) no_entry))
                name)
          else ok end)
  unfolding search
  search-suc fuel es name low end = refl

  module _ (es : List ZipEntry) (name : Bytes) (sorted : Sorted es) where
    abbrev Found : ℕ → Type 0
    Found target = Parts es name target target

    -- What is known of the entry in the middle.
    search_on-Found :
        (low end mid : ℕ) (below above : Run ℕ) (order : Order)
        → low ≤ mid
        → mid < end
        → end ≤ length es
        → Parts es name low end
        → Compared (name_of content (get_or es mid no_entry)) name order
        → (Parts es name low mid → Returns below Found)
        → (Parts es name (mid + 1) end → Returns above Found)
        → Returns (search_on content mid below above order) Found
    search_on-Found low end mid below above less h k inside parts c on_below on_above = on_above (
      λ i small here.
          NotAfter-trans (name_of content (get_or es i no_entry))
            (name_of content (get_or es mid no_entry)) name
            (Sorted-get es i mid sorted (omega arith) (omega arith)) (inl c),
      parts.1,
    )
    search_on-Found low end mid below above greater h k inside parts c on_below on_above =
        on_below (
          parts.0,
          λ i big here.
              NotAfter-trans name (name_of content (get_or es mid no_entry))
                (name_of content (get_or es i no_entry)) (inl c)
                (Sorted-get es mid i sorted big here),
        )
    search_on-Found low end mid below above equal h k inside parts c on_below on_above = (
      mid + 1,
      refl,
      (
        λ i small here.
            NotAfter-trans (name_of content (get_or es i no_entry))
              (name_of content (get_or es mid no_entry)) name
              (Sorted-get es i mid sorted (omega arith) (omega arith)) (inr c),
        λ i big here.
            NotAfter-trans name (name_of content (get_or es mid no_entry))
              (name_of content (get_or es i no_entry)) (inr (sym c))
              (Sorted-get es mid i sorted (omega arith) here),
      ),
    )

    search-Found :
        (fuel low end : ℕ)
        → end - low < fuel
        → low ≤ end
        → end ≤ length es
        → Parts es name low end
        → Returns (search content fuel es name low end) Found
    search-Found zero low end enough order inside parts = absurd (omega arith)
    search-Found (suc fuel) low end enough order inside parts =
        rw (search-suc fuel es name low end) (
          of_test (ltb low end) refl
            (λ apart below.
              search-Found fuel low (low + (end - 1 - low) / 2) (omega arith) (omega arith)
                (omega arith) below)
            (λ apart above.
              search-Found fuel (low + (end - 1 - low) / 2 + 1) end (omega arith) (omega arith)
                inside above))
      where
        of_test :
            (b : Bool)
            → ltb low end ≡ b
            → (low < end
                → Parts es name low (low + (end - 1 - low) / 2)
                → Returns (search content fuel es name low (low + (end - 1 - low) / 2)) Found)
            → (low < end
                → Parts es name (low + (end - 1 - low) / 2 + 1) end
                → Returns (search content fuel es name (low + (end - 1 - low) / 2 + 1) end) Found)
            → Returns
                (if b
                  then search_on content
                      (low + (end - 1 - low) / 2)
                      (search content fuel es name low (low + (end - 1 - low) / 2))
                      (search content fuel es name (low + (end - 1 - low) / 2 + 1) end)
                      (compare_names
                        (name_of content (get_or es (low + (end - 1 - low) / 2) no_entry))
                        name)
                  else ok end)
                Found
        of_test true e on_below on_above =
            let apart : low < end = ground arith in
            search_on-Found low end (low + (end - 1 - low) / 2)
              (search content fuel es name low (low + (end - 1 - low) / 2))
              (search content fuel es name (low + (end - 1 - low) / 2 + 1) end)
              (compare_names (name_of content (get_or es (low + (end - 1 - low) / 2) no_entry))
                name)
              (omega arith) (omega arith) inside parts
              (compare_names-Compared
                (name_of content (get_or es (low + (end - 1 - low) / 2) no_entry)) name)
              (on_below apart) (on_above apart)
        of_test false e on_below on_above =
            let same : low ≡ end = ground arith in (end, refl, (rw (sym same) parts.0, parts.1))

  -- A new entry is put where it keeps the order.
  pub insert_entry-Sorted :
      (entry : ZipEntry) (es : List ZipEntry)
      → Sorted es
      → Returns
          (insert_entry content entry es)
          (λ es'. Sorted es' × ((t : ℕ) × (es' ≡ take t es ++ (entry ∷ drop t es))))
  unfolding insert_entry
  insert_entry-Sorted entry es sorted =
      let (t, e, parts) =
        search-Found es (name_of content entry) sorted (suc (length es)) 0 (length es) (omega arith)
          (omega arith) (omega arith)
          (λ i small inside. absurd (omega arith), λ i big inside. absurd (omega arith)) in
      rw e
        (take t es ++ (entry ∷ drop t es), refl, (insert-Sorted entry t es sorted parts, (t, refl)))
