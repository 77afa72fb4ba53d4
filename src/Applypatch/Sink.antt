-- ===== src/Applypatch/Sink.antt =====
-- FileSink of applypatch/applypatch.c.
use midnight_i9000_recovery.Common.{
  ℕ, zero, suc, ◌+◌, ◌≤◌, ◌<◌, ◌≡◌, refl, sym, ap, ◌∙◌, [], ◌∷◌, ◌++◌, length, take, drop, Option,
  none, some, arith, append-nil, append_assoc, length-drop, take-add,
}
use midnight_i9000_recovery.Common.Run.{Run, ok, Returns}
use midnight_i9000_recovery.Common.Text.{Bytes}
use midnight_i9000_recovery.Applypatch.{after_write, file_sink_from, file_sink}

-- `content` is what the file holds: write() puts the first of the bytes behind it, as many as it
-- returns, or none if it fails.
pub record IsWrite {F : Type 0} (write : Bytes → F → Option ℕ × F) : Type 0 where
  pub content : F → Bytes
  pub write-some :
      (bytes : Bytes) (fd fd' : F) (n : ℕ)
      → write bytes fd ≡ (some n, fd')
      → (n ≤ length bytes) × (content fd' ≡ content fd ++ take n bytes)
  pub write-none :
      (bytes : Bytes) (fd fd' : F) → write bytes fd ≡ (none, fd') → content fd' ≡ content fd

module _ {F : Type 0} (write : Bytes → F → Option ℕ × F) where
  pub file_sink_from-step :
      (fuel done b : ℕ) (bs : Bytes) (fd : F)
      → file_sink_from write (suc fuel) done (b ∷ bs) fd
        ≡ after_write write
            (λ wrote fd'. file_sink_from write fuel (done + wrote) (drop wrote (b ∷ bs)) fd')
            done
            (write (b ∷ bs) fd)
  unfolding file_sink_from
  file_sink_from-step fuel done b bs fd = refl

  pub file_sink_from-nil :
      (fuel done : ℕ) (fd : F) → file_sink_from write (suc fuel) done [] fd ≡ ok (done, fd)
  unfolding file_sink_from
  file_sink_from-nil fuel done fd = refl

module _ {F : Type 0} (write : Bytes → F → Option ℕ × F) (lawful : IsWrite write) where
  -- The first `k` of the bytes are written, and counted behind `done`.
  abbrev Wrote : ℕ → Bytes → F → ℕ × F → Type 0
  Wrote done bytes fd (r, fd') =
      (k : ℕ) × (r ≡ done + k)
      × (k ≤ length bytes)
      × (lawful.content fd' ≡ lawful.content fd ++ take k bytes)

  nothing :
      (done : ℕ) (bytes : Bytes) (fd fd' : F)
      → lawful.content fd' ≡ lawful.content fd
      → Wrote done bytes fd (done, fd')
  nothing done bytes fd fd' e =
      (0, omega arith, omega arith, e ∙ sym (append-nil (lawful.content fd)))

  after_write-Wrote :
      (done : ℕ) (bytes : Bytes) (fd : F) (later : ℕ → F → Run (ℕ × F))
      → ((n : ℕ) (fd' : F) → 0 < n → Returns (later n fd') (Wrote (done + n) (drop n bytes) fd'))
      → (r : Option ℕ × F) → write bytes fd ≡ r
      → Returns (after_write write later done r) (Wrote done bytes fd)
  after_write-Wrote done bytes fd later ih (none, fd') e =
      ((done, fd'), refl, nothing done bytes fd fd' (lawful.write-none bytes fd fd' e))
  after_write-Wrote done bytes fd later ih (some zero, fd') e =
      let (room, now) = lawful.write-some bytes fd fd' 0 e in
      ((done, fd'), refl, nothing done bytes fd fd' (now ∙ append-nil (lawful.content fd)))
  after_write-Wrote done bytes fd later ih (some (suc n), fd') e =
      let (room, now) = lawful.write-some bytes fd fd' (suc n) e in
      let (r, ran, (k, count, inside, after)) = ih (suc n) fd' (omega arith) in
      (
        r,
        ran,
        (
          suc n + k,
          omega arith,
          omega (arith, length-drop (suc n) bytes),
          after
              ∙ ap (λ z. z ++ take k (drop (suc n) bytes)) now
              ∙ append_assoc (lawful.content fd) (take (suc n) bytes) (take k (drop (suc n) bytes))
              ∙ ap (λ z. lawful.content fd ++ z) (sym (take-add (suc n) k bytes)),
        ),
      )

  file_sink_from-Wrote :
      (fuel done : ℕ) (bytes : Bytes) (fd : F)
      → length bytes < fuel
      → Returns (file_sink_from write fuel done bytes fd) (Wrote done bytes fd)
  file_sink_from-Wrote zero done bytes fd enough = absurd (omega arith)
  file_sink_from-Wrote (suc fuel) done [] fd enough =
      ((done, fd), file_sink_from-nil write fuel done fd, nothing done [] fd fd refl)
  file_sink_from-Wrote (suc fuel) done (b ∷ bs) fd enough =
      rw (file_sink_from-step write fuel done b bs fd) (
        after_write-Wrote done (b ∷ bs) fd
          (λ wrote fd'. file_sink_from write fuel (done + wrote) (drop wrote (b ∷ bs)) fd')
          (λ n fd' some_bytes.
            file_sink_from-Wrote fuel (done + n) (drop n (b ∷ bs)) fd'
              (omega (arith, length-drop n (b ∷ bs))))
          (write (b ∷ bs) fd) refl)

  -- What FileSink returns is the number of bytes that the file has got, and these are the first of the
  -- bytes it was to write.
  abbrev pub Sunk : Bytes → F → ℕ × F → Type 0
  Sunk bytes fd (done, fd') =
      (done ≤ length bytes) × (lawful.content fd' ≡ lawful.content fd ++ take done bytes)

  -- FileSink ends, also where write() writes less than it is given, and returns the number of bytes
  -- that it has put behind the content of the file, which are the first of those it is to write.
  pub file_sink-Sunk : (bytes : Bytes) (fd : F) → Returns (file_sink write bytes fd) (Sunk bytes fd)
  unfolding file_sink
  file_sink-Sunk bytes fd =
      let (r, e, (k, count, inside, now)) =
        file_sink_from-Wrote (suc (length bytes)) 0 bytes fd (omega arith) in
      let same : r.0 ≡ k = omega arith in
      (r, e, (omega arith, now ∙ ap (λ n. lawful.content fd ++ take n bytes) (sym same)))
