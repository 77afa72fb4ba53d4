-- ===== src/Applypatch/SinkRule.antt =====
-- A rule for FileSink of applypatch/applypatch.c, for any property of what is written so far.
use midnight_i9000_recovery.Common.{
  take-drop, ℕ, zero, suc, ◌+◌, ◌≤◌, ◌<◌, ◌≡◌, refl, sym, ap, ◌∙◌, ◌⊎◌, inl, inr, [], ◌∷◌, ◌++◌,
  length, take, drop, Option, none, some, arith, append-nil, append_assoc, length-drop,
}
use midnight_i9000_recovery.Applypatch.{after_write, file_sink_from, file_sink}
use midnight_i9000_recovery.Applypatch.Sink.{file_sink_from-step, file_sink_from-nil}
use midnight_i9000_recovery.Common.Run.{Run, Returns}
use midnight_i9000_recovery.Common.Text.{Bytes}
use mathlib.Core.Path.{subst}

module _ {F : Type 0} (write : Bytes → F → Option ℕ × F) (P : Bytes → F → Type 0)
    (Q : F → Type 0) where
  -- After write() with some bytes, where `sunk` were written before.
  abbrev pub AfterWrite : Bytes → Bytes → Option ℕ × F → Type 0
  AfterWrite sunk bytes (none, fd) = Q fd
  AfterWrite sunk bytes (some n, fd) = (n ≤ length bytes) × P (sunk ++ take n bytes) fd

  -- All the bytes are written, or not all.
  abbrev pub Ended : Bytes → Bytes → ℕ → ℕ × F → Type 0
  Ended sunk bytes done (r, fd) =
      ((r ≡ done + length bytes) × P (sunk ++ bytes) fd) ⊎ ((r < done + length bytes) × Q fd)

  module _ (kept : (sunk : Bytes) (fd : F) → P sunk fd → Q fd)
      (law : (sunk bytes : Bytes) (fd : F)
        → P sunk fd
        → AfterWrite sunk bytes (write bytes fd)) where
    Ended-drop :
        (sunk bytes : Bytes) (done n : ℕ) (r : ℕ × F)
        → n ≤ length bytes
        → Ended (sunk ++ take n bytes) (drop n bytes) (done + n) r
        → Ended sunk bytes done r
    Ended-drop sunk bytes done n (r, fd) room (inl (e, p)) = inl (
      omega (arith, length-drop n bytes),
      subst (λ z. P z fd)
          (append_assoc sunk (take n bytes) (drop n bytes)
            ∙ ap (λ z. sunk ++ z) (take-drop n bytes))
          p,
    )
    Ended-drop sunk bytes done n (r, fd) room (inr (e, q)) =
        inr (omega (arith, length-drop n bytes), q)

    after_write-Ended :
        (sunk : Bytes) (done b : ℕ) (bs : Bytes) (later : ℕ → F → Run (ℕ × F))
        → ((n : ℕ) (fd : F)
            → 0 < n
            → P (sunk ++ take n (b ∷ bs)) fd
            → Returns (later n fd) (Ended (sunk ++ take n (b ∷ bs)) (drop n (b ∷ bs)) (done + n)))
        → (r : Option ℕ × F) → AfterWrite sunk (b ∷ bs) r
        → Returns (after_write write later done r) (Ended sunk (b ∷ bs) done)
    after_write-Ended sunk done b bs later ih (none, fd) q =
        ((done, fd), refl, inr (omega arith, q))
    after_write-Ended sunk done b bs later ih (some zero, fd) (room, p) =
        ((done, fd), refl, inr (omega arith, kept (sunk ++ []) fd p))
    after_write-Ended sunk done b bs later ih (some (suc n), fd) (room, p) =
        let (r, ran, ended) = ih (suc n) fd (omega arith) p in
        (r, ran, Ended-drop sunk (b ∷ bs) done (suc n) r room ended)

    file_sink_from-Ended :
        (fuel done : ℕ) (sunk bytes : Bytes) (fd : F)
        → length bytes < fuel
        → P sunk fd
        → Returns (file_sink_from write fuel done bytes fd) (Ended sunk bytes done)
    file_sink_from-Ended zero done sunk bytes fd enough p = absurd (omega arith)
    file_sink_from-Ended (suc fuel) done sunk [] fd enough p = (
      (done, fd),
      file_sink_from-nil write fuel done fd,
      inl (omega arith, subst (λ z. P z fd) (sym (append-nil sunk)) p),
    )
    file_sink_from-Ended (suc fuel) done sunk (b ∷ bs) fd enough p =
        rw (file_sink_from-step write fuel done b bs fd) (
          after_write-Ended sunk done b bs
            (λ wrote fd'. file_sink_from write fuel (done + wrote) (drop wrote (b ∷ bs)) fd')
            (λ n fd' some_bytes p'.
              file_sink_from-Ended fuel (done + n) (sunk ++ take n (b ∷ bs)) (drop n (b ∷ bs)) fd'
                (omega (arith, length-drop n (b ∷ bs))) p')
            (write (b ∷ bs) fd) (law sunk (b ∷ bs) fd p))

    -- FileSink ends with all of the bytes written, and `P` of all that is written, or with fewer.
    pub file_sink-Ended :
        (sunk bytes : Bytes) (fd : F)
        → P sunk fd
        → Returns (file_sink write bytes fd) (Ended sunk bytes 0)
    unfolding file_sink
    file_sink-Ended sunk bytes fd p =
        file_sink_from-Ended (suc (length bytes)) 0 sunk bytes fd (omega arith) p
