-- ===== src/Applypatch/Saving.antt =====
-- Writing a new file while another one keeps its contents: the sink and SaveFileContents of
-- applypatch/applypatch.c.
use midnight_i9000_recovery.Common.{
  ◌<◌, ℕ, ◌==◌, ◌≡◌, ◌≢◌, refl, inl, inr, Bool, true, false, [], ◌++◌, length, Option, none, some,
  arith, if◌then◌else◌,
}
use midnight_i9000_recovery.Applypatch.Rules.{
  Post-map, Kept, Kept-map, Safe, Post, stepped-Safe, perform-Post, fail-Post, bind-Post,
  demand-Post,
}
use midnight_i9000_recovery.Applypatch.Disk.{
  Stepped, FileSystem, World, perform, stepped, demand, write_to, sink_file, set_attributes,
  save_to, save_file_contents,
}
use midnight_i9000_recovery.Common.Prog.{fail}
use midnight_i9000_recovery.Applypatch.{FileContents, Stat, is_partition}
use midnight_i9000_recovery.Applypatch.SinkRule.{AfterWrite, Ended, file_sink-Ended}
use midnight_i9000_recovery.Applypatch.Laws.{IsFileSystem, HasDigest}
use midnight_i9000_recovery.Common.Run.{Returns}
use midnight_i9000_recovery.Common.Text.{Bytes}

-- `other` is the file that keeps its contents, `name` the one that is written.
module _ {S : Type 0} (fs : FileSystem S) (lawful : IsFileSystem fs) (R : S → Type 0)
    (other digest : Bytes) (safe_of : (s : S) → HasDigest fs other digest s → R s) where
  pub Kept-R : {A : Type 0} (st : Stepped S A) → Kept (HasDigest fs other digest) st → Kept R st
  Kept-R st kept = Kept-map (HasDigest fs other digest) R safe_of st kept

  module _ (name : Bytes) (apart : name ≢ other) (fd : ℕ) where
    -- While `name` is written.
    abbrev pub Writing : Bytes → S → Type 0
    Writing content s = lawful.Opened fd name content s × HasDigest fs other digest s

    abbrev Sinking : Bytes → World S → Type 0
    Sinking content w = Writing content w.now × Safe R w

    -- Where some bytes may be missing.
    abbrev pub Open : S → Type 0
    Open s = (content : Bytes) × lawful.Opened fd name content s

    abbrev Stopped : World S → Type 0
    Stopped w = (Open w.now × HasDigest fs other digest w.now) × Safe R w

    write_to-AfterWrite :
        (sunk bytes : Bytes) (w : World S)
        → Sinking sunk w
        → AfterWrite (write_to fs fd) Sinking Stopped sunk bytes (write_to fs fd bytes w)
    write_to-AfterWrite sunk bytes w ((writing, has), safe) =
        of_result (fs.write fd bytes w.now).result refl
      where
        kept : Kept (HasDigest fs other digest) (fs.write fd bytes w.now)
        kept = lawful.write_keeps fd name sunk bytes other digest w.now writing apart has

        after_safe : Safe R (stepped (fs.write fd bytes w.now) w)
        after_safe =
            stepped-Safe R (fs.write fd bytes w.now) w safe (Kept-R (fs.write fd bytes w.now) kept)

        of_result :
            (r : Option ℕ)
            → (fs.write fd bytes w.now).result ≡ r
            → AfterWrite
                (write_to fs fd)
                Sinking
                Stopped
                sunk
                bytes
                (r, stepped (fs.write fd bytes w.now) w)
        of_result none e =
            ((lawful.still_open fd name sunk bytes w.now writing, kept.1), after_safe)
        of_result (some n) e =
            let (room, now) = lawful.written fd name sunk bytes w.now n writing e in
            (room, ((now, kept.1), after_safe))

    -- FileSink succeeds only where all is written, and `other` is kept.
    abbrev pub SunkTo : Bytes → Bytes → Bool → S → Type 0
    SunkTo content bytes all s =
        HasDigest fs other digest s
        × Open s
        × (all ≡ true → lawful.Opened fd name (content ++ bytes) s)
        × (all ≡ false → 0 < length bytes)

    pub sink_file-Post :
        (content bytes : Bytes) (w : World S)
        → Safe R w
        → Writing content w.now
        → Returns (sink_file fs fd bytes w) (Post R (SunkTo content bytes))
    unfolding sink_file
    sink_file-Post content bytes w safe writing =
        let ((done, w'), e, ended) =
          file_sink-Ended (write_to fs fd) Sinking Stopped
            (λ sunk w' h. (((sunk, h.0.0), h.0.1), h.1)) write_to-AfterWrite content bytes w
            (writing, safe) in
        rw e ((some (done == length bytes), w'), refl, of_end done w' ended)
      where
        of_end :
            (done : ℕ) (w' : World S)
            → Ended (write_to fs fd) Sinking Stopped content bytes 0 (done, w')
            → SunkTo content bytes (done == length bytes) w'.now × Safe R w'
        of_end done w' (inl (e, ((now, has), safe'))) =
            ((has, (content ++ bytes, now), λ all. now, λ part. absurd (ground arith)), safe')
        of_end done w' (inr (e, ((still, has), safe'))) =
            ((has, still, λ all. absurd (ground arith), λ part. omega arith), safe')

    pub set_attributes-Post :
        (content : Bytes) (st : Stat) (w : World S)
        → Safe R w
        → Writing content w.now
        → Returns (set_attributes fs name st w) (Post R (λ _. Writing content))
    set_attributes-Post content st w safe (writing, has) =
        bind-Post R (λ _. Writing content) (λ _. Writing content) (demand (fs.chmod name st.mode))
          (λ _. demand (fs.chown name st.uid st.gid)) w
          (let kept = lawful.chmod_keeps name other digest st.mode w.now has in
            demand-Post R (Writing content) (fs.chmod name st.mode) w safe
              (Kept-R (fs.chmod name st.mode w.now) kept)
              (λ _. (lawful.chmod_opened fd name content st.mode w.now writing, kept.1)))
          (λ _ w' (writing', has') safe'.
            let kept = lawful.chown_keeps name other digest st.uid st.gid w'.now has' in
            demand-Post R (Writing content) (fs.chown name st.uid st.gid) w' safe'
              (Kept-R (fs.chown name st.uid st.gid w'.now) kept)
              (λ _. (lawful.chown_opened fd name content st.uid st.gid w'.now writing', kept.1)))

  -- A new file is opened while `other` keeps its contents.
  pub open_trunc-Post :
      (name : Bytes) (w : World S)
      → name ≢ other
      → Safe R w
      → HasDigest fs other digest w.now
      → Returns (perform (fs.open_trunc name) w) (
          Post R (λ r s.
            HasDigest fs other digest s × ((fd : ℕ) → r ≡ some fd → lawful.Opened fd name [] s)))
  open_trunc-Post name w apart safe has =
      let kept = lawful.open_keeps name other digest w.now apart has in
      perform-Post R
        (λ r s. HasDigest fs other digest s × ((fd : ℕ) → r ≡ some fd → lawful.Opened fd name [] s))
        (fs.open_trunc name) w safe (Kept-R (fs.open_trunc name w.now) kept)
        (kept.1, lawful.opened name w.now)

  module _ (name : Bytes) (file : FileContents) (apart : name ≢ other) where
    abbrev Saved : Unit {0} → S → Type 0
    Saved _ s = HasDigest fs name (fs.sha file.content) s

    attributes-Saved :
        (fd : ℕ) (all : Bool) (w : World S)
        → is_partition name ≡ false
        → HasDigest fs other digest w.now
          × (all ≡ true → lawful.Opened fd name ([] ++ file.content) w.now)
        → Safe R w
        → Returns ((if all then set_attributes fs name file.st else fail) w) (Post R Saved)
    attributes-Saved fd true w a_file (has, writing) safe =
        Post-map R (λ _. Writing name apart fd file.content) Saved
          (set_attributes fs name file.st w)
          (λ _ s h. lawful.read_opened fd name file.content s a_file h.0)
          (set_attributes-Post name apart fd file.content file.st w safe (writing refl, has))
    attributes-Saved fd false w a_file h safe = fail-Post R Saved w safe

    save_to-Saved :
        (fd : Option ℕ) (w : World S)
        → is_partition name ≡ false
        → HasDigest fs other digest w.now × ((n : ℕ) → fd ≡ some n → lawful.Opened n name [] w.now)
        → Safe R w
        → Returns (save_to fs name file fd w) (Post R Saved)
    save_to-Saved none w a_file h safe = fail-Post R Saved w safe
    save_to-Saved (some fd) w a_file (has, now) safe =
        bind-Post R (SunkTo name apart fd [] file.content) Saved (sink_file fs fd file.content)
          (λ all. if all then set_attributes fs name file.st else fail) w
          (sink_file-Post name apart fd [] file.content w safe (now fd refl, has))
          (λ all w' h. attributes-Saved fd all w' a_file (h.0, h.2))

    -- Where SaveFileContents succeeds, the file can be loaded with the digest of what it was to
    -- hold.
    pub save_file_contents-Post :
        (w : World S)
        → is_partition name ≡ false
        → Safe R w
        → HasDigest fs other digest w.now
        → Returns (save_file_contents fs name file w) (Post R Saved)
    unfolding save_file_contents
    save_file_contents-Post w a_file safe has =
        bind-Post R
          (λ r s.
            HasDigest fs other digest s × ((fd : ℕ) → r ≡ some fd → lawful.Opened fd name [] s))
          Saved (perform (fs.open_trunc name)) (λ fd. save_to fs name file fd) w
          (open_trunc-Post name w apart safe has) (λ fd w' h. save_to-Saved fd w' a_file h)
