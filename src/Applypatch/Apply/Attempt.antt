-- ===== src/Applypatch/Apply/Attempt.antt =====
-- The passes of the loop of applypatch(), put together.
use midnight_i9000_recovery.Applypatch.{is_partition, cache_temp_source}
use midnight_i9000_recovery.Applypatch.Disk.{FileSystem, World, perform}
use midnight_i9000_recovery.Applypatch.Apply.{
  Job, Chosen, Output, in_memory, in_file, Patched, target_filename, patch_file, prepare,
  patch_once, unlink_output, attempt, source_to_use, chosen_patch,
}
use midnight_i9000_recovery.Applypatch.Rules.{
  Safe, Post, Post-map, perform-Post, return-Post, fail-Post, bind-Post,
}
use midnight_i9000_recovery.Applypatch.Laws.{IsFileSystem, HasDigest}
use midnight_i9000_recovery.Applypatch.Saving.{Kept-R}
use midnight_i9000_recovery.Applypatch.Apply.Patching.{patch_once-PatchedTo}
use midnight_i9000_recovery.Applypatch.Apply.Sinking.{Fits, Outcome, PatchedTo}
use midnight_i9000_recovery.Applypatch.Apply.Looping.{
  start_name, Usable, Apart, Ready, prepare-Ready,
}
use midnight_i9000_recovery.Common.{
  ℕ, zero, suc, ◌==◌, ◌≡◌, ◌≢◌, refl, sym, ◌⊎◌, inl, inr, Bool, true, false, arith, if◌then◌else◌,
}
use midnight_i9000_recovery.Common.Run.{Returns}
use midnight_i9000_recovery.Common.Prog.{Prog, return, fail, ◌>>=◌, ◌>>◌}
use midnight_i9000_recovery.Common.Text.{Bytes}
use mathlib.Core.Path.{subst}

module _ {S : Type 0} (fs : FileSystem S) (lawful : IsFileSystem fs) (R : S → Type 0) (job : Job)
    (apart : Apart fs lawful job) (digest : Bytes)
    (of_source : (s : S) → HasDigest fs job.source_filename digest s → R s)
    (of_cache : (s : S) → HasDigest fs cache_temp_source digest s → R s) where
  -- Where the patched file is kept until the target stands.
  abbrev pub Held : S → Type 0
  Held s =
      HasDigest fs cache_temp_source digest s
      ⊎ (HasDigest fs job.source_filename digest s × (is_partition (target_filename job) ≡ false))

  -- After the loop: the output is what went into the digest, or a piece is missing from that.
  abbrev pub Looped : Patched × Bool → S → Type 0
  Looped r s = Held s × Outcome fs lawful job r.0.digested r.0.output s

  module _ (c : Chosen) (fits : Fits fs job (source_to_use c) (chosen_patch c)) where
    abbrev After : ℕ × Bool → Patched → S → Type 0
    After p patched s =
        Ready fs lawful R job apart digest of_source of_cache c p s
        × (patched.done ≡ true → Outcome fs lawful job patched.digested patched.output s)

    patch_once-After :
        (p : ℕ × Bool) (w : World S)
        → Ready fs lawful R job apart digest of_source of_cache c p w.now
        → Safe R w
        → Returns (patch_once fs job c w) (Post R (After p))
    patch_once-After p w (inl (has, why)) safe =
        Post-map R (PatchedTo fs lawful R cache_temp_source digest of_cache job apart.patch_cache)
          (After p) (patch_once fs job c w) (λ patched s h. (inl (h.0, why), h.1))
          (patch_once-PatchedTo fs lawful R cache_temp_source digest of_cache job apart.patch_cache
            c w fits safe has)
    patch_once-After p w (inr (has, a_file, why)) safe =
        Post-map R
          (PatchedTo fs lawful R job.source_filename digest of_source job apart.patch_source)
          (After p) (patch_once fs job c w) (λ patched s h. (inr (h.0, a_file, why), h.1))
          (patch_once-PatchedTo fs lawful R job.source_filename digest of_source job
            apart.patch_source c w fits safe has)

    held :
        (p : ℕ × Bool) (s : S)
        → Ready fs lawful R job apart digest of_source of_cache c p s
        → Held s
    held p s (inl (has, why)) = inl has
    held p s (inr (has, a_file, why)) = inr (has, a_file)

    -- A pass that is done ends the loop; another goes on with `next`.
    done_or-Looped :
        (p : ℕ × Bool) (patched : Patched) (next : Prog (World S) (Patched × Bool)) (w : World S)
        → After p patched w.now
        → Safe R w
        → Returns (next w) (Post R Looped)
        → Returns ((if patched.done then return (patched, p.1) else next) w) (Post R Looped)
    done_or-Looped p patched next w (ready, holds) safe other = of_test patched.done refl
      where
        of_test :
            (b : Bool)
            → patched.done ≡ b
            → Returns ((if b then return (patched, p.1) else next) w) (Post R Looped)
        of_test true e = return-Post R Looped (patched, p.1) w (held p w.now ready, holds e) safe
        of_test false e = other

    started :
        (p : ℕ × Bool) (s : S)
        → p.0 ≢ 0
        → Ready fs lawful R job apart digest of_source of_cache c p s
        → (HasDigest fs cache_temp_source digest s × (start_name job c ≡ cache_temp_source))
          ⊎ (HasDigest fs job.source_filename digest s × (start_name job c ≡ job.source_filename))
    started p s more (inl (has, inl e)) = absurd (more e)
    started p s more (inl (has, inr e)) = inl (has, e)
    started p s more (inr (has, a_file, e)) = inr (has, e)

    -- Before the loop goes on.
    unlink_output-Post :
        (output : Output) (p : ℕ × Bool) (w : World S)
        → p.0 ≢ 0
        → Ready fs lawful R job apart digest of_source of_cache c p w.now
        → Safe R w
        → Returns
            (unlink_output fs job output w)
            (Post R (λ _ s. HasDigest fs (start_name job c) digest s))
    unlink_output-Post output p w more ready safe = elim (started p w.now more ready) [
      | inl (has, e) ↦ spared output cache_temp_source e apart.patch_cache of_cache has
      | inr (has, e) ↦ spared output job.source_filename e apart.patch_source of_source has
    ]
      where
        spared :
            (output : Output) (name : Bytes)
            → start_name job c ≡ name
            → patch_file (target_filename job) ≢ name
            → ((s : S) → HasDigest fs name digest s → R s)
            → HasDigest fs name digest w.now
            → Returns
                (unlink_output fs job output w)
                (Post R (λ _ s. HasDigest fs (start_name job c) digest s))
        spared (in_memory msi) name e other of_name has =
            return-Post R (λ _ s. HasDigest fs (start_name job c) digest s) tt w
              (subst (λ z. HasDigest fs z digest w.now) (sym e) has) safe
        spared (in_file fd) name e other of_name has =
            let kept =
              lawful.unlink_keeps (patch_file (target_filename job)) name digest w.now other has in
            bind-Post R (λ _ s. HasDigest fs name digest s)
              (λ _ s. HasDigest fs (start_name job c) digest s)
              (perform (fs.unlink (patch_file (target_filename job)))) (λ gone. return tt) w
              (perform-Post R (λ _ s. HasDigest fs name digest s)
                (fs.unlink (patch_file (target_filename job))) w safe
                (Kept-R fs lawful R name digest of_name
                  (fs.unlink (patch_file (target_filename job)) w.now) kept)
                kept.1)
              (λ gone w' has' safe'.
                return-Post R (λ _ s. HasDigest fs (start_name job c) digest s) tt w'
                  (subst (λ z. HasDigest fs z digest w'.now) (sym e) has') safe')

    -- The other pass, unless there is none.
    retry-Looped :
        (p : ℕ × Bool) (patched : Patched) (again : Prog (World S) (Patched × Bool)) (w : World S)
        → ((w' : World S)
            → HasDigest fs (start_name job c) digest w'.now
            → Safe R w'
            → Returns (again w') (Post R Looped))
        → Ready fs lawful R job apart digest of_source of_cache c p w.now
        → Safe R w
        → Returns
            ((if p.0 == 0 then fail else (unlink_output fs job patched.output >> again)) w)
            (Post R Looped)
    retry-Looped (zero, made) patched again w ih ready safe = fail-Post R Looped w safe
    retry-Looped (suc n, made) patched again w ih ready safe =
        let e : (suc n == 0) ≡ false = ground arith in
        rw e (
          bind-Post R (λ _ s. HasDigest fs (start_name job c) digest s) Looped
            (unlink_output fs job patched.output) (λ _. again) w
            (unlink_output-Post patched.output (suc n, made) w (λ e. absurd (omega arith)) ready
              safe)
            (λ _. ih))

    pub attempt-Looped :
        (retry : ℕ) (made : Bool) (w : World S)
        → Usable fs job digest c
        → Safe R w
        → HasDigest fs (start_name job c) digest w.now
        → Returns (attempt fs job retry made c w) (Post R Looped)
    unfolding attempt
    attempt-Looped zero made w usable safe has =
        bind-Post R (Ready fs lawful R job apart digest of_source of_cache c) Looped
          (prepare fs job zero made c)
          (λ p.
            patch_once fs job c >>= λ patched. if patched.done then return (patched, p.1) else fail)
          w
          (prepare-Ready fs lawful R job apart digest of_source of_cache zero made c w usable safe
            has)
          (λ p w' ready safe'.
            bind-Post R (After p) Looped (patch_once fs job c)
              (λ patched. if patched.done then return (patched, p.1) else fail) w'
              (patch_once-After p w' ready safe')
              (λ patched w'' after safe''.
                done_or-Looped p patched fail w'' after safe'' (fail-Post R Looped w'' safe'')))
    attempt-Looped (suc n) made w usable safe has =
        bind-Post R (Ready fs lawful R job apart digest of_source of_cache c) Looped
          (prepare fs job (suc n) made c)
          (λ p. patch_once fs job c >>= λ patched.
            if patched.done
            then return (patched, p.1)
            else if p.0 == 0
            then fail
            else (unlink_output fs job patched.output >> attempt fs job n p.1 c))
          w
          (prepare-Ready fs lawful R job apart digest of_source of_cache (suc n) made c w usable
            safe has)
          (λ p w' ready safe'.
            bind-Post R (After p) Looped (patch_once fs job c)
              (λ patched.
                if patched.done
                then return (patched, p.1)
                else if p.0 == 0
                then fail
                else (unlink_output fs job patched.output >> attempt fs job n p.1 c))
              w' (patch_once-After p w' ready safe')
              (λ patched w'' after safe''.
                done_or-Looped p patched
                  (if p.0 == 0
                    then fail
                    else (unlink_output fs job patched.output >> attempt fs job n p.1 c))
                  w'' after safe''
                  (retry-Looped p patched (attempt fs job n p.1 c) w''
                    (λ w3 has3 safe3. attempt-Looped n p.1 w3 usable safe3 has3) after.0 safe'')))
