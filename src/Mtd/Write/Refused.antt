-- ===== src/Mtd/Write/Refused.antt =====
-- The blocks that write_block of mtdutils/mtdutils.c cannot write.
use midnight_i9000_recovery.Common.{
  ℕ, zero, suc, ◌+◌, ◌≡◌, ◌≢◌, refl, Bool, true, false, Option, none, some, inl, inr, ◌⊎◌,
  if◌then◌else◌,
}
use midnight_i9000_recovery.Common.Text.{Bytes, bytes_eq, bytes_eq_refl}
use mathlib.Core.Path.{subst}
use midnight_i9000_recovery.Mtd.Device.{Device, BadBlock, good, bad, not_supported, ioctl_error}
use midnight_i9000_recovery.Mtd.Write.{
  not_writable, verified, write_once, write_twice, write_or_skip,
}

module _ {D : Type 0} (dev : Device D) (size : ℕ) where
  -- An attempt at `p` fails: the block cannot be erased, or other bytes or none are read back.
  abbrev pub Failing : Bytes → ℕ → D → Type 0
  Failing content p d =
      ((dev.erase d p size).0 ≡ false)
      ⊎ ((dev.read_at (dev.write_at (dev.erase d p size).1 p content).1 p size).0 ≢ some content)

  -- The block at `p` cannot be written: it is bad, the kernel cannot tell whether it is, or two attempts
  -- fail.
  abbrev pub Refused : Bytes → ℕ → D → Type 0
  Refused content p d =
      (dev.get_bad_block d p ≡ bad)
      ⊎ ((dev.get_bad_block d p ≡ ioctl_error)
          ⊎ (Failing content p d × Failing content p (write_once dev size content p d).1))

  -- The block at `p` is not bad, as far as the kernel can tell.
  abbrev pub Sound : ℕ → D → Type 0
  Sound p d = (dev.get_bad_block d p ≡ good) ⊎ (dev.get_bad_block d p ≡ not_supported)

  verified-false :
      (content : Bytes) (r : Option Bytes × D) → (verified content r).0 ≡ false → r.0 ≢ some content
  verified-false content (none, d) e = λ same. absurd (cc)
  verified-false content (some b, d) e = λ same. refuted (b_same same)
    where
      b_same : some b ≡ some content → b ≡ content
      b_same same = cc

      refuted : b ≡ content → ⊥
      refuted same =
          let t : bytes_eq content content ≡ false =
            subst (λ z. bytes_eq content z ≡ false) same e in
          let u : bytes_eq content content ≡ true = bytes_eq_refl content in absurd (cc)

  once-Failing :
      (content : Bytes) (p : ℕ) (erased : Bool × D) (r : Option Bytes × D)
      → (if◌then◌else◌ {A = Bool × D} erased.0 (verified content r) (false, erased.1)).0 ≡ false
      → (erased.0 ≡ false) ⊎ (r.0 ≢ some content)
  once-Failing content p (true, d) r e = inr (verified-false content r e)
  once-Failing content p (false, d) r e = inl refl

  write_once-Failing :
      (content : Bytes) (p : ℕ) (d : D)
      → (write_once dev size content p d).0 ≡ false
      → Failing content p d
  unfolding write_once
  write_once-Failing content p d e =
      once-Failing content p (dev.erase d p size)
        (dev.read_at (dev.write_at (dev.erase d p size).1 p content).1 p size) e

  write_twice-Failing :
      (content : Bytes) (p : ℕ) (d : D)
      → (write_twice dev size content p d).0 ≡ false
      → Failing content p d × Failing content p (write_once dev size content p d).1
  unfolding write_twice
  write_twice-Failing content p d e =
      again (write_once dev size content p d) (write_once-Failing content p d)
        (write_once-Failing content p (write_once dev size content p d).1) e
    where
      again :
          (r : Bool × D)
          → (r.0 ≡ false → Failing content p d)
          → ((write_once dev size content p r.1).0 ≡ false → Failing content p r.1)
          → (if◌then◌else◌ {A = Bool × D} r.0 (true, r.1) (write_once dev size content p r.1)).0
            ≡ false
          → Failing content p d × Failing content p r.1
      again (true, d1) first second e' = absurd (cc)
      again (false, d1) first second e' = (first refl, second e')

  -- What an attempt tells of the block.
  abbrev pub Told : Bytes → ℕ → D → Bool × D → Type 0
  Told content p d r = (r.0 ≡ false → Refused content p d) × (r.0 ≡ true → Sound p d)

  told :
      (content : Bytes) (p : ℕ) (d : D) (found : BadBlock) (r : Bool × D)
      → dev.get_bad_block d p ≡ found
      → (r.0 ≡ false → Failing content p d × Failing content p (write_once dev size content p d).1)
      → Told content p d (
          if not_writable found
          then (false, d)
          else if r.0
          then (true, r.1)
          else (false, (dev.erase r.1 p size).1))
  told content p d good (true, d1) e failing = (λ f. absurd (cc), λ t. inl e)
  told content p d good (false, d1) e failing = (λ f. inr (inr (failing refl)), λ t. absurd (cc))
  told content p d bad r e failing = (λ f. inl e, λ t. absurd (cc))
  told content p d not_supported (true, d1) e failing = (λ f. absurd (cc), λ t. inr e)
  told content p d not_supported (false, d1) e failing =
      (λ f. inr (inr (failing refl)), λ t. absurd (cc))
  told content p d ioctl_error r e failing = (λ f. inr (inl e), λ t. absurd (cc))

  pub write_or_skip-Told :
      (content : Bytes) (p : ℕ) (d : D) → Told content p d (write_or_skip dev size content p d)
  unfolding write_or_skip
  write_or_skip-Told content p d =
      told content p d (dev.get_bad_block d p) (write_twice dev size content p d) refl
        (write_twice-Failing content p d)

  -- The `n` blocks from `p` on are tried one after the other, and none can be written.
  abbrev pub AllRefused : Bytes → ℕ → ℕ → D → D → Type 0
  AllRefused content zero p d d' = d' ≡ d
  AllRefused content (suc n) p d d' =
      Refused content p d
      × AllRefused content n (p + size) (write_or_skip dev size content p d).1 d'

  -- Where a block is written, it is not bad.
  abbrev pub Chosen : ℕ → D → Option (Unit {0}) → Type 0
  Chosen q d none = Unit {0}
  Chosen q d (some u) = Sound q d
