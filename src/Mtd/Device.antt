-- ===== src/Mtd/Device.antt =====
-- The kernel's flash device as mtdutils/mtdutils.c uses it, and what is relied on of it.
use midnight_i9000_recovery.Common.{ℕ, ◌+◌, ◌≤◌, ◌≡◌, Bool, Option, some, length}
use midnight_i9000_recovery.Common.Text.{Bytes}

-- What ioctl(MEMGETBADBLOCK) returns: 0, a positive number, -1 with EOPNOTSUPP, or -1 with another
-- error.
pub data BadBlock : Type 0 where
  good bad not_supported ioctl_error : BadBlock

-- `D` is the state of an open device with its file position. The three that move the position join
-- the lseek() that comes before them; `read_at` and `write_at` succeed when all of the bytes go.
pub record Device (D : Type 0) : Type 0 where
  pub position : D → Option ℕ
  pub get_bad_block : D → ℕ → BadBlock
  pub erase : D → ℕ → ℕ → Bool × D
  pub write_at : D → ℕ → Bytes → Bool × D
  pub read_at : D → ℕ → ℕ → Option Bytes × D

-- `block d p` is what stands on the device in the `size` bytes from `p` on. Reading finds it, leaves
-- it, and leaves the position behind the block; erasing and writing leave the blocks before.
pub record IsFlash {D : Type 0} (dev : Device D) (size : ℕ) : Type 0 where
  pub block : D → ℕ → Bytes
  pub read-position :
      (d d' : D) (p : ℕ) (b : Bytes)
      → dev.read_at d p size ≡ (some b, d')
      → dev.position d' ≡ some (p + size)
  pub read-block :
      (d d' : D) (p : ℕ) (b : Bytes) → dev.read_at d p size ≡ (some b, d') → block d' p ≡ b
  pub read-keeps : (d : D) (p q : ℕ) → block (dev.read_at d p size).1 q ≡ block d q
  pub erase-keeps : (d : D) (p q : ℕ) → q + size ≤ p → block (dev.erase d p size).1 q ≡ block d q
  pub write-keeps :
      (d : D) (p q : ℕ) (b : Bytes)
      → length b ≡ size
      → q + size ≤ p
      → block (dev.write_at d p b).1 q ≡ block d q
