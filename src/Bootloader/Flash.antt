-- ===== src/Bootloader/Flash.antt =====
-- get_bootloader_message_mtd and set_bootloader_message_mtd of bootloader.c, over the model of
-- mtdutils/mtdutils.c.
pub mod Pages
mod Tests
use midnight_i9000_recovery.Common.{
  ℕ, ◌+◌, ◌*◌, ◌==◌, leb, Bool, true, false, ◌&&◌, List, ◌++◌, length, take, drop, Option, none,
  some, if◌then◌else◌,
}
use midnight_i9000_recovery.Common.Run
use midnight_i9000_recovery.Common.Run.{Run, ok, fault, Fault}
use midnight_i9000_recovery.Common.Prog.{Prog, unless_failed}
use midnight_i9000_recovery.Common.Text.{Bytes}
use midnight_i9000_recovery.Mtd.Write.{
  MtdPartition, WriteContext, mtd_write_partition, mtd_write_data, mtd_write_close,
}
use midnight_i9000_recovery.Mtd.Read.{ReadDevice, ReadContext, mtd_read_partition, mtd_read_data}
use midnight_i9000_recovery.Bootloader.{Message}
use midnight_i9000_recovery.Bootloader.Block.{bytes_of, message_of, message_size}

-- `find_partition` gives the partition with its write size, if mtd_partition_info() succeeds; `closes`
-- tells whether close() does.
pub record MiscDevice (D : Type 0) : Type 0 where
  pub read_device : ReadDevice D
  pub find_partition : Option Bytes → D → Option (MtdPartition × ℕ)
  pub malloc : ℕ → Option Bytes
  pub open_device : D → Option D
  pub closes : Bool

abbrev pub misc_pages : ℕ
misc_pages = 3

abbrev pub misc_command_page : ℕ
misc_command_page = 1

-- All of the bytes asked for.
abbrev pub complete : ℕ → Option Bytes → Option Bytes
complete size none = none
complete size (some pages) = if length pages == size then some pages else none

-- r == size
abbrev pub is_count : ℕ → Option ℕ → Bool
is_count size none = false
is_count size (some n) = n == size

abbrev pub success : Bool → Option (Unit {0})
success true = some tt
success false = none

-- memcpy() from the page of the command, and into it; the array has three pages.
abbrev pub message_at : ℕ → Bytes → Run Message
message_at start pages =
    if leb (start + message_size) (length pages)
    then ok (message_of (take message_size (drop start pages)))
    else fault Fault.out_of_bounds

abbrev pub with_message : ℕ → Message → Bytes → Run Bytes
with_message start m pages =
    if leb (start + message_size) (length pages)
    then ok (take start pages ++ (bytes_of m ++ drop (start + message_size) pages))
    else fault Fault.out_of_bounds

module _ {D : Type 0} (misc : MiscDevice D) where
  abbrev pub read_with : ℕ → D → Option (ReadContext D) → Run (Option Bytes × D)
  read_with size d none = ok (none, d)
  read_with size d (some ctx) =
      Run.◌>>=◌ (mtd_read_data misc.read_device size ctx) λ (r, ctx'). ok (complete size r, ctx'.fd)

  unfoldable pub read_pages : MtdPartition → ℕ → Prog D Bytes
  read_pages partition size d =
      read_with size d
        (mtd_read_partition partition (misc.malloc partition.erase_size) (misc.open_device d))

  abbrev pub close_after : Bool → WriteContext D → Run (Option (Unit {0}) × D)
  close_after wrote ctx =
      Run.◌>>=◌ (mtd_write_close misc.read_device.device misc.closes ctx)
        λ (closed, d'). ok (success (wrote && closed), d')

  abbrev pub write_with : Bytes → D → Option (WriteContext D) → Run (Option (Unit {0}) × D)
  write_with pages d none = ok (none, d)
  write_with pages d (some ctx) =
      Run.◌>>=◌ (mtd_write_data misc.read_device.device pages ctx)
        λ (r, ctx'). close_after (is_count (length pages) r) ctx'

  unfoldable pub write_pages : MtdPartition → Bytes → Prog D (Unit {0})
  write_pages partition pages d =
      write_with pages d
        (mtd_write_partition partition (misc.malloc partition.erase_size) (misc.open_device d))

  abbrev pub get_found : Option (MtdPartition × ℕ) → Prog D Message
  get_found none d = ok (none, d)
  get_found (some (partition, write_size)) d =
      Run.◌>>=◌ (read_pages partition (write_size * misc_pages) d) (
        unless_failed λ pages d'.
          Run.◌>>=◌ (message_at (write_size * misc_command_page) pages) λ m. ok (some m, d'))

  unfoldable pub get_bootloader_message_mtd : Option Bytes → Prog D Message
  get_bootloader_message_mtd device d = get_found (misc.find_partition device d) d

  abbrev pub set_found : Message → Option (MtdPartition × ℕ) → Prog D (Unit {0})
  set_found m none d = ok (none, d)
  set_found m (some (partition, write_size)) d =
      Run.◌>>=◌ (read_pages partition (write_size * misc_pages) d) (
        unless_failed λ pages d'.
          Run.◌>>=◌ (with_message (write_size * misc_command_page) m pages)
            λ patched. write_pages partition patched d')

  unfoldable pub set_bootloader_message_mtd : Message → Option Bytes → Prog D (Unit {0})
  set_bootloader_message_mtd m device d = set_found m (misc.find_partition device d) d
