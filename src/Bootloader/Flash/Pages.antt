-- ===== src/Bootloader/Flash/Pages.antt =====
-- What set_bootloader_message_mtd of bootloader.c leaves on the flash.
use mathlib.Core.Path.{subst}
use midnight_i9000_recovery.Common.{
  ◌-◌, ltb, if◌then◌else◌, replicate, ℕ, ◌+◌, ◌*◌, ◌^◌, ◌≤◌, ◌<◌, ◌≡◌, refl, ap, Bool, true, false,
  ◌&&◌, [], ◌++◌, length, take, drop, Option, none, some, arith, Bool-cases, inl, inr, leb, leb→le,
}
use midnight_i9000_recovery.Common.Run
use midnight_i9000_recovery.Common.Run.{Run, ok, fault, Returns, Fault}
use midnight_i9000_recovery.Common.Prog.{unless_failed}
use midnight_i9000_recovery.Common.Text.{Bytes}
use midnight_i9000_recovery.Mtd.Device.{IsFlash}
use midnight_i9000_recovery.Mtd.Write.{
  MtdPartition, WriteContext, mtd_write_partition, mtd_write_close,
}
use midnight_i9000_recovery.Mtd.Write.Stream.{At}
use midnight_i9000_recovery.Mtd.Write.Data.{Streamed, mtd_write_data-Streamed}
use midnight_i9000_recovery.Mtd.Write.Close.{
  Complete, ClosedStream, padding, mtd_write_close-ClosedStream,
}
use midnight_i9000_recovery.Bootloader.{Message}
use midnight_i9000_recovery.Bootloader.Block.{bytes_of, message_size}
use midnight_i9000_recovery.Bootloader.Flash.{
  MiscDevice, success, is_count, close_after, write_with, write_pages, with_message, read_pages,
  misc_pages, misc_command_page, set_bootloader_message_mtd,
}

module _ {D : Type 0} (misc : MiscDevice D) (partition : MtdPartition)
    (flash : IsFlash misc.read_device.device partition.erase_size)
    (positive : 0 < partition.erase_size) (room : partition.size + partition.erase_size < 2 ^ 31)
    (opens : (d f : D) → misc.open_device d ≡ some f → misc.read_device.device.position f ≡ some 0)
    (allocates : (n : ℕ) (b : Bytes) → misc.malloc n ≡ some b → length b ≡ n) where
  -- The pages stand in blocks of the device, in their order, and behind them fewer zeros than a
  -- block.
  abbrev pub Stored : Bytes → D → Type 0
  Stored pages d' =
      (n : ℕ) × (n < partition.erase_size)
      × (p : ℕ) × Complete misc.read_device.device partition.erase_size flash d' p
          (pages ++ replicate n 0)

  -- `rest` is no whole block of zeros.
  abbrev Zeros : Bytes → Type 0
  Zeros rest = (n : ℕ) × (n < partition.erase_size) × (rest ≡ replicate n 0)

  padding-Zeros :
      (c : WriteContext D) → Zeros (padding misc.read_device.device partition.erase_size flash c)
  padding-Zeros c = of_test (ltb 0 c.stored) refl
    where
      of_test :
          (b : Bool)
          → ltb 0 c.stored ≡ b
          → Zeros (if b then replicate (partition.erase_size - c.stored) 0 else [])
      of_test true e = (partition.erase_size - c.stored, ground arith, refl)
      of_test false e = (0, positive, refl)

  of_padding :
      (pages rest : Bytes) (p : ℕ) (d' : D)
      → Zeros rest
      → Complete misc.read_device.device partition.erase_size flash d' p (pages ++ rest)
      → Stored pages d'
  of_padding pages rest p d' (n, few, zeros) there = (
    n,
    few,
    p,
    subst (λ z. Complete misc.read_device.device partition.erase_size flash d' p (pages ++ z)) zeros
        there,
  )

  close_inv :
      (wrote : Bool) (d' : D) (run : Run (Bool × D))
      → Run.◌>>=◌ {Result = Option (Unit {0}) × D} run
          (λ (closed, d2). ok (success (wrote && closed), d2))
        ≡ ok (some tt, d')
      → (wrote ≡ true) × (run ≡ ok (true, d'))
  close_inv wrote d' (fault e) h = absurd (cc)
  close_inv true d' (ok (true, d2)) h = (refl, cc)
  close_inv true d' (ok (false, d2)) h = absurd (cc)
  close_inv false d' (ok (closed, d2)) h = absurd (cc)

  of_closed :
      (pages : Bytes) (f d' : D) (r : Option ℕ × WriteContext D)
      → Streamed misc.read_device.device partition.erase_size flash 0 f pages (length pages) r
      → close_after misc (is_count (length pages) r.0) r.1 ≡ ok (some tt, d')
      → Stored pages d'
  of_closed pages f d' (none, c) kept h =
      let (wrote, closed) =
        close_inv false d' (mtd_write_close misc.read_device.device misc.closes c) h in
      absurd (cc)
  of_closed pages f d' (some n, c) (kept, p, later, at, (all, short)) h =
      let (wrote, closed) =
        close_inv (is_count (length pages) (some n)) d'
          (mtd_write_close misc.read_device.device misc.closes c) h in
      let (r, e, stream) =
        mtd_write_close-ClosedStream misc.read_device.device partition.erase_size flash misc.closes
          p c pages at short in
      let same : r ≡ (true, d') = cc in
      let (p', there) = of_stream p c r same stream in
      of_padding pages (padding misc.read_device.device partition.erase_size flash c) p' d'
        (padding-Zeros c) there
    where
      of_stream :
          (p : ℕ) (c : WriteContext D) (r : Bool × D)
          → r ≡ (true, d')
          → ClosedStream misc.read_device.device partition.erase_size flash p c.fd
              (pages ++ padding misc.read_device.device partition.erase_size flash c)
              r
          → (p' : ℕ) × Complete misc.read_device.device partition.erase_size flash d' p'
              (pages ++ padding misc.read_device.device partition.erase_size flash c)
      of_stream p c (okay, d2) same (kept, done) =
          let (p', there) = done (ap (λ r. r.0) same) in
          (
            p',
            subst
                (λ d3.
                  Complete misc.read_device.device partition.erase_size flash d3 p'
                    (pages ++ padding misc.read_device.device partition.erase_size flash c))
                (ap (λ r. r.1) same) there,
          )

  write_pages-Stored :
      (pages : Bytes) (d d' : D)
      → write_pages misc partition pages d ≡ ok (some tt, d')
      → Stored pages d'
  unfolding write_pages
  write_pages-Stored pages d d' h =
      of_context (misc.malloc partition.erase_size) (misc.open_device d) refl refl h
    where
      of_context :
          (buffer : Option Bytes) (fd : Option D)
          → misc.malloc partition.erase_size ≡ buffer
          → misc.open_device d ≡ fd
          → write_with misc pages d (mtd_write_partition partition buffer fd) ≡ ok (some tt, d')
          → Stored pages d'
      of_context none fd got opened h = absurd (cc)
      of_context (some buffer) none got opened h = absurd (cc)
      of_context (some buffer) (some f) got opened h =
          let ctx : WriteContext D = record {
            partition = partition;
            buffer = buffer;
            stored = 0;
            fd = f;
            bad_block_offsets = [];
            bad_block_alloc = 0;
          } in
          let at : At misc.read_device.device partition.erase_size flash 0 ctx [] [] = (
            (refl, positive, room),
            opens d f opened,
            omega arith,
            allocates partition.erase_size buffer got,
            omega arith,
            [],
            tt,
            refl,
          ) in
          let (r, e, streamed) =
            mtd_write_data-Streamed misc.read_device.device partition.erase_size flash 0 ctx []
              pages at positive in
          of_closed pages f d' r streamed (rw e at h)

  -- What has been read, and what is on the device now.
  abbrev pub Replaced : Message → ℕ → D → D → Type 0
  Replaced m start d d' =
      (pages : Bytes) × (d1 : D) × (read_pages misc partition (start * misc_pages) d
        ≡ ok (some pages, d1))
      × (start + message_size ≤ length pages)
      × Stored (take start pages ++ (bytes_of m ++ drop (start + message_size) pages)) d'

  with_message-Stored :
      (m : Message) (start : ℕ) (pages : Bytes) (d1 d' : D)
      → Run.◌>>=◌ (with_message start m pages) (λ patched. write_pages misc partition patched d1)
        ≡ ok (some tt, d')
      → (start + message_size ≤ length pages)
        × Stored (take start pages ++ (bytes_of m ++ drop (start + message_size) pages)) d'
  with_message-Stored m start pages d1 d' h =
      elim (Bool-cases (leb (start + message_size) (length pages))) [
        | inl fits ↦ (
          leb→le (start + message_size) (length pages) fits,
          write_pages-Stored (take start pages ++ (bytes_of m ++ drop (start + message_size) pages))
              d1 d' (rw fits at h),
        )
        | inr beyond ↦ absurd (crash (rw beyond at h))
      ]
    where
      crash :
          (let faulty : Run (Option (Unit {0}) × D) = fault Fault.out_of_bounds in
            faulty ≡ ok (some tt, d'))
          → ⊥
      crash e = cc

  -- If set_bootloader_message_mtd succeeds, then the three pages had been read, and these pages now stand
  -- on the device as they were but for the message in the second, in blocks in their order, with
  -- fewer zeros than a block behind them: the device is a flash with its blocks, opened at position 0, malloc() gives what
  -- it is asked for, and the size of the partition and a block more fits into an int.
  pub set_bootloader_message_mtd-Replaced :
      (m : Message) (device : Option Bytes) (write_size : ℕ) (d d' : D)
      → misc.find_partition device d ≡ some (partition, write_size)
      → set_bootloader_message_mtd misc m device d ≡ ok (some tt, d')
      → Replaced m write_size d d'
  unfolding set_bootloader_message_mtd
  set_bootloader_message_mtd-Replaced m device write_size d d' found h =
      of_read (read_pages misc partition (write_size * misc_pages) d) refl (rw found at h)
    where
      of_read :
          (r : Run (Option Bytes × D))
          → read_pages misc partition (write_size * misc_pages) d ≡ r
          → Run.◌>>=◌ r (
              unless_failed λ pages d1.
                Run.◌>>=◌
                  (with_message (write_size * misc_command_page) m pages)
                  λ patched. write_pages misc partition patched d1)
            ≡ ok (some tt, d')
          → Replaced m write_size d d'
      of_read (fault e) read h = absurd (cc)
      of_read (ok (none, d1)) read h = absurd (cc)
      of_read (ok (some pages, d1)) read h =
          let once : write_size * misc_command_page ≡ write_size = omega arith in
          let (fits, stored) = with_message-Stored m write_size pages d1 d' (rw once at h) in
          (pages, d1, read, fits, stored)
