-- ===== src/Lib.antt =====
-- Verification of the recovery program.
--
-- The program is what a phone starts in place of its system to install packages, to make and
-- restore backups and to wipe partitions. It is made of small C libraries, which the menus of
-- recovery.c, extendedcommands.c and midnight.c call. The development models the libraries
-- whose work is done in memory, on blocks of flash or by a few calls of the operating system.
-- At the start get_args of recovery.c takes its arguments from the message that bootloader.c keeps in
-- the partition /misc, which on MTD is read and written by mtdutils; roots.c has the table of the
-- volumes, and mounts them; a package is checked by verifier.c, and its script is run by edify,
-- whose functions call applypatch.
--
-- Minzip/Hash.antt and the modules below it: minzip/Hash.c and minzip/Hash.h, the hash table that
--   the archive reader keeps its entries in. The table is a list of slots; a slot holds a hash and a
--   pointer, where 0 is the empty slot and 0xcbcacccd the tombstone. Probe has the search along the
--   slots, Valid the invariant of a table, Counting the lemmas on the number of live slots, Resize
--   the rehashing, Lookup and Change the operations, Create and Size the making of tables,
--   Iterate the iterator and the visit of all items. A probe has fuel for one round of the slots;
--   under the invariant there is an empty slot, so that a round is enough.
-- Edify/Value.antt, Edify/Builtins.antt: edify/expr.c and edify/expr.h, the script language: values,
--   the evaluator and the functions of the language. A function gets its arguments unevaluated,
--   and sees of one only how to run it and where it stands in the script. Output and sleeping are
--   logged in the state. Sound shows what all evaluations keep to, Laws the equations
--   between operators, Numbers the comparison of numerals.
-- Mtd/Device.antt, Mtd/Write.antt and the modules below it: the writing side of
--   mtdutils/mtdutils.c. The kernel's device is a parameter, `Device`, with what the code relies on of
--   it in `IsFlash`; the descriptor in the context is the state of the device. Write/Block has
--   write_block, Write/Refused the blocks it leaves out, Write/Stream and Write/Data mtd_write_data, Write/Close the end of a stream,
--   Write/Start the search over the bad blocks. The loop over positions has fuel for the size of
--   the partition, since it goes on by at least a byte, the loops over data fuel for its length.
-- Mtd/Partitions.antt and the modules below it: mtd_scan_partitions and mtd_find_partition_by_name of
--   the same file, on the text of /proc/mtd. Partitions/Scan is about the table after a scan,
--   Partitions/Find about the search in it. A pass of the loop eats a byte at least.
-- Mtd/Read.antt and the modules below it: the reading side of the same file. Read/Block has read_block,
--   Read/Stream one block and the buffer, Read/Data mtd_read_data. The outer loop ends within two
--   passes, since the first leaves less than a block.
-- Verifier.antt, Verifier/Whole.antt: verifier.c, the check of the signature of a package, on a file in
--   memory. The cryptography of mincrypt is a parameter. The hash loop has fuel for the number of
--   bytes, since every pass reads one at least.
-- Roots.antt, Roots/Words.antt, Roots/Table.antt, Roots/Search.antt: the volume table of roots.c, read by
--   fgets() from the text of its file, and the search in it. Each call of fgets() takes a byte at
--   least, so that the length of the text is enough fuel.
-- Roots/Mount.antt and the modules below it: try_mount, ensure_path_mounted and ensure_path_unmounted of
--   roots.c, over the calls that they make, `System`. Mount/Laws says what is relied on, and the two
--   others what a success means.
-- Mounts.antt, Mounts/Scan.antt: the table of mounts.c, from the text of /proc/mounts. A pass of the loop
--   eats a byte at least.
-- Bootloader.antt, Bootloader/Block.antt: bootloader.c and bootloader.h, the message in the partition
--   /misc, as get_args uses it, and its two operations on a block device. Bootloader/Flash.antt and
--   Bootloader/Flash/Pages.antt: the two operations on MTD, which use Mtd/Read and Mtd/Write.
-- Recovery.antt, Recovery/Args.antt and the modules beside it: get_args of recovery.c. The file system
--   and the flash type are in `Environment`, the partition /misc is a parameter, `Messages`.
--   Recovery/Message has the message that is written, Recovery/Restart what is found in it
--   later, Recovery/File what is found in a command file.
-- Recovery/Finish.antt, Recovery/Main.antt: finish_recovery and main of recovery.c from get_args on, over
--   `System`, the rest of the program and of the operating system, in a state of which nothing is
--   fixed. Main/Ending is about what the next start finds, Main/Wiping about the data.
-- Applypatch.antt and the modules below it: ParseSha1, FindMatchingPatch, applypatch_check and the sinks
--   of applypatch/applypatch.c. The file system is a record of functions, and write() a function on
--   the state of a file. The loop of FileSink has fuel for the number of bytes, since a pass that
--   goes on has written one at least.
-- Applypatch/Disk.antt, Applypatch/Apply.antt: SaveFileContents, FreeSpaceForFile and applypatch(), over
--   `FileSystem`, the calls that change files, in a state of which nothing is fixed. A call gives the
--   states in which the files stand while it runs, and `World` collects them: where the process is
--   killed, one of them stays. What the machine has not yet written when its power fails is not
--   modelled, so fsync() does nothing here. Applypatch/Laws.antt says what is relied on, Rules and
--   SinkRule have a rule for each way to put calls together, Saving is about SaveFileContents. Below
--   Apply, Choosing is about the part before the loop, Sinking, Patching, Looping and Attempt about it,
--   Recover and Killed about the whole. The loop passes twice at most, and recurses on `retry`.
-- Minzip/Zip.antt and the modules below it: parseZipArchive of minzip/Zip.c on the bytes of the map, with
--   the reads of minzip/Bits.h; a read outside of the map is a fault, and pointers are compared as
--   addresses of 32 bits. Zip/Reading has the reads, Names
--   and Search the order of names and the binary search, Whole the function as a whole. The search has
--   fuel for the number of entries, and each pass halves the part that is searched.
--
-- Conventions, in Common:
--   * a piece of C code that can leave the defined behaviour of the language is a value of `Run`
--     (Common/Run.antt): `ok` with the result, or `fault`, so that a theorem that says what a run
--     returns also says that no assertion fails, no array is left and no signed number overflows;
--   * integers are native natural numbers, with the wrap-around or the overflow of the C type
--     written out; `ℤ` (Common/Int.antt) is used where a value can be negative;
--   * strings and buffers are lists of bytes (Common/Text.antt), and `long` has 32 bits;
--   * the buffer of a command of the shell is long enough for it, since the words of a volume come from
--     lines of at most 1022 bytes;
--   * memory management is left out, but for allocations that can fail and are tested: malloc() succeeds
--     where its result is not looked at, and files have less than 2 ^ 31 bytes.
--
-- Not modelled: the menus, the user interface and the other code that is a sequence of calls of the
-- operating system; the decoders of patches and the functions of the updater; the extraction of
-- archives; the parsers that bison and flex generate; the host tools.
pub mod Applypatch
pub mod Bootloader
pub mod Common
pub mod Edify
pub mod Minzip
pub mod Mounts
pub mod Mtd
pub mod Recovery
pub mod Roots
pub mod Verifier
