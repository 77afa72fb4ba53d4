-- ===== src/Applypatch/Laws.antt =====
-- What applypatch() of applypatch/applypatch.c relies on in the calls that change files.
use midnight_i9000_recovery.Applypatch.{
  FileContents, is_partition, cache_temp_source, load_file_contents,
}
use midnight_i9000_recovery.Applypatch.Disk.{FileSystem, files}
use midnight_i9000_recovery.Applypatch.Rules.{Kept}
use midnight_i9000_recovery.Common.{
  ℕ, ◌≤◌, ◌≡◌, ◌≢◌, ◌⊎◌, true, false, [], ◌++◌, length, take, Option, none, some,
}
use midnight_i9000_recovery.Common.Text.{Bytes}

abbrev pub OfDigest : Bytes → Option FileContents → Type 0
OfDigest digest none = ⊥
OfDigest digest (some file) = file.sha1 ≡ digest

module _ {S : Type 0} (fs : FileSystem S) where
  -- Loading the name gives contents with this digest.
  abbrev pub HasDigest : Bytes → Bytes → S → Type 0
  HasDigest name digest s = OfDigest digest (load_file_contents (files fs s) name)

  -- `Opened fd name content`: the file is open for writing, and `content` is what it holds so far.
  -- `Spared`: MakeFreeSpaceOnCache does not remove the file. `Lists`: the name of a partition gives
  -- this digest, with the size of what has it.
  pub record IsFileSystem : Type 1 where
    pub Opened : ℕ → Bytes → Bytes → S → Type 0
    pub Spared : Bytes → Type 0
    pub Lists : Bytes → Bytes → Type 0
    pub partition_sha :
        (s : S) (name : Bytes) (file : FileContents)
        → fs.load_partition_contents s name ≡ some file
        → file.sha1 ≡ fs.sha file.content
    pub opened :
        (name : Bytes) (s : S) (fd : ℕ)
        → (fs.open_trunc name s).result ≡ some fd
        → Opened fd name [] (fs.open_trunc name s).after
    pub open_keeps :
        (name other digest : Bytes) (s : S)
        → name ≢ other
        → HasDigest other digest s
        → Kept (HasDigest other digest) (fs.open_trunc name s)
    pub written :
        (fd : ℕ) (name content bytes : Bytes) (s : S) (n : ℕ)
        → Opened fd name content s
        → (fs.write fd bytes s).result ≡ some n
        → (n ≤ length bytes) × Opened fd name (content ++ take n bytes) (fs.write fd bytes s).after
    -- A file stays open where a write fails.
    pub still_open :
        (fd : ℕ) (name content bytes : Bytes) (s : S)
        → Opened fd name content s
        → (content' : Bytes) × Opened fd name content' (fs.write fd bytes s).after
    pub write_keeps :
        (fd : ℕ) (name content bytes other digest : Bytes) (s : S)
        → Opened fd name content s
        → name ≢ other
        → HasDigest other digest s
        → Kept (HasDigest other digest) (fs.write fd bytes s)
    pub chmod_opened :
        (fd : ℕ) (name content : Bytes) (mode : ℕ) (s : S)
        → Opened fd name content s
        → Opened fd name content (fs.chmod name mode s).after
    pub chmod_keeps :
        (name other digest : Bytes) (mode : ℕ) (s : S)
        → HasDigest other digest s
        → Kept (HasDigest other digest) (fs.chmod name mode s)
    pub chown_opened :
        (fd : ℕ) (name content : Bytes) (uid gid : ℕ) (s : S)
        → Opened fd name content s
        → Opened fd name content (fs.chown name uid gid s).after
    pub chown_keeps :
        (name other digest : Bytes) (uid gid : ℕ) (s : S)
        → HasDigest other digest s
        → Kept (HasDigest other digest) (fs.chown name uid gid s)
    -- What was written is what is read.
    pub read_opened :
        (fd : ℕ) (name content : Bytes) (s : S)
        → is_partition name ≡ false
        → Opened fd name content s
        → HasDigest name (fs.sha content) s
    pub unlink_keeps :
        (name other digest : Bytes) (s : S)
        → name ≢ other
        → HasDigest other digest s
        → Kept (HasDigest other digest) (fs.unlink name s)
    -- In every state the file stands under the old name or under the new one.
    pub rename_keeps :
        (fd : ℕ) (name to content other digest : Bytes) (s : S)
        → is_partition to ≡ false
        → Opened fd name content s
        → name ≢ other
        → HasDigest other digest s
        → Kept
            (λ s'. HasDigest other digest s' ⊎ HasDigest to (fs.sha content) s')
            (fs.rename name to s)
    pub renamed :
        (fd : ℕ) (name to content : Bytes) (s : S)
        → is_partition to ≡ false
        → Opened fd name content s
        → (fs.rename name to s).result ≡ true
        → HasDigest to (fs.sha content) (fs.rename name to s).after
    pub cache_spared : Spared cache_temp_source
    pub space_keeps :
        (n : ℕ) (other digest : Bytes) (s : S)
        → Spared other
        → HasDigest other digest s
        → Kept (HasDigest other digest) (fs.make_free_space_on_cache n s)
    pub partition_keeps :
        (content to digest : Bytes) (s : S)
        → is_partition to ≡ true
        → HasDigest cache_temp_source digest s
        → Kept (HasDigest cache_temp_source digest) (fs.write_to_partition content to s)
    pub partition_written :
        (content to : Bytes) (s : S)
        → is_partition to ≡ true
        → Lists to (fs.sha content)
        → (fs.write_to_partition content to s).result ≡ true
        → HasDigest to (fs.sha content) (fs.write_to_partition content to s).after
