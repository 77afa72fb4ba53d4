-- ===== src/Bootloader/Block.antt =====
-- get_bootloader_message_block and set_bootloader_message_block of bootloader.c, over the calls of stdio.
use midnight_i9000_recovery.Common.{
  drop-drop, ℕ, ◌≡◌, refl, sym, ap, ◌∙◌, Bool, true, false, [], ◌∷◌, ◌++◌, length, take, drop,
  Option, none, some, arith, length-append, take-append,
}
use mathlib.Core.Path.{subst}
use midnight_i9000_recovery.Common.Text.{Bytes, codes}
use midnight_i9000_recovery.Bootloader.{Message, IsSized}

-- The struct in memory.
abbrev pub bytes_of : Message → Bytes
bytes_of m = m.command ++ (m.status ++ m.recovery)

abbrev pub message_of : Bytes → Message
message_of bytes = record {
  command = take 32 bytes;
  status = take 32 (drop 32 bytes);
  recovery = drop 64 bytes;
}

-- sizeof(struct bootloader_message)
abbrev pub message_size : ℕ
message_size = 1088

-- fopen() gives the state with the file open; fread() reads an item of some bytes.
pub record Stdio (D : Type 0) : Type 0 where
  pub fopen : Option Bytes → Bytes → D → Option D
  pub fread : ℕ → D → Option Bytes × D
  pub fwrite : Bytes → D → Bool × D
  pub fclose : D → Bool × D

module _ {D : Type 0} (stdio : Stdio D) where
  -- `none` and `false` stand for the error, -1.
  abbrev pub closed {ℓ} : {A : Type ℓ} → A → A → Bool × D → A × D
  closed value failure (true, d) = (value, d)
  closed value failure (false, d) = (failure, d)

  abbrev pub read_item : Option Bytes × D → Option Message × D
  read_item (none, d) = (none, d)
  read_item (some temp, d) = closed (some (message_of temp)) none (stdio.fclose d)

  abbrev pub read_open : D → Option D → Option Message × D
  read_open d none = (none, d)
  read_open d (some f) = read_item (stdio.fread message_size f)

  unfoldable pub get_bootloader_message_block : Option Bytes → D → Option Message × D
  get_bootloader_message_block device d = read_open d (stdio.fopen device (codes "rb") d)

  abbrev pub write_item : Bool × D → Bool × D
  write_item (false, d) = (false, d)
  write_item (true, d) = closed true false (stdio.fclose d)

  abbrev pub write_open : Message → D → Option D → Bool × D
  write_open m d none = (false, d)
  write_open m d (some f) = write_item (stdio.fwrite (bytes_of m) f)

  unfoldable pub set_bootloader_message_block : Message → Option Bytes → D → Bool × D
  set_bootloader_message_block m device d = write_open m d (stdio.fopen device (codes "wb") d)

-- What a device holds: fwrite() puts the bytes at its front, if it and fclose() succeed, and fread()
-- gives those at its front.
pub record IsStdio {D : Type 0} (stdio : Stdio D) : Type 0 where
  pub content : Option Bytes → D → Bytes
  pub fwrite-content :
      (device : Option Bytes) (bytes : Bytes) (d f f1 d' : D)
      → stdio.fopen device (codes "wb") d ≡ some f
      → stdio.fwrite bytes f ≡ (true, f1)
      → stdio.fclose f1 ≡ (true, d')
      → take (length bytes) (content device d') ≡ bytes
  pub fread-content :
      (device : Option Bytes) (n : ℕ) (bytes : Bytes) (d f f1 : D)
      → stdio.fopen device (codes "rb") d ≡ some f
      → stdio.fread n f ≡ (some bytes, f1)
      → bytes ≡ take n (content device d)

differ : false ≡ true → ⊥
differ e = cc

some_value : {A : Type 0} {a b : A} → some a ≡ some b → a ≡ b
some_value e = cc

no_value : {A : Type 0} {a : A} → none ≡ some a → ⊥
no_value e = cc

length-bytes_of : (m : Message) → IsSized m → length (bytes_of m) ≡ message_size
length-bytes_of m sized =
    length-append m.command (m.status ++ m.recovery)
    ∙ omega (
      arith,
      length-append m.status m.recovery,
      sized.command-size,
      sized.status-size,
      sized.recovery-size,
    )

drop_front : (n : ℕ) (xs ys : Bytes) → length xs ≡ n → drop n (xs ++ ys) ≡ ys
drop_front n xs ys size = subst (λ k. drop k (xs ++ ys) ≡ ys) size (whole xs)
  where
    whole : (xs : Bytes) → drop (length xs) (xs ++ ys) ≡ ys
    whole [] = refl
    whole (x ∷ xs) = whole xs

message_of-bytes_of : (m : Message) → IsSized m → message_of (bytes_of m) ≡ m
message_of-bytes_of m sized =
    let command = take-append 32 m.command (m.status ++ m.recovery) sized.command-size in
    let behind = drop_front 32 m.command (m.status ++ m.recovery) sized.command-size in
    let status = ap (take 32) behind ∙ take-append 32 m.status m.recovery sized.status-size in
    let recovery : drop 64 (bytes_of m) ≡ m.recovery =
      sym (drop-drop 32 32 (bytes_of m))
      ∙ ap (drop 32) behind
      ∙ drop_front 32 m.status m.recovery sized.status-size in
    cc (command, status, recovery)

module _ {D : Type 0} (stdio : Stdio D) (lawful : IsStdio stdio) where
  -- What a success of setting leaves, and what a success of getting returns.
  set-content :
      (m : Message) (device : Option Bytes) (d d' : D)
      → set_bootloader_message_block stdio m device d ≡ (true, d')
      → take (length (bytes_of m)) (lawful.content device d') ≡ bytes_of m
  unfolding set_bootloader_message_block
  set-content m device d d' h = of_open (stdio.fopen device (codes "wb") d) refl h
    where
      of_close :
          (f f1 : D) (r : Bool × D)
          → stdio.fopen device (codes "wb") d ≡ some f
          → stdio.fwrite (bytes_of m) f ≡ (true, f1)
          → stdio.fclose f1 ≡ r
          → closed stdio true false r ≡ (true, d')
          → take (length (bytes_of m)) (lawful.content device d') ≡ bytes_of m
      of_close f f1 (true, d2) opened wrote shut e =
          lawful.fwrite-content device (bytes_of m) d f f1 d' opened wrote
            (shut ∙ ap (λ r. (true, r.1)) e)
      of_close f f1 (false, d2) opened wrote shut e = absurd (differ (ap (λ r. r.0) e))

      of_write :
          (f : D) (r : Bool × D)
          → stdio.fopen device (codes "wb") d ≡ some f
          → stdio.fwrite (bytes_of m) f ≡ r
          → write_item stdio r ≡ (true, d')
          → take (length (bytes_of m)) (lawful.content device d') ≡ bytes_of m
      of_write f (true, f1) opened wrote e = of_close f f1 (stdio.fclose f1) opened wrote refl e
      of_write f (false, f1) opened wrote e = absurd (differ (ap (λ r. r.0) e))

      of_open :
          (o : Option D)
          → stdio.fopen device (codes "wb") d ≡ o
          → write_open stdio m d o ≡ (true, d')
          → take (length (bytes_of m)) (lawful.content device d') ≡ bytes_of m
      of_open (some f) opened e = of_write f (stdio.fwrite (bytes_of m) f) opened refl e
      of_open none opened e = absurd (differ (ap (λ r. r.0) e))

  get-content :
      (y : Message) (device : Option Bytes) (d d' : D)
      → get_bootloader_message_block stdio device d ≡ (some y, d')
      → message_of (take message_size (lawful.content device d)) ≡ y
  unfolding get_bootloader_message_block
  get-content y device d d' h = of_open (stdio.fopen device (codes "rb") d) refl h
    where
      of_close :
          (temp : Bytes) (r : Bool × D)
          → closed stdio (some (message_of temp)) none r ≡ (some y, d')
          → message_of temp ≡ y
      of_close temp (true, d2) e = some_value (ap (λ r. r.0) e)
      of_close temp (false, d2) e = absurd (no_value (ap (λ r. r.0) e))

      of_read :
          (f : D) (r : Option Bytes × D)
          → stdio.fopen device (codes "rb") d ≡ some f
          → stdio.fread message_size f ≡ r
          → read_item stdio r ≡ (some y, d')
          → message_of (take message_size (lawful.content device d)) ≡ y
      of_read f (some temp, f1) opened read e =
          ap message_of (sym (lawful.fread-content device message_size temp d f f1 opened read))
          ∙ of_close temp (stdio.fclose f1) e
      of_read f (none, f1) opened read e = absurd (no_value (ap (λ r. r.0) e))

      of_open :
          (o : Option D)
          → stdio.fopen device (codes "rb") d ≡ o
          → read_open stdio d o ≡ (some y, d')
          → message_of (take message_size (lawful.content device d)) ≡ y
      of_open (some f) opened e = of_read f (stdio.fread message_size f) opened refl e
      of_open none opened e = absurd (no_value (ap (λ r. r.0) e))

  -- On a block device a message that has been set is the one that is read: if
  -- set_bootloader_message_block succeeds, and then get_bootloader_message_block does, it returns this
  -- message, where the arrays have the sizes of the struct.
  pub get_bootloader_message_block-set_bootloader_message_block :
      (m y : Message) (device : Option Bytes) (d d1 d2 : D)
      → IsSized m
      → set_bootloader_message_block stdio m device d ≡ (true, d1)
      → get_bootloader_message_block stdio device d1 ≡ (some y, d2)
      → y ≡ m
  get_bootloader_message_block-set_bootloader_message_block m y device d d1 d2 sized wrote read =
      let there = set-content m device d d1 wrote in
      let size = length-bytes_of m sized in
      sym (get-content y device d1 d2 read)
      ∙ ap message_of (ap (λ n. take n (lawful.content device d1)) (sym size) ∙ there)
      ∙ message_of-bytes_of m sized
