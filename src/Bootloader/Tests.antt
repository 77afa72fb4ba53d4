-- ===== src/Bootloader/Tests.antt =====
-- Tests of the model of bootloader.c on a device in memory.
use midnight_i9000_recovery.Common.{
  ℕ, zero, suc, [], ◌≡◌, ◌∙◌, sym, ap, refl, true, ◌++◌, length, take, drop, replicate, none, some,
  length-replicate, take-append,
}
use midnight_i9000_recovery.Common.Text.{Bytes}
use midnight_i9000_recovery.Bootloader.{Message, IsSized}
use midnight_i9000_recovery.Bootloader.Block.{
  Stdio, IsStdio, bytes_of, message_of, message_size, get_bootloader_message_block,
  set_bootloader_message_block, get_bootloader_message_block-set_bootloader_message_block,
}

-- One device, whose bytes are the state.
abbrev memory : Stdio Bytes
memory = record {
  fopen = λ device mode d. some d;
  fread = λ n d. (some (take n d), d);
  fwrite = λ bytes d. (true, bytes ++ drop (length bytes) d);
  fclose = λ d. (true, d);
}

same_item : {A : Type 0} {a b : A} → some a ≡ some b → b ≡ a
same_item e = cc

written :
    (bytes f f1 d' : Bytes)
    → memory.fwrite bytes f ≡ (true, f1)
    → memory.fclose f1 ≡ (true, d')
    → take (length bytes) d' ≡ bytes
written bytes f f1 d' wrote shut =
    ap (λ z. take (length bytes) z) (sym (ap (λ r. r.1) shut) ∙ sym (ap (λ r. r.1) wrote))
    ∙ take-append (length bytes) bytes (drop (length bytes) f) refl

memory-IsStdio : IsStdio memory
memory-IsStdio = record {
  content = λ device d. d;
  fwrite-content = λ device bytes d f f1 d' opened wrote shut. written bytes f f1 d' wrote shut;
  fread-content = λ device n bytes d f f1 opened read.
      same_item (ap (λ r. r.0) read) ∙ ap (λ z. take n z) (same_item opened);
}

abbrev letter : ℕ
letter = 65

abbrev sample : Message
sample = record {
  command = replicate 32 letter;
  status = replicate 32 letter;
  recovery = replicate 1024 letter;
}

sample-IsSized : IsSized sample
sample-IsSized = record {
  command-size = length-replicate 32 letter;
  status-size = length-replicate 32 letter;
  recovery-size = length-replicate 1024 letter;
}

wrote_sample : set_bootloader_message_block memory sample none [] ≡ (true, bytes_of sample ++ [])
unfolding set_bootloader_message_block
wrote_sample = ap (λ z. (true, bytes_of sample ++ z)) (nothing (length (bytes_of sample)))
  where
    nothing : (n : ℕ) → drop {A = ℕ} n [] ≡ []
    nothing zero = refl
    nothing (suc n) = refl

-- What is read.
abbrev back : Message
back = message_of (take message_size (bytes_of sample ++ []))

read_sample :
    get_bootloader_message_block memory none (bytes_of sample ++ [])
    ≡ (some back, bytes_of sample ++ [])
unfolding get_bootloader_message_block
read_sample = refl

get_bootloader_message_block-set_bootloader_message_block_example : back ≡ sample
get_bootloader_message_block-set_bootloader_message_block_example =
    get_bootloader_message_block-set_bootloader_message_block memory memory-IsStdio sample back none
      [] (bytes_of sample ++ []) (bytes_of sample ++ []) sample-IsSized wrote_sample read_sample
