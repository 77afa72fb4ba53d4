-- ===== src/Bootloader.antt =====
-- bootloader.c and bootloader.h: the message that the recovery, the system and the bootloader leave
-- for one another. Messages of the log are left out.
pub mod Block
pub mod Flash
mod Tests
use midnight_i9000_recovery.Common.{true, some, length, ◌≡◌, Option, Bool}
use midnight_i9000_recovery.Common.Text.{Bytes}

-- Arrays of 32, 32 and 1024 bytes.
pub record Message : Type 0 where
  pub command : Bytes
  pub status : Bytes
  pub recovery : Bytes

pub record IsSized (m : Message) : Type 0 where
  pub command-size : length m.command ≡ 32
  pub status-size : length m.status ≡ 32
  pub recovery-size : length m.recovery ≡ 1024

-- get_bootloader_message() and set_bootloader_message(), for what uses them.
pub record Messages (M : Type 0) : Type 0 where
  pub get : M → Option Message
  pub set : Message → M → Bool × M

-- What is set is what one gets next, if setting succeeds.
pub record IsMessages {M : Type 0} (messages : Messages M) : Type 0 where
  pub get-IsSized : (m : M) (x : Message) → messages.get m ≡ some x → IsSized x
  pub get-set :
      (x : Message) (m : M)
      → IsSized x
      → (messages.set x m).0 ≡ true
      → messages.get (messages.set x m).1 ≡ some x
