-- ===== src/Recovery.antt =====
-- recovery.c: the arguments of a run, for which Args has the functions, Message what they
-- write for the next run, Restart and File what the next run finds there and in a file.
pub mod Args
pub mod Message
pub mod Restart
pub mod File
pub mod Finish
pub mod Main
mod Tests
