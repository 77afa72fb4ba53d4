-- ===== src/Minzip.antt =====
-- The library minzip of the repository: the hash table that the zip reader keeps its entries in.
pub mod Hash
pub mod Zip
