-- ===== src/Cutil.antt =====
-- The utility library under cutil/, one module for each source file.
pub mod Uthash
pub mod HashTable
pub mod LinkedList
pub mod Stack
pub mod Text
pub mod Yaml
