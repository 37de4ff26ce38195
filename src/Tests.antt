-- ===== src/Tests.antt =====
-- The theorems at concrete inputs, and runs of the definitions.
pub mod Pages
pub mod Tables
pub mod Arrays
pub mod Heap
pub mod Heaps
pub mod Machine
pub mod Text
pub mod Strings
pub mod Boot
pub mod Dumps
