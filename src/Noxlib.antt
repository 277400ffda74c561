-- ===== src/Noxlib.antt =====
-- The larger parts of src/lib/noxlib/noxlib.h, the library of the user programs: the line editor, the
-- formatter, and the conversion of numbers.
pub mod Readline
pub mod Format
pub mod Number
