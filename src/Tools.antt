-- ===== src/Tools.antt =====
-- The user programs of src/bin that work on text, with the string helpers of src/lib/noxlib/noxlib.h
-- that they call. A C string is the list of its bytes before the NUL; what `read` gives a byte at a time
-- is the list of the bytes of a file or of standard input; a file that cannot be opened is `none`.
pub mod Text
pub mod Sort
pub mod Tail
pub mod Grep
pub mod Condition
pub mod Count
mod Examples
