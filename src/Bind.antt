-- ===== src/Bind.antt =====
-- bind.go: the scanner behind client-side binding, and the three ways to bind. A query is a list of
-- bytes. An index `pos` into it is three things here: the bytes before it, last one first, the byte
-- itself, and the bytes behind it; a loop is a recursion on the bytes that are left.
pub mod Quote
pub mod Modes
pub mod Errors
pub mod Formats
pub mod Literal
pub mod Format
pub mod Numeric
pub mod Dispatch
mod Examples
pub mod Positional
pub mod Params
mod Tests
