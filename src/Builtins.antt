-- ===== src/Builtins.antt =====
-- What the program uses of Python's built-in `str` and `int` on texts and whole numbers.
pub mod Print
pub mod Repr
pub mod Parse
pub mod Decimal
pub mod Sorted
pub mod Dump
pub mod Printable
pub mod Printed
pub mod Lex
pub mod Lexed
pub mod Load
pub mod Pieces
pub mod Numbers
pub mod Keys
pub mod Loaded
pub mod Bracketed
pub mod Containers
