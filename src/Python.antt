-- ===== src/Python.antt =====
-- What the program uses of Python's own types: `str.split`, `int(...)` and its print, base64.
pub mod Split
pub mod Number
pub mod Base64
pub mod Utf8
pub mod Find
