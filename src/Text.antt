-- ===== src/Text.antt =====
-- What the client uses of Python's texts: UTF-8, whitespace, `split`, decimals.
pub mod Utf8
pub mod Words
pub mod Decimal
