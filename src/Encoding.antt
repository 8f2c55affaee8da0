-- ===== src/Encoding.antt =====
-- rdencoding.c and rdencoding.h: varints and hexadecimal text. A buffer is the list of its bytes; a
-- `fault` is a read out of the buffer, or a shift by the width of the word or more.
pub mod Varint
pub mod Hex
mod Examples
