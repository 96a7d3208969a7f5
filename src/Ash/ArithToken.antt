-- ===== src/Ash/ArithToken.antt =====
-- ash/arith_token.c and ash/arith_tokens.h: the scanner of arithmetic expressions.
pub mod Tokens
pub mod Scan
pub mod Consumes
pub mod Spelling
pub mod Tests
