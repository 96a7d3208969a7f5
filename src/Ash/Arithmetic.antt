-- ===== src/Ash/Arithmetic.antt =====
-- ash/arithmetic.c: the evaluator of arithmetic expressions. The scanner is ash/arith_token.c.
pub mod Shell
pub mod Operators
pub mod Eval
pub mod Division
pub mod Ends
pub mod Pure
pub mod Blind
mod Tests
