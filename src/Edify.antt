-- ===== src/Edify.antt =====
-- The script language edify, edify/expr.c and expr.h: values, the evaluator and the builtin functions.
-- The parser (bison) and the lexer (flex) are not C code. A function of the language gets its
-- arguments unevaluated, and the core keeps `State`.
pub mod Value
pub mod Builtins
pub mod Sound
pub mod Laws
pub mod Numbers
mod Tests
