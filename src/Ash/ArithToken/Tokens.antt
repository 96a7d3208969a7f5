-- ===== src/Ash/ArithToken/Tokens.antt =====
-- ash/arith_tokens.h: the tokens, without the prefix `ARITH_`. They are numbers, since the code
-- computes with them; `ARITH_OR`, `ARITH_AND` and `ARITH_NOT` are `lor`, `land` and `lnot`.
use minilib_ports.Common.{ℕ, ◌-◌, Bytes}

abbrev pub bad : ℕ
bad = 0

abbrev pub ass : ℕ
ass = 1

abbrev pub lor : ℕ
lor = 2

abbrev pub land : ℕ
land = 3

abbrev pub num : ℕ
num = 5

abbrev pub var : ℕ
var = 6

abbrev pub lnot : ℕ
lnot = 7

abbrev pub binop_min : ℕ
binop_min = 8

abbrev pub le : ℕ
le = 8

abbrev pub ge : ℕ
ge = 9

abbrev pub lt : ℕ
lt = 10

abbrev pub gt : ℕ
gt = 11

abbrev pub eq : ℕ
eq = 12

abbrev pub ass_base : ℕ
ass_base = 13

abbrev pub rem : ℕ
rem = 13

abbrev pub band : ℕ
band = 14

abbrev pub lshift : ℕ
lshift = 15

abbrev pub rshift : ℕ
rshift = 16

abbrev pub mul : ℕ
mul = 17

abbrev pub add : ℕ
add = 18

abbrev pub bor : ℕ
bor = 19

abbrev pub sub : ℕ
sub = 20

abbrev pub bxor : ℕ
bxor = 21

abbrev pub div : ℕ
div = 22

abbrev pub ne : ℕ
ne = 23

abbrev pub binop_max : ℕ
binop_max = 24

abbrev pub ass_min : ℕ
ass_min = binop_max

abbrev pub ass_gap : ℕ
ass_gap = ass_min - ass_base

abbrev pub ass_max : ℕ
ass_max = 34

abbrev pub lparen : ℕ
lparen = 34

abbrev pub rparen : ℕ
rparen = 35

abbrev pub bnot : ℕ
bnot = 36

abbrev pub qmark : ℕ
qmark = 37

abbrev pub colon : ℕ
colon = 38

abbrev pub incr : ℕ
incr = 39

abbrev pub decr : ℕ
decr = 40

abbrev pub comma : ℕ
comma = 41

-- `union a_token_val`, with the member that was written last.
pub data TokenVal : Type 0 where
  val : ℕ → TokenVal
  name : Bytes → TokenVal
