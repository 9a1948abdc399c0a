-- ===== src/Examples/Lexing.antt =====
-- src/parser/lexer.c at concrete inputs.
use nybit.Base.{ℕ, ◌≡◌, refl, arith, List, [], ◌∷◌, length}
use nybit.Parser.Lexer.{lexer_init}
use nybit.Parser.Lexer.Next.{TokenKind, next}
use nybit.Parser.Lexer.Position.{IsIn, next-IsIn, lexer_init-IsIn}

-- A C library that reads every number as the count of bytes behind it.
abbrev strtoll : List ℕ → ℕ → ℕ
strtoll bytes base = length bytes

abbrev strtod : List ℕ → ℕ
strtod bytes = length bytes

-- A comment, the end of its line, a space, and `%ab`.
abbrev source : List ℕ
source = b'/' ∷ b'/' ∷ b'x' ∷ 10 ∷ 32 ∷ b'%' ∷ b'a' ∷ b'b' ∷ b',' ∷ []

next-IsIn_example : IsIn source (next strtoll strtod (lexer_init source)).1
next-IsIn_example =
    next-IsIn strtoll strtod source (lexer_init source) (omega arith) (lexer_init-IsIn source)

value_token : (next strtoll strtod (lexer_init source)).0 ≡ record {
  kind = TokenKind.value;
  text = b'a' ∷ b'b' ∷ [];
  int_val = 0;
  float_val = 0;
  line = 2;
  col = 2;
}
unfolding next lexer_init
value_token = refl

-- The last byte of a block comment that is not closed is read as a token.
open_comment : (next strtoll strtod (lexer_init (b'/' ∷ b'*' ∷ b' ' ∷ b'a' ∷ []))).0 ≡ record {
  kind = TokenKind.ident;
  text = b'a' ∷ [];
  int_val = 0;
  float_val = 0;
  line = 1;
  col = 4;
}
unfolding next lexer_init
open_comment = refl
