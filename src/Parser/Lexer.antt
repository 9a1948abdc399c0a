-- ===== src/Parser/Lexer.antt =====
-- src/parser/lexer.c: the state of the lexer and its loops. `rest` holds the bytes of the source
-- from `pos` on. A loop runs on fuel, and the bytes left are enough of it.
pub mod Next
pub mod Reached
pub mod Position
use nybit.Base.{
  ℕ, zero, suc, ◌+◌, ◌%◌, ◌^◌, Bool, true, false, ◌&&◌, ◌||◌, not, Option, none, some, List, [],
  ◌∷◌, length, leb, ◌==◌, if◌then◌else◌,
}

pub record Lexer : Type 0 where
  pub rest : List ℕ
  pub pos : ℕ
  pub line : ℕ
  pub col : ℕ

-- `ny_lexer_init`
unfoldable pub lexer_init : List ℕ → Lexer
lexer_init src = record { rest = src; pos = 0; line = 1; col = 1 }

abbrev pub newline : ℕ
newline = 10

-- `line` and `col` are patterns of an `int`; C leaves their overflow past 2^31 - 1 undefined.
abbrev pub advance_over : ℕ → List ℕ → Lexer → Lexer
advance_over c cs lex =
    if c == newline
    then record { rest = cs; pos = lex.pos + 1; line = (lex.line + 1) % 2 ^ 32; col = 1 }
    else record { rest = cs; pos = lex.pos + 1; line = lex.line; col = (lex.col + 1) % 2 ^ 32 }

-- `advance_char`, without the character that it returns
abbrev pub advance : Lexer → Lexer
advance lex = elim lex.rest [ [] ↦ lex | c ∷ cs ↦ advance_over c cs lex ]

-- `peek_char`
abbrev pub head_or_nul : List ℕ → ℕ
head_or_nul [] = 0
head_or_nul (c ∷ cs) = c

unfoldable pub peek_char : Lexer → ℕ
peek_char lex = head_or_nul lex.rest

-- The test `lex->pos + 1 < lex->len && p(lex->src[lex->pos + 1])`.
unfoldable pub second_is : (ℕ → Bool) → Lexer → Bool
second_is p lex = elim lex.rest [ [] ↦ false | c ∷ cs ↦ elim cs [ [] ↦ false | d ∷ ds ↦ p d ] ]

-- A loop that advances as long as the test holds.
unfoldable pub advance_while : (ℕ → Bool) → ℕ → Lexer → Lexer
advance_while p zero lex = lex
advance_while p (suc fuel) lex = elim lex.rest [
  | [] ↦ lex
  | c ∷ cs ↦ elim (p c) [ true ↦ advance_while p fuel (advance lex) | false ↦ lex ]
]

abbrev pub scan : (ℕ → Bool) → Lexer → Lexer
scan p lex = advance_while p (length lex.rest) lex

abbrev pub is_blank : ℕ → Bool
is_blank c = c == b' ' || (c == 9 || (c == 13 || c == newline))

-- The inner loop of a block comment, up to the closing `*/` or the last byte.
unfoldable pub advance_comment : ℕ → Lexer → Lexer
unfolding second_is peek_char
advance_comment zero lex = lex
advance_comment (suc fuel) lex =
    elim (second_is (λ d. not (peek_char lex == b'*' && d == b'/')) lex) [
      | true ↦ advance_comment fuel (advance lex)
      | false ↦ lex
    ]

-- The arm of a block comment in `skip_whitespace_and_comments`.
unfoldable pub skip_block_comment : Lexer → Lexer
unfolding advance_comment second_is
skip_block_comment lex =
    let inside = advance (advance lex) in
    let stop = advance_comment (length inside.rest) inside in
    if second_is (λ d. true) stop then advance (advance stop) else stop

-- One turn of the loop of `skip_whitespace_and_comments`, or `none` where it ends.
unfoldable pub skip_step : Lexer → Option Lexer
unfolding peek_char second_is advance_while skip_block_comment
skip_step lex = elim lex.rest [
  | [] ↦ none
  | c ∷ cs ↦
      if is_blank c
      then some (advance lex)
      else if c == b'/' && second_is (λ d. d == b'/') lex
      then some (scan (λ d. not (d == newline)) lex)
      else if c == b'/' && second_is (λ d. d == b'*') lex
      then some (skip_block_comment lex)
      else none
]

-- `skip_whitespace_and_comments`
unfoldable pub skip : ℕ → Lexer → Lexer
unfolding skip_step
skip zero lex = lex
skip (suc fuel) lex = elim (skip_step lex) [ none ↦ lex | some next ↦ skip fuel next ]

abbrev pub in_range : ℕ → ℕ → ℕ → Bool
in_range low high c = leb low c && leb c high

unfoldable pub is_ident_start : ℕ → Bool
is_ident_start c = in_range b'a' b'z' c || (in_range b'A' b'Z' c || c == b'_')

unfoldable pub is_ident_body : ℕ → Bool
unfolding is_ident_start
is_ident_body c = is_ident_start c || (in_range b'0' b'9' c || c == b'.')
