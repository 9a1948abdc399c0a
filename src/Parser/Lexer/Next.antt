-- ===== src/Parser/Lexer/Next.antt =====
-- src/parser/lexer.c: `ny_lexer_next`, an arm at a time.
use nybit.Base.{
  ℕ, zero, suc, ◌-◌, Bool, true, false, ◌&&◌, ◌||◌, not, Option, none, some, List, [], ◌∷◌, length,
  ◌==◌, if◌then◌else◌,
}
use nybit.Parser.Lexer.{
  Lexer, advance, newline, peek_char, second_is, advance_while, scan, skip, in_range,
  is_ident_start, is_ident_body,
}

pub data TokenKind : Type 0 where
  eof directive ident value block_label int float string colon semicolon double_semicolon comma :
      TokenKind
  arrow equal lparen rparen lbracket rbracket lbrace rbrace : TokenKind

pub record Token : Type 0 where
  pub kind : TokenKind
  pub text : List ℕ
  pub int_val : ℕ
  pub float_val : ℕ
  pub line : ℕ
  pub col : ℕ

abbrev pub take : ℕ → List ℕ → List ℕ
take zero xs = []
take (suc n) [] = []
take (suc n) (x ∷ xs) = x ∷ take n xs

-- The bytes of the source from the one state to the other.
abbrev pub slice : Lexer → Lexer → List ℕ
slice start stop = take (stop.pos - start.pos) start.rest

-- A token without a number's value, at the place of `lex`.
abbrev pub token : TokenKind → List ℕ → Lexer → Token
token kind text lex = record {
  kind = kind;
  text = text;
  int_val = 0;
  float_val = 0;
  line = lex.line;
  col = lex.col;
}

-- The `switch` over single characters
unfoldable pub single_char : ℕ → Option TokenKind
single_char c =
    if c == b':'
    then some TokenKind.colon
    else if c == b','
    then some TokenKind.comma
    else if c == b'='
    then some TokenKind.equal
    else if c == b'('
    then some TokenKind.lparen
    else if c == b')'
    then some TokenKind.rparen
    else if c == b'['
    then some TokenKind.lbracket
    else if c == b']'
    then some TokenKind.rbracket
    else if c == b'{'
    then some TokenKind.lbrace
    else if c == b'}'
    then some TokenKind.rbrace
    else none

unfoldable pub lex_semicolon : Lexer → Token × Lexer
unfolding peek_char
lex_semicolon lex =
    let after = advance lex in
    if peek_char after == b';'
    then (token TokenKind.double_semicolon (b';' ∷ b';' ∷ []) lex, advance after)
    else (token TokenKind.semicolon (b';' ∷ []) lex, after)

-- The arms of `@name`, `%name` and `.name`.
unfoldable pub lex_sigil : TokenKind → Lexer → Token × Lexer
unfolding advance_while is_ident_body
lex_sigil kind lex =
    let start = advance lex in
    let stop = scan is_ident_body start in (token kind (slice start stop) lex, stop)

unfoldable pub lex_ident : Lexer → Token × Lexer
unfolding advance_while is_ident_body
lex_ident lex =
    let stop = scan is_ident_body lex in (token TokenKind.ident (slice lex stop) lex, stop)

abbrev pub is_digit : ℕ → Bool
is_digit = in_range b'0' b'9'

abbrev pub is_hex_digit : ℕ → Bool
is_hex_digit c = is_digit c || (in_range b'a' b'f' c || in_range b'A' b'F' c)

-- The loop over the digits of a decimal number; the flag is `is_float`.
unfoldable pub advance_number : ℕ → Bool → Lexer → Lexer × Bool
unfolding second_is
advance_number zero is_float lex = (lex, is_float)
advance_number (suc fuel) is_float lex = elim lex.rest [
  | [] ↦ (lex, is_float)
  | c ∷ cs ↦ elim (is_digit c) [
    | true ↦ advance_number fuel is_float (advance lex)
    | false ↦ elim (c == b'.' && (not is_float && second_is is_digit lex)) [
      | true ↦ advance_number fuel true (advance lex)
      | false ↦ (lex, is_float)
    ]
  ]
]

-- The loop over a string, up to the closing quote, the end of the line, or the end.
unfoldable pub advance_string : ℕ → Lexer → Lexer
unfolding second_is
advance_string zero lex = lex
advance_string (suc fuel) lex = elim lex.rest [
  | [] ↦ lex
  | c ∷ cs ↦ elim (c == 34) [
    | true ↦ lex
    | false ↦ elim (c == 92 && second_is (λ d. true) lex) [
      | true ↦ advance_string fuel (advance (advance lex))
      | false ↦ elim (c == newline) [ true ↦ lex | false ↦ advance_string fuel (advance lex) ]
    ]
  ]
]

unfoldable pub lex_string : Lexer → Token × Lexer
unfolding advance_string peek_char
lex_string lex =
    let start = advance lex in
    let stop = advance_string (length start.rest) start in
    (
      token TokenKind.string (slice start stop) lex,
      if peek_char stop == 34 then advance stop else stop,
    )

-- `strtoll` and `strtod` of the C library, on the source from the number on: the patterns of the
-- values they return.
module _ (strtoll : List ℕ → ℕ → ℕ) (strtod : List ℕ → ℕ) where
  unfoldable pub lex_number : Lexer → ℕ → Token × Lexer
  unfolding advance_while advance_number peek_char
  lex_number lex c =
      let after = advance lex in
      if c == b'0' && (peek_char after == b'x' || peek_char after == b'X')
      then (let stop = scan is_hex_digit (advance after) in
          (
            record (token TokenKind.int (slice lex stop) lex) { int_val = strtoll lex.rest 0 },
            stop,
          ))
      else (let stop = advance_number (length after.rest) false after in
          if stop.1
          then (
            record (token TokenKind.float (slice lex stop.0) lex) { float_val = strtod lex.rest },
            stop.0,
          )
          else (
            record (token TokenKind.int (slice lex stop.0) lex) { int_val = strtoll lex.rest 10 },
            stop.0,
          ))

  -- The rest of `ny_lexer_next`, at a character that is no punctuation.
  unfoldable pub lex_word : Lexer → ℕ → Token × Lexer
  unfolding lex_sigil lex_number lex_ident lex_string second_is is_ident_start
  lex_word lex c =
      if c == b'@'
      then lex_sigil TokenKind.directive lex
      else if c == b'%'
      then lex_sigil TokenKind.value lex
      else if c == b'.'
      then lex_sigil TokenKind.block_label lex
      else if is_digit c || (c == b'-' && second_is is_digit lex)
      then lex_number lex c
      else if is_ident_start c
      then lex_ident lex
      else if c == 34
      then lex_string lex
      else (token TokenKind.eof [] lex, advance lex)

  unfoldable pub lex_at : Lexer → ℕ → Token × Lexer
  unfolding lex_semicolon lex_word single_char second_is
  lex_at lex c =
      if c == b';'
      then lex_semicolon lex
      else if c == b'-' && second_is (λ d. d == b'>') lex
      then (token TokenKind.arrow (b'-' ∷ b'>' ∷ []) lex, advance (advance lex))
      else (elim (single_char c) [
        | some kind ↦ (token kind (c ∷ []) lex, advance lex)
        | none ↦ lex_word lex c
      ])

  -- `ny_lexer_next`
  unfoldable pub next : Lexer → Token × Lexer
  unfolding skip lex_at
  next before =
      let lex = skip (length before.rest) before in
      elim lex.rest [ [] ↦ (token TokenKind.eof [] lex, lex) | c ∷ cs ↦ lex_at lex c ]
