-- ===== src/Parser/Lexer/Reached/Tokens.antt =====
-- The lexer behind a token is one that it reaches.
use nybit.Base.{ℕ, false, none, some, List, [], ◌∷◌, length, ◌==◌, ◌&&◌, ◌||◌}
use nybit.Parser.Lexer.{Lexer, advance, peek_char, second_is, skip, is_ident_start, is_ident_body}
use nybit.Parser.Lexer.Next.{
  Token, TokenKind, lex_semicolon, lex_sigil, lex_ident, advance_number, advance_string, lex_string,
  lex_number, lex_word, lex_at, single_char, next, is_digit, is_hex_digit, token,
}
use nybit.Parser.Lexer.Reached.{
  Reached, Reached-refl, Reached-trans, Reached-step, Reached-once, Reached-twice, if-holds,
  if-Reached, scan-Reached, skip-Reached, advance_number-Reached, advance_string-Reached,
}

-- The lexer behind the token is reached.
abbrev Behind : Lexer → Token × Lexer → Type 0
Behind lex result = Reached lex result.1

lex_semicolon-Reached : (lex : Lexer) → Reached lex (lex_semicolon lex).1
unfolding lex_semicolon
lex_semicolon-Reached lex =
    if-holds (Behind lex) (peek_char (advance lex) == b';') (Reached-twice lex) (Reached-once lex)

lex_sigil-Reached : (kind : TokenKind) (lex : Lexer) → Reached lex (lex_sigil kind lex).1
unfolding lex_sigil
lex_sigil-Reached kind lex = Reached-step (scan-Reached is_ident_body (advance lex))

lex_ident-Reached : (lex : Lexer) → Reached lex (lex_ident lex).1
unfolding lex_ident
lex_ident-Reached lex = scan-Reached is_ident_body lex

lex_string-Reached : (lex : Lexer) → Reached lex (lex_string lex).1
unfolding lex_string
lex_string-Reached lex =
    let start = advance lex in
    let stop = advance_string (length start.rest) start in
    let reached = Reached-step {a = lex} (advance_string-Reached (length start.rest) start) in
    if-Reached (peek_char stop == 34) (Reached-trans reached (Reached-once stop)) reached

module _ (strtoll : List ℕ → ℕ → ℕ) (strtod : List ℕ → ℕ) where
  lex_number-Reached : (lex : Lexer) (c : ℕ) → Reached lex (lex_number strtoll strtod lex c).1
  unfolding lex_number
  lex_number-Reached lex c =
      let after = advance lex in
      let stop = advance_number (length after.rest) false after in
      let reached =
        Reached-step {a = lex} (advance_number-Reached (length after.rest) false after) in
      if-holds (Behind lex) (c == b'0' && (peek_char after == b'x' || peek_char after == b'X'))
        (Reached-trans (Reached-twice lex) (scan-Reached is_hex_digit (advance after)))
        (if-holds (Behind lex) stop.1 reached reached)

  lex_word-Reached : (lex : Lexer) (c : ℕ) → Reached lex (lex_word strtoll strtod lex c).1
  unfolding lex_word
  lex_word-Reached lex c =
      if-holds (Behind lex) (c == b'@') (lex_sigil-Reached TokenKind.directive lex) (
        if-holds (Behind lex) (c == b'%') (lex_sigil-Reached TokenKind.value lex) (
          if-holds (Behind lex) (c == b'.') (lex_sigil-Reached TokenKind.block_label lex) (
            if-holds (Behind lex) (is_digit c || (c == b'-' && second_is is_digit lex))
              (lex_number-Reached lex c)
              (if-holds (Behind lex) (is_ident_start c) (lex_ident-Reached lex)
                (if-holds (Behind lex) (c == 34) (lex_string-Reached lex) (Reached-once lex))))))

  lex_at-Reached : (lex : Lexer) (c : ℕ) → Reached lex (lex_at strtoll strtod lex c).1
  unfolding lex_at
  lex_at-Reached lex c = if-holds (Behind lex) (c == b';') (lex_semicolon-Reached lex) (
      if-holds (Behind lex) (c == b'-' && second_is (λ d. d == b'>') lex) (Reached-twice lex)
        (elim (single_char c)
          as (λ o. Behind lex (elim o as (λ s. Token × Lexer) [
            | some kind ↦ (token kind (c ∷ []) lex, advance lex)
            | none ↦ lex_word strtoll strtod lex c
          ])) [ some kind ↦ Reached-once lex | none ↦ lex_word-Reached lex c ]))

  pub next-Reached : (lex : Lexer) → Reached lex (next strtoll strtod lex).1
  unfolding next
  next-Reached before =
      let lex = skip (length before.rest) before in
      Reached-trans (skip-Reached (length before.rest) before)
        (elim lex.rest
          as (λ r. Behind lex (elim r as (λ s. Token × Lexer) [
            | [] ↦ (token TokenKind.eof [] lex, lex)
            | c ∷ cs ↦ lex_at strtoll strtod lex c
          ])) [ [] ↦ Reached-refl lex | c ∷ cs ↦ lex_at-Reached lex c ])
