-- ===== src/Parser/Lexer/Reached.antt =====
-- Every operation of the lexer moves it over some bytes, one `advance_char` at a time.
pub mod Tokens
use nybit.Base.{
  ℕ, zero, suc, ◌+◌, ◌≡◌, ◌∙◌, refl, sym, ap, arith, Bool, true, false, Bool-cases, Option-cases,
  Option, none, some, inl, inr, List, [], ◌∷◌, length, not, ◌==◌, ◌&&◌, ◌||◌, if◌then◌else◌,
}
use nybit.Parser.Lexer.{
  Lexer, advance, newline, peek_char, second_is, advance_while, scan, skip, skip_step,
  advance_comment, skip_block_comment, is_blank, is_ident_start, is_ident_body,
}
use nybit.Parser.Lexer.Next.{
  Token, TokenKind, lex_semicolon, lex_sigil, lex_ident, advance_number, advance_string, lex_string,
  lex_number, lex_word, lex_at, single_char, next, is_digit, is_hex_digit, token,
}

abbrev pub advance_by : ℕ → Lexer → Lexer
advance_by zero lex = lex
advance_by (suc k) lex = advance_by k (advance lex)

-- The lexer comes to the second state by `advance_char` alone.
abbrev pub Reached : Lexer → Lexer → Type 0
Reached start stop = (k : ℕ) × (advance_by k start ≡ stop)

pub Reached-refl : (lex : Lexer) → Reached lex lex
Reached-refl lex = (0, refl)

advance_by-advance_by :
    (k m : ℕ) (lex : Lexer) → advance_by m (advance_by k lex) ≡ advance_by (k + m) lex
advance_by-advance_by zero m lex = let e : 0 + m ≡ m = omega arith in rw e refl
advance_by-advance_by (suc k) m lex =
    let e : suc k + m ≡ suc (k + m) = omega arith in rw e (advance_by-advance_by k m (advance lex))

pub Reached-trans : {a b c : Lexer} → Reached a b → Reached b c → Reached a c
Reached-trans {a = a} first second = (
  first.0 + second.0,
  sym (advance_by-advance_by first.0 second.0 a) ∙ ap (advance_by second.0) first.1 ∙ second.1,
)

pub Reached-step : {a b : Lexer} → Reached (advance a) b → Reached a b
Reached-step r = (suc r.0, r.1)

pub Reached-once : (a : Lexer) → Reached a (advance a)
Reached-once a = (1, refl)

pub Reached-twice : (a : Lexer) → Reached a (advance (advance a))
Reached-twice a = (2, refl)

pub if-holds {ℓ κ} :
    {A : Type ℓ} (P : A → Type κ) (b : Bool) {x y : A} → P x → P y → P (if b then x else y)
if-holds P true hx hy = hx
if-holds P false hx hy = hy

pub if-Reached :
    {a x y : Lexer} (b : Bool) → Reached a x → Reached a y → Reached a (if b then x else y)
if-Reached true hx hy = hx
if-Reached false hx hy = hy

module _ (p : ℕ → Bool) where
  advance_while-Reached : (fuel : ℕ) (lex : Lexer) → Reached lex (advance_while p fuel lex)
  unfolding advance_while
  advance_while-Reached zero lex = Reached-refl lex
  advance_while-Reached (suc fuel) lex =
      elim lex.rest
        as (λ r. Reached lex (elim r [
          | [] ↦ lex
          | c ∷ cs ↦ elim (p c) [ true ↦ advance_while p fuel (advance lex) | false ↦ lex ]
        ])) [
          | [] ↦ Reached-refl lex
          | c ∷ cs ↦ elim (Bool-cases (p c)) [
            | inl more ↦ rw more (Reached-step (advance_while-Reached fuel (advance lex)))
            | inr over ↦ rw over (Reached-refl lex)
          ]
        ]

  pub scan-Reached : (lex : Lexer) → Reached lex (scan p lex)
  scan-Reached lex = advance_while-Reached (length lex.rest) lex

advance_comment-Reached : (fuel : ℕ) (lex : Lexer) → Reached lex (advance_comment fuel lex)
unfolding advance_comment
advance_comment-Reached zero lex = Reached-refl lex
advance_comment-Reached (suc fuel) lex =
    elim (Bool-cases (second_is (λ d. not (peek_char lex == b'*' && d == b'/')) lex)) [
      | inl more ↦
          rw (advance_comment, more) (Reached-step (advance_comment-Reached fuel (advance lex)))
      | inr over ↦ rw (advance_comment, over) (Reached-refl lex)
    ]

skip_block_comment-Reached : (lex : Lexer) → Reached lex (skip_block_comment lex)
unfolding skip_block_comment
skip_block_comment-Reached lex =
    let inside = advance (advance lex) in
    let stop = advance_comment (length inside.rest) inside in
    let reached =
      Reached-trans (Reached-twice lex) (advance_comment-Reached (length inside.rest) inside) in
    if-Reached (second_is (λ d. true) stop) (Reached-trans reached (Reached-twice stop)) reached

-- A turn of the loop over blanks and comments, where there is one, ends in a state that is reached.
abbrev Turn : Lexer → Option Lexer → Type 0
Turn lex none = Unit {0}
Turn lex (some next) = Reached lex next

skip_step-Turn : (lex : Lexer) → Turn lex (skip_step lex)
unfolding skip_step
skip_step-Turn lex =
    elim lex.rest
      as (λ r. Turn lex (elim r as (λ s. Option Lexer) [
        | [] ↦ none
        | c ∷ cs ↦
            if is_blank c
            then some (advance lex)
            else if c == b'/' && second_is (λ d. d == b'/') lex
            then some (scan (λ d. not (d == newline)) lex)
            else if c == b'/' && second_is (λ d. d == b'*') lex
            then some (skip_block_comment lex)
            else none
      ])) [
        | [] ↦ tt
        | c ∷ cs ↦ if-holds (Turn lex) (is_blank c) (Reached-once lex) (
            if-holds (Turn lex) (c == b'/' && second_is (λ d. d == b'/') lex)
              (scan-Reached (λ d. not (d == newline)) lex)
              (if-holds (Turn lex) (c == b'/' && second_is (λ d. d == b'*') lex)
                (skip_block_comment-Reached lex) tt))
      ]

pub skip-Reached : (fuel : ℕ) (lex : Lexer) → Reached lex (skip fuel lex)
unfolding skip
skip-Reached zero lex = Reached-refl lex
skip-Reached (suc fuel) lex = elim (Option-cases (skip_step lex)) [
  | inl over ↦ rw (skip, over) (Reached-refl lex)
  | inr more ↦
      let turn = skip_step-Turn lex in
      let reached : Reached lex more.0 = rw more.1 at turn in
      rw (skip, more.1) (Reached-trans reached (skip-Reached fuel more.0))
]

pub advance_number-Reached :
    (fuel : ℕ) (is_float : Bool) (lex : Lexer) → Reached lex (advance_number fuel is_float lex).0
unfolding advance_number
advance_number-Reached zero is_float lex = Reached-refl lex
advance_number-Reached (suc fuel) is_float lex =
    elim lex.rest
      as (λ r.
        Reached lex
          (elim r as (λ s. Lexer × Bool) [
            | [] ↦ (lex, is_float)
            | c ∷ cs ↦ elim (is_digit c) as (λ s. Lexer × Bool) [
              | true ↦ advance_number fuel is_float (advance lex)
              | false ↦
                  elim (c == b'.' && (not is_float && second_is is_digit lex))
                    as (λ s. Lexer × Bool) [
                      | true ↦ advance_number fuel true (advance lex)
                      | false ↦ (lex, is_float)
                    ]
            ]
          ]).0) [
            | [] ↦ Reached-refl lex
            | c ∷ cs ↦ elim (Bool-cases (is_digit c)) [
              | inl digit ↦
                  rw digit (Reached-step (advance_number-Reached fuel is_float (advance lex)))
              | inr other ↦
                  elim (Bool-cases (c == b'.' && (not is_float && second_is is_digit lex))) [
                    | inl dot ↦
                        rw (other, dot)
                          (Reached-step (advance_number-Reached fuel true (advance lex)))
                    | inr over ↦ rw (other, over) (Reached-refl lex)
                  ]
            ]
          ]

pub advance_string-Reached : (fuel : ℕ) (lex : Lexer) → Reached lex (advance_string fuel lex)
unfolding advance_string
advance_string-Reached zero lex = Reached-refl lex
advance_string-Reached (suc fuel) lex =
    elim lex.rest
      as (λ r. Reached lex (elim r as (λ s. Lexer) [
        | [] ↦ lex
        | c ∷ cs ↦ elim (c == 34) as (λ s. Lexer) [
          | true ↦ lex
          | false ↦ elim (c == 92 && second_is (λ d. true) lex) as (λ s. Lexer) [
            | true ↦ advance_string fuel (advance (advance lex))
            | false ↦ elim (c == newline) as (λ s. Lexer) [
              | true ↦ lex
              | false ↦ advance_string fuel (advance lex)
            ]
          ]
        ]
      ])) [
        | [] ↦ Reached-refl lex
        | c ∷ cs ↦ elim (Bool-cases (c == 34)) [
          | inl quote ↦ rw quote (Reached-refl lex)
          | inr other ↦ elim (Bool-cases (c == 92 && second_is (λ d. true) lex)) [
            | inl escape ↦
                rw (other, escape)
                  (Reached-step
                    (Reached-step (advance_string-Reached fuel (advance (advance lex)))))
            | inr plain ↦ elim (Bool-cases (c == newline)) [
              | inl ends ↦ rw (other, plain, ends) (Reached-refl lex)
              | inr more ↦
                  rw (other, plain, more) (Reached-step (advance_string-Reached fuel (advance lex)))
            ]
          ]
        ]
      ]
