-- ===== src/Parser/Lexer/Position.antt =====
-- The lexer knows its place: the bytes before it, their number, the line and the column.
use nybit.Base.{
  ℕ, zero, suc, ◌+◌, ◌-◌, ◌%◌, ◌^◌, ◌<◌, ◌≤◌, ◌≡◌, ◌∙◌, refl, sym, ap, arith, Bool-cases, inl, inr,
  List, [], ◌∷◌, ◌++◌, length, length-append, ◌==◌, if◌then◌else◌,
}
use nybit.Parser.Lexer.{Lexer, lexer_init, advance, advance_over, newline}
use nybit.Parser.Lexer.Next.{next}
use nybit.Parser.Lexer.Reached.{advance_by}
use nybit.Parser.Lexer.Reached.Tokens.{next-Reached}
use mathlib.Core.List.{append_assoc}

-- The line and the column behind a text that starts at a line and a column.
abbrev pub line_after : List ℕ → ℕ → ℕ
line_after [] line = line
line_after (c ∷ cs) line = line_after cs (if c == newline then line + 1 else line)

abbrev pub col_after : List ℕ → ℕ → ℕ
col_after [] col = col
col_after (c ∷ cs) col = col_after cs (if c == newline then 1 else col + 1)

-- The lexer stands in the source behind the bytes `done`.
pub record IsIn (src : List ℕ) (lex : Lexer) : Type 0 where
  pub before : List ℕ
  pub split : before ++ lex.rest ≡ src
  pub pos : lex.pos ≡ length before
  pub line : lex.line ≡ line_after before 1
  pub col : lex.col ≡ col_after before 1

line_after-append :
    (xs : List ℕ) (c l : ℕ)
    → line_after (xs ++ c ∷ []) l ≡ (if c == newline then line_after xs l + 1 else line_after xs l)
line_after-append [] c l = refl
line_after-append (x ∷ xs) c l = line_after-append xs c _

col_after-append :
    (xs : List ℕ) (c l : ℕ)
    → col_after (xs ++ c ∷ []) l ≡ (if c == newline then 1 else col_after xs l + 1)
col_after-append [] c l = refl
col_after-append (x ∷ xs) c l = col_after-append xs c _

line_after-le : (xs : List ℕ) (l : ℕ) → line_after xs l ≤ l + length xs
line_after-le [] l = omega arith
line_after-le (c ∷ xs) l = elim (Bool-cases (c == newline)) [
  | inl ends ↦ rw ends (let le = line_after-le xs (l + 1) in omega arith)
  | inr same ↦ rw same (let le = line_after-le xs l in omega arith)
]

col_after-le : (xs : List ℕ) (l : ℕ) → col_after xs l ≤ l + 1 + length xs
col_after-le [] l = omega arith
col_after-le (c ∷ xs) l = elim (Bool-cases (c == newline)) [
  | inl ends ↦ rw ends (let le = col_after-le xs 1 in omega arith)
  | inr same ↦ rw same (let le = col_after-le xs (l + 1) in omega arith)
]

-- The source is so short that no `int` overflows.
abbrev pub IsCountable : List ℕ → Type 0
IsCountable src = length src < 2 ^ 31 - 1

before_lt :
    (src before rest : List ℕ) → IsCountable src → before ++ rest ≡ src → length before < 2 ^ 31 - 1
before_lt src before rest short split =
    let whole : length (before ++ rest) ≡ length src = ap length split in
    let parts = length-append before rest in omega arith

advance_over-IsIn :
    (src : List ℕ) (lex : Lexer) (c : ℕ) (cs : List ℕ)
    → IsCountable src
    → lex.rest ≡ c ∷ cs
    → IsIn src lex
    → IsIn src (advance_over c cs lex)
advance_over-IsIn src lex c cs short e h =
    let few = before_lt src h.before lex.rest short h.split in
    let lines = line_after-le h.before 1 in
    let cols = col_after-le h.before 1 in
    let next_line : (line_after h.before 1 + 1) % 2 ^ 32 ≡ line_after h.before 1 + 1 =
      omega arith in
    let next_col : (col_after h.before 1 + 1) % 2 ^ 32 ≡ col_after h.before 1 + 1 = omega arith in
    let split : (h.before ++ c ∷ []) ++ cs ≡ src =
      append_assoc h.before (c ∷ []) cs ∙ (rw e at h.split) in
    let long = length-append h.before (c ∷ []) in
    elim (Bool-cases (c == newline)) [
      | inl ends ↦ rw ends (record {
        before = h.before ++ c ∷ [];
        split = split;
        pos = omega (arith, h.pos, long);
        line = rw (line_after-append h.before c 1, ends, h.line) next_line;
        col = rw (col_after-append h.before c 1, ends) refl;
      })
      | inr same ↦ rw same (record {
        before = h.before ++ c ∷ [];
        split = split;
        pos = omega (arith, h.pos, long);
        line = rw (line_after-append h.before c 1, same, h.line) refl;
        col = rw (col_after-append h.before c 1, same, h.col) next_col;
      })
    ]

advance-IsIn_at :
    (src : List ℕ) (lex : Lexer) (r : List ℕ)
    → IsCountable src
    → lex.rest ≡ r
    → IsIn src lex
    → IsIn src (advance lex)
advance-IsIn_at src lex [] short e h = rw (advance, e) h
advance-IsIn_at src lex (c ∷ cs) short e h =
    rw (advance, e) (advance_over-IsIn src lex c cs short e h)

advance_by-IsIn :
    (src : List ℕ) (k : ℕ) (lex : Lexer)
    → IsCountable src
    → IsIn src lex
    → IsIn src (advance_by k lex)
advance_by-IsIn src zero lex short h = h
advance_by-IsIn src (suc k) lex short h =
    advance_by-IsIn src k (advance lex) short (advance-IsIn_at src lex lex.rest short refl h)

-- Where the lexer stands in a source of less than 2^31 - 1 bytes, with the number of bytes
-- before it, the line and the column right, it does so again behind every token, whatever the C
-- library's `strtoll` and `strtod` return.
pub next-IsIn :
    (strtoll : List ℕ → ℕ → ℕ) (strtod : List ℕ → ℕ) (src : List ℕ) (lex : Lexer)
    → IsCountable src
    → IsIn src lex
    → IsIn src (next strtoll strtod lex).1
next-IsIn strtoll strtod src lex short h =
    let reached = next-Reached strtoll strtod lex in
    rw (sym reached.1) (advance_by-IsIn src reached.0 lex short h)

pub lexer_init-IsIn : (src : List ℕ) → IsIn src (lexer_init src)
unfolding lexer_init
lexer_init-IsIn src = record { before = []; split = refl; pos = refl; line = refl; col = refl }
