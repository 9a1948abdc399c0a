-- ===== src/Target/Aarch64/Buffer.antt =====
-- src/target/aarch64/aarch64_encode.c: words in the code buffer, and their fields.
use nybit.Base.{
  ℕ, suc, ◌+◌, ◌*◌, ◌/◌, ◌%◌, ◌^◌, ◌≤◌, ◌<◌, ◌≡◌, ◌≢◌, ◌∙◌, refl, sym, ap, arith, true, ◌||◌, none,
  some, List, [], ◌∷◌, ◌++◌, length, get_elem?, set, ltb, leb, bit_or, get_elem?-set_self,
  get_elem?-set_ne, length-set, length-append, get_elem?-of_lt,
}
use nybit.Base.Bits.{or_fields_swapped}
use nybit.Base.Outcome.{Outcome, done, faulted, ◌>>=◌}
use nybit.Ir.Function.{write, write_found}
use nybit.Target.Aarch64.{CodeBuffer}

-- The four bytes of a word, the lowest first.
abbrev pub word_bytes : ℕ → List ℕ
word_bytes word =
    word % 2 ^ 8 ∷ word / 2 ^ 8 % 2 ^ 8 ∷ word / 2 ^ 16 % 2 ^ 8 ∷ word / 2 ^ 24 % 2 ^ 8 ∷ []

-- `aarch64_buf_append_word`
unfoldable pub append_word : CodeBuffer → ℕ → CodeBuffer
append_word buf word = record buf { bytes = buf.bytes ++ word_bytes word }

abbrev pub byte_at : List ℕ → ℕ → Outcome ℕ
byte_at bytes i = elim (get_elem? bytes i) [ none ↦ faulted | some b ↦ done b ]

-- `read_word`
unfoldable pub read_word : List ℕ → ℕ → Outcome ℕ
read_word bytes offset = byte_at bytes offset >>= (λ b0. byte_at bytes (offset + 1) >>= (λ b1.
    byte_at bytes (offset + 2) >>= (λ b2.
      byte_at bytes (offset + 3)
      >>= (λ b3. done (bit_or (bit_or (bit_or b0 (b1 * 2 ^ 8)) (b2 * 2 ^ 16)) (b3 * 2 ^ 24))))))

-- `patch_word`
unfoldable pub patch_word : List ℕ → ℕ → ℕ → Outcome (List ℕ)
patch_word bytes offset word = write bytes (offset + 0) (λ b. word % 2 ^ 8) >>= (λ s0.
    write s0 (offset + 1) (λ b. word / 2 ^ 8 % 2 ^ 8) >>= (λ s1.
      write s1 (offset + 2) (λ b. word / 2 ^ 16 % 2 ^ 8)
      >>= (λ s2. write s2 (offset + 3) (λ b. word / 2 ^ 24 % 2 ^ 8))))

-- The bytes from `offset` on are those of the word.
pub record HasWord (bytes : List ℕ) (offset word : ℕ) : Type 0 where
  pub byte0 : get_elem? bytes offset ≡ some (word % 2 ^ 8)
  pub byte1 : get_elem? bytes (offset + 1) ≡ some (word / 2 ^ 8 % 2 ^ 8)
  pub byte2 : get_elem? bytes (offset + 2) ≡ some (word / 2 ^ 16 % 2 ^ 8)
  pub byte3 : get_elem? bytes (offset + 3) ≡ some (word / 2 ^ 24 % 2 ^ 8)

joined :
    (w : ℕ)
    → w < 2 ^ 32
    → bit_or
        (bit_or (bit_or (w % 2 ^ 8) (w / 2 ^ 8 % 2 ^ 8 * 2 ^ 8)) (w / 2 ^ 16 % 2 ^ 8 * 2 ^ 16))
        (w / 2 ^ 24 % 2 ^ 8 * 2 ^ 24)
      ≡ w
joined w small =
    rw
      (
        or_fields_swapped 8 {low = w % 2 ^ 8} (w / 2 ^ 8 % 2 ^ 8) (omega arith),
        or_fields_swapped 16 {low = w % 2 ^ 8 + w / 2 ^ 8 % 2 ^ 8 * 2 ^ 8} (w / 2 ^ 16 % 2 ^ 8)
            (omega arith),
        or_fields_swapped 24
            {low = w % 2 ^ 8 + w / 2 ^ 8 % 2 ^ 8 * 2 ^ 8 + w / 2 ^ 16 % 2 ^ 8 * 2 ^ 16}
            (w / 2 ^ 24 % 2 ^ 8) (omega arith),
      )
      (omega arith)

-- Reading gives back the word that stands there.
pub read_word-HasWord :
    {bytes : List ℕ} (offset word : ℕ)
    → word < 2 ^ 32
    → HasWord bytes offset word
    → read_word bytes offset ≡ done word
unfolding read_word
read_word-HasWord offset word small h =
    rw (read_word, byte_at, h.byte0, h.byte1, h.byte2, h.byte3) (ap done (joined word small))

-- The bytes outside the word at `offset` are the same.
abbrev pub SameOutside : List ℕ → ℕ → List ℕ → Type 0
SameOutside bytes offset bytes1 =
    (j : ℕ) → (ltb j offset || leb (offset + 4) j) ≡ true → get_elem? bytes1 j ≡ get_elem? bytes j

-- A patch inside the buffer writes the word and nothing else.
pub record IsPatched (bytes : List ℕ) (offset word : ℕ) (bytes1 : List ℕ) : Type 0 where
  pub written : HasWord bytes1 offset word
  pub size : length bytes1 ≡ length bytes
  pub others : SameOutside bytes offset bytes1

write-inside :
    (bytes : List ℕ) (i b : ℕ) → i < length bytes → write bytes i (λ old. b) ≡ done (set bytes i b)
write-inside bytes i b h = let at = get_elem?-of_lt bytes i h in write_found bytes i (λ old. b) at.1

-- A patch of a word that lies inside the buffer succeeds, writes the four bytes of the word,
-- lowest first, keeps the length, and leaves all other bytes as they are.
pub patch_word-IsPatched :
    (bytes : List ℕ) (offset word : ℕ)
    → offset + 4 ≤ length bytes
    → (bytes1 : List ℕ) × (patch_word bytes offset word ≡ done bytes1)
      × IsPatched bytes offset word bytes1
unfolding patch_word
patch_word-IsPatched bytes offset word inside =
    let b0 = word % 2 ^ 8 in
    let b1 = word / 2 ^ 8 % 2 ^ 8 in
    let b2 = word / 2 ^ 16 % 2 ^ 8 in
    let b3 = word / 2 ^ 24 % 2 ^ 8 in
    let s0 = set bytes (offset + 0) b0 in
    let s1 = set s0 (offset + 1) b1 in
    let s2 = set s1 (offset + 2) b2 in
    let s3 = set s2 (offset + 3) b3 in
    let n0 : length s0 ≡ length bytes = length-set bytes (offset + 0) b0 in
    let n1 : length s1 ≡ length bytes = length-set s0 (offset + 1) b1 ∙ n0 in
    let n2 : length s2 ≡ length bytes = length-set s1 (offset + 2) b2 ∙ n1 in
    let zero_off : offset + 0 ≡ offset = omega arith in
    let past0 = λ (j : ℕ) (ne : offset + 0 ≢ j). get_elem?-set_ne bytes b0 ne in
    let past1 = λ (j : ℕ) (ne : offset + 1 ≢ j). get_elem?-set_ne s0 b1 ne in
    let past2 = λ (j : ℕ) (ne : offset + 2 ≢ j). get_elem?-set_ne s1 b2 ne in
    let past3 = λ (j : ℕ) (ne : offset + 3 ≢ j). get_elem?-set_ne s2 b3 ne in
    (
      s3,
      rw
          (
            write-inside bytes (offset + 0) b0 (omega arith),
            write-inside s0 (offset + 1) b1 (omega arith),
            write-inside s1 (offset + 2) b2 (omega arith),
            write-inside s2 (offset + 3) b3 (omega arith),
          )
          refl,
      record {
        written = record {
          byte0 =
              past3 offset (omega arith)
              ∙ past2 offset (omega arith)
              ∙ past1 offset (omega arith)
              ∙ ap (λ k. get_elem? s0 k) (sym zero_off)
              ∙ get_elem?-set_self bytes (offset + 0) b0 (omega arith);
          byte1 =
              past3 (offset + 1) (omega arith)
              ∙ past2 (offset + 1) (omega arith)
              ∙ get_elem?-set_self s0 (offset + 1) b1 (omega arith);
          byte2 =
              past3 (offset + 2) (omega arith)
              ∙ get_elem?-set_self s1 (offset + 2) b2 (omega arith);
          byte3 = get_elem?-set_self s2 (offset + 3) b3 (omega arith);
        };
        size = length-set s2 (offset + 3) b3 ∙ n2;
        others = λ j outside.
            past3 j (λ e. ground (arith, outside, e))
            ∙ past2 j (λ e. ground (arith, outside, e))
            ∙ past1 j (λ e. ground (arith, outside, e))
            ∙ past0 j (λ e. ground (arith, outside, e));
      },
    )

append_at :
    (xs : List ℕ) (a b c d : ℕ)
    → (get_elem? (xs ++ a ∷ b ∷ c ∷ d ∷ []) (length xs) ≡ some a)
      × (get_elem? (xs ++ a ∷ b ∷ c ∷ d ∷ []) (suc (length xs)) ≡ some b)
      × (get_elem? (xs ++ a ∷ b ∷ c ∷ d ∷ []) (suc (suc (length xs))) ≡ some c)
      × (get_elem? (xs ++ a ∷ b ∷ c ∷ d ∷ []) (suc (suc (suc (length xs)))) ≡ some d)
append_at [] a b c d = (refl, refl, refl, refl)
append_at (x ∷ xs) a b c d = append_at xs a b c d

-- An appended word stands behind what was there, which stays.
pub append_word-HasWord :
    (buf : CodeBuffer) (word : ℕ)
    → HasWord (append_word buf word).bytes (length buf.bytes) word
      × (length (append_word buf word).bytes ≡ length buf.bytes + 4)
unfolding append_word
append_word-HasWord buf word =
    let n = length buf.bytes in
    let at =
      append_at buf.bytes (word % 2 ^ 8) (word / 2 ^ 8 % 2 ^ 8) (word / 2 ^ 16 % 2 ^ 8)
        (word / 2 ^ 24 % 2 ^ 8) in
    let e1 : n + 1 ≡ suc n = omega arith in
    let e2 : n + 2 ≡ suc (suc n) = omega arith in
    let e3 : n + 3 ≡ suc (suc (suc n)) = omega arith in
    (
      record { byte0 = at.0; byte1 = rw e1 at.1; byte2 = rw e2 at.2; byte3 = rw e3 at.3 },
      length-append buf.bytes (word_bytes word),
    )
