-- ===== src/Target/Aarch64/Patch/Starts.antt =====
-- src/target/aarch64/aarch64_encode.c: where the blocks of a function start.
use nybit.Base.{
  ℕ, ◌+◌, ◌*◌, ◌<◌, ◌≤◌, ◌≡◌, ◌≢◌, ◌∙◌, sym, ap, arith, Bool, true, false, Bool-cases, inl, inr,
  some, List, [], ◌∷◌, length, get_elem?, set, ltb, leb, ◌==◌, if◌then◌else◌, All as AllOf,
  get_elem?-set_self, get_elem?-set_ne, lt-length_of_get_elem?,
}
use nybit.Base.Outcome.{Outcome, done, bind_inv}
use nybit.Target.Aarch64.{Instruction, CodeBuffer}
use nybit.Target.Aarch64.Buffer.{append_word, append_word-HasWord}
use nybit.Target.Aarch64.Encode.{encode_word, emit, encode_instruction}
use nybit.Target.Aarch64.Encode.Fields.{Encoding, word, fixed, rejected}
use nybit.Target.Aarch64.Patch.{Block, largest_id, encode_instructions, encode_blocks}

-- The offset of the last block of this id, where the first block starts at `at` and every
-- instruction takes four bytes; `missing` where there is none.
abbrev pub start_of : ℕ → List Block → ℕ → ℕ → ℕ
start_of id [] at missing = missing
start_of id (b ∷ blocks) at missing =
    start_of id blocks (at + 4 * length b.instructions) (if b.id == id then at else missing)

pub emit-length :
    (buf : CodeBuffer) (e : Encoding) {buf1 : CodeBuffer}
    → emit buf e ≡ (buf1, true)
    → length buf1.bytes ≡ length buf.bytes + 4
unfolding emit append_word
emit-length buf (word w) e =
    let same = ap (λ (p : CodeBuffer × Bool). length p.0.bytes) e in
    sym same ∙ (append_word-HasWord buf w).1
emit-length buf (fixed w kind target name) e =
    let same = ap (λ (p : CodeBuffer × Bool). length p.0.bytes) e in
    sym same ∙ (append_word-HasWord buf w).1
emit-length buf rejected e = let flags = ap (λ (p : CodeBuffer × Bool). p.1) e in cc

-- Every accepted instruction is one word.
pub encode_instructions-length :
    (buf : CodeBuffer) (insts : List Instruction) {buf1 : CodeBuffer}
    → encode_instructions buf insts ≡ done (buf1, true)
    → length buf1.bytes ≡ length buf.bytes + 4 * length insts
unfolding encode_instructions encode_instruction
encode_instructions-length buf [] {buf1 = buf1} e =
    let same : buf ≡ buf1 = cc in rw (sym same) (omega arith)
encode_instructions-length buf (inst ∷ insts) {buf1 = buf1} e =
    let first = bind_inv (encode_instruction buf inst) _ e in
    let coded = bind_inv (encode_word inst.opcode inst) _ first.1 in
    let result : emit buf coded.0 ≡ first.0 = let last = coded.2 in cc in
    elim (Bool-cases first.0.1) [
      | inl accepted ↦
          let to : emit buf coded.0 ≡ (first.0.0, true) = result ∙ (λ i. (first.0.0, accepted i)) in
          let one = emit-length buf coded.0 to in
          let rest =
            encode_instructions-length first.0.0 insts {buf1 = buf1} (rw accepted at first.2) in
          omega (arith, one, rest)
      | inr refused ↦
          let r : ◌≡◌ {A = Outcome (CodeBuffer × Bool)} (done first.0) (done (buf1, true)) =
            rw refused at first.2 in
          let pair : ◌≡◌ {A = CodeBuffer × Bool} first.0 (buf1, true) = cc in
          let flag = sym refused ∙ ap (λ (p : CodeBuffer × Bool). p.1) pair in cc
    ]

-- The entry of an id once a block is marked.
marked_at :
    (offsets : List ℕ) (b max_id start id : ℕ) {missing : ℕ}
    → id ≤ max_id
    → get_elem? offsets id ≡ some missing
    → get_elem? (if leb b max_id then set offsets b start else offsets) id
      ≡ some (if b == id then start else missing)
marked_at offsets b max_id start id le known = elim (Bool-cases (b == id)) [
  | inl here ↦
      let same : b ≡ id = ground (arith, here) in
      let inside : leb b max_id ≡ true = ground (arith, here) in
      rw (here, inside, same)
        (get_elem?-set_self offsets id start (lt-length_of_get_elem? offsets id known))
  | inr there ↦
      let ne : b ≢ id = ground (arith, there) in
      elim (Bool-cases (leb b max_id)) [
        | inl inside ↦ rw (there, inside) (get_elem?-set_ne offsets start ne ∙ known)
        | inr outside ↦ rw (there, outside) known
      ]
]

-- The table has the offset of every block.
pub encode_blocks-start_of :
    (max_id : ℕ) (buf : CodeBuffer) (offsets : List ℕ) (blocks : List Block) (id missing : ℕ)
    {buf1 : CodeBuffer} {offsets1 : List ℕ}
    → id ≤ max_id
    → get_elem? offsets id ≡ some missing
    → encode_blocks max_id buf offsets blocks ≡ done (buf1, offsets1, true)
    → get_elem? offsets1 id ≡ some (start_of id blocks (length buf.bytes) missing)
unfolding encode_blocks
encode_blocks-start_of max_id buf offsets [] id missing {buf1 = buf1} {offsets1 = offsets1} le known
      e =
    let same : ◌≡◌ {A = CodeBuffer × List ℕ × Bool} (buf, offsets, true) (buf1, offsets1, true) =
      cc in
    ap (λ (r : CodeBuffer × List ℕ × Bool). get_elem? r.1 id) (sym same) ∙ known
encode_blocks-start_of max_id buf offsets (b ∷ blocks) id missing {buf1 = buf1}
      {offsets1 = offsets1} le known e =
    let start = length buf.bytes in
    let marked = if leb b.id max_id then set offsets b.id start else offsets in
    let first = bind_inv (encode_instructions buf b.instructions) _ e in
    let at = marked_at offsets b.id max_id start id le known in
    elim (Bool-cases first.0.1) [
      | inl accepted ↦
          let to : encode_instructions buf b.instructions ≡ done (first.0.0, true) =
            first.1 ∙ (λ i. done (first.0.0, accepted i)) in
          let size = encode_instructions-length buf b.instructions to in
          let rest =
            encode_blocks-start_of max_id first.0.0 marked blocks id
              (if b.id == id then start else missing) {buf1 = buf1} {offsets1 = offsets1} le at
              (rw accepted at first.2) in
          rest ∙ ap (λ n. some (start_of id blocks n (if b.id == id then start else missing))) size
      | inr refused ↦
          let r : ◌≡◌ {A = Outcome (CodeBuffer × List ℕ × Bool)} (done (first.0.0, marked, false))
              (done (buf1, offsets1, true)) =
            rw refused at first.2 in
          let triple : ◌≡◌ {A = CodeBuffer × List ℕ × Bool} (first.0.0, marked, false)
              (buf1, offsets1, true) =
            cc in
          let flag = ap (λ (p : CodeBuffer × List ℕ × Bool). p.2) triple in cc
    ]

-- The largest id is that of no smaller block.
largest_id-ge : (max_id : ℕ) (blocks : List Block) → max_id ≤ largest_id max_id blocks
largest_id-ge max_id [] = omega arith
largest_id-ge max_id (b ∷ blocks) = elim (Bool-cases (ltb max_id b.id)) [
  | inl above ↦ rw above (let le = largest_id-ge b.id blocks in ground (arith, above, le))
  | inr below ↦ rw below (largest_id-ge max_id blocks)
]

pub largest_id-lt :
    (max_id : ℕ) (blocks : List Block) (id : ℕ)
    → largest_id max_id blocks < id
    → AllOf (λ b. b.id < id) blocks
largest_id-lt max_id [] id above = tt
largest_id-lt max_id (b ∷ blocks) id above =
    let next = if ltb max_id b.id then b.id else max_id in
    let up = largest_id-ge next blocks in
    let most : b.id ≤ next = ground arith in
    (omega (arith, up, most), largest_id-lt next blocks id above)
