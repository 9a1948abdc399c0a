-- ===== src/Target/Aarch64/Patch/Whole.antt =====
-- `aarch64_encode_function` of src/target/aarch64/aarch64_encode.c: the branches of a whole function.
use nybit.Base.{
  ℕ, zero, suc, ◌+◌, ◌%◌, ◌^◌, ◌<◌, ◌≤◌, ◌≡◌, ◌≢◌, ◌∙◌, refl, sym, ap, subst, arith, Bool, true,
  false, Bool-cases, inl, inr, some, List, [], ◌∷◌, length, get_elem?, set, leb, ◌==◌,
  if◌then◌else◌, All as AllOf, length-set, get_elem?-set_self, get_elem?-set_ne,
  lt-length_of_get_elem?,
}
use nybit.Base.Outcome.{Outcome, done, ◌>>=◌, bind_inv}
use nybit.Analysis.UseDef.{replicate}
use nybit.Analysis.Cfg.Reach.{IsListed}
use nybit.Target.Aarch64.{Fixup, CodeBuffer}
use nybit.Target.Aarch64.Patch.{
  Block, largest_id, drop, encode_instructions, encode_blocks, apply_fixups, encode_function,
}
use nybit.Target.Aarch64.Patch.Placed.{Ascending, HasOffsets, Placed, IsTooFar}
use nybit.Target.Aarch64.Patch.All.{finished, too_far, apply_fixups-Finished}
use nybit.Target.Aarch64.Patch.Emit.{Between, Emitted, encode_instructions-Emitted}
use nybit.Target.Aarch64.Patch.Branches.{HasBranches}
use nybit.Target.Aarch64.Patch.Gained.{encode_blocks-HasBranches, drop-append, append_nil}
use nybit.Target.Aarch64.Patch.Starts.{start_of, encode_blocks-start_of, largest_id-lt}

-- The offsets are multiples of four up to `hi`.
abbrev Multiples : List ℕ → ℕ → Type 0
Multiples offsets hi = (b t : ℕ) → get_elem? offsets b ≡ some t → (t ≤ hi) × (t % 4 ≡ 0)

Multiples-set :
    (offsets : List ℕ) (b hi : ℕ)
    → hi % 4 ≡ 0
    → Multiples offsets hi
    → Multiples (set offsets b hi) hi
Multiples-set offsets b hi aligned h c t e = elim (Bool-cases (b == c)) [
  | inl here ↦
      let same : b ≡ c = ground (arith, here) in
      let e1 : get_elem? (set offsets c hi) c ≡ some t = rw same at e in
      let small : c < length offsets =
        rw (length-set offsets c hi) at (lt-length_of_get_elem? (set offsets c hi) c e1) in
      let both = sym (get_elem?-set_self offsets c hi small) ∙ e1 in
      let is_t : hi ≡ t = cc in (omega arith, ap (λ (k : ℕ). k % 4) (sym is_t) ∙ aligned)
  | inr there ↦
      let ne : b ≢ c = ground (arith, there) in h c t (sym (get_elem?-set_ne offsets hi ne) ∙ e)
]

Multiples-replicate : (n hi : ℕ) → Multiples (replicate n 0) hi
Multiples-replicate zero hi b t e = cc
Multiples-replicate (suc n) hi zero t e = let z : ◌≡◌ {A = ℕ} 0 t = cc in (omega arith, omega arith)
Multiples-replicate (suc n) hi (suc b) t e = Multiples-replicate n hi b t e

get_elem?-replicate : (n i : ℕ) → i < n → get_elem? {A = ℕ} (replicate n 0) i ≡ some 0
get_elem?-replicate zero i lt = absurd (omega arith)
get_elem?-replicate (suc n) zero lt = refl
get_elem?-replicate (suc n) (suc i) lt = get_elem?-replicate n i (omega arith)

-- The state after the blocks so far.
record Laid (start : ℕ) (old : List Fixup) (buf : CodeBuffer) (offsets : List ℕ) : Type 0 where
  fixups : List Fixup
  emitted : Emitted start old buf fixups
  multiples : Multiples offsets (length buf.bytes)

encode_blocks-Laid :
    (start : ℕ) (old : List Fixup) (max_id : ℕ) (buf : CodeBuffer) (offsets : List ℕ)
    (blocks : List Block) {buf1 : CodeBuffer} {offsets1 : List ℕ}
    → Laid start old buf offsets
    → encode_blocks max_id buf offsets blocks ≡ done (buf1, offsets1, true)
    → Laid start old buf1 offsets1
unfolding encode_blocks
encode_blocks-Laid start old max_id buf offsets [] {buf1 = buf1} {offsets1 = offsets1} h e =
    let same : ◌≡◌ {A = CodeBuffer × List ℕ × Bool} (buf, offsets, true) (buf1, offsets1, true) =
      cc in
    subst (λ (r : CodeBuffer × List ℕ × Bool). Laid start old r.0 r.1) same h
encode_blocks-Laid start old max_id buf offsets (b ∷ blocks) {buf1 = buf1} {offsets1 = offsets1} h
      e =
    let marked = if leb b.id max_id then set offsets b.id (length buf.bytes) else offsets in
    let first = bind_inv (encode_instructions buf b.instructions) _ e in
    let at : Multiples marked (length buf.bytes) = elim (Bool-cases (leb b.id max_id)) [
      | inl inside ↦
          rw inside (Multiples-set offsets b.id (length buf.bytes) h.emitted.aligned h.multiples)
      | inr outside ↦ rw outside h.multiples
    ] in
    elim (Bool-cases first.0.1) [
      | inl accepted ↦
          let to : encode_instructions buf b.instructions ≡ done (first.0.0, true) =
            first.1 ∙ (λ i. done (first.0.0, accepted i)) in
          let next =
            encode_instructions-Emitted start old buf h.fixups b.instructions h.emitted to in
          let le = next.2 in
          encode_blocks-Laid start old max_id first.0.0 marked blocks
            (record {
              fixups = next.0;
              emitted = next.1;
              multiples = λ c t found. let m = at c t found in let up = m.0 in (omega arith, m.1);
            })
            (rw accepted at first.2)
      | inr refused ↦
          let r : ◌≡◌ {A = Outcome (CodeBuffer × List ℕ × Bool)} (done (first.0.0, marked, false))
              (done (buf1, offsets1, true)) =
            rw refused at first.2 in
          let triple : ◌≡◌ {A = CodeBuffer × List ℕ × Bool} (first.0.0, marked, false)
              (buf1, offsets1, true) =
            cc in
          let flag = ap (λ (p : CodeBuffer × List ℕ × Bool). p.2) triple in cc
    ]

Between-Ascending :
    (lo : ℕ) (fixups : List Fixup) (hi : ℕ) → Between lo fixups hi → Ascending lo fixups
Between-Ascending lo [] hi h = tt
Between-Ascending lo (f ∷ fixups) hi h = (h.0, Between-Ascending (f.code_offset + 4) fixups hi h.1)

-- Where the blocks start: at the end of the buffer and behind one another; an id of no block has 0.
abbrev pub starts : CodeBuffer → List Block → ℕ → ℕ
starts buf blocks id = start_of id blocks (length buf.bytes) 0

-- All blocks have smaller ids.
abbrev pub IsAbsent : List Block → ℕ → Type 0
IsAbsent blocks id = AllOf (λ b. b.id < id) blocks

-- The fixups that the instructions of the function have left.
abbrev pub new_fixups : CodeBuffer → CodeBuffer → List Fixup
new_fixups buf emitted = drop (length buf.fixups) emitted.fixups

nothing_yet :
    (buf : CodeBuffer) (n : ℕ)
    → length buf.bytes % 4 ≡ 0
    → Laid (length buf.bytes) buf.fixups buf (replicate n 0)
nothing_yet buf n aligned = record {
  fixups = [];
  emitted = record {
    listed = append_nil buf.fixups;
    between = omega arith;
    sited = tt;
    aligned = aligned;
  };
  multiples = Multiples-replicate n (length buf.bytes);
}

Laid-HasOffsets :
    (buf : CodeBuffer) (blocks : List Block) (offsets : List ℕ) {emitted : CodeBuffer}
    → Laid (length buf.bytes) buf.fixups emitted offsets
    → length emitted.bytes < 2 ^ 62
    → ((b : ℕ) → b ≤ largest_id 0 blocks → get_elem? offsets b ≡ some (starts buf blocks b))
    → HasOffsets offsets (largest_id 0 blocks) (starts buf blocks) (IsAbsent blocks)
Laid-HasOffsets buf blocks offsets laid small known = record {
  known = known;
  small = λ b le. let m = (laid.multiples b _ (known b le)).0 in omega arith;
  aligned = λ b le. (laid.multiples b _ (known b le)).1;
  absent = λ b above. largest_id-lt 0 blocks b above;
}

-- How `encode_function` ends: every branch of the blocks has a fixup, and each branch with a fixup
-- goes to the start of its block; or one of them is too far away from it.
pub data FunctionEncoded (buf : CodeBuffer) (blocks : List Block) (emitted : CodeBuffer)
    (result : Outcome (CodeBuffer × Bool)) : Type 0 where
  encoded :
      (buf1 : CodeBuffer)
      → result ≡ done (buf1, true)
      → length buf1.bytes ≡ length emitted.bytes
      → HasBranches (new_fixups buf emitted) (length buf.bytes) blocks
      → AllOf (Placed (starts buf blocks) (IsAbsent blocks) buf1.bytes) (new_fixups buf emitted)
      → FunctionEncoded buf blocks emitted result
  too_far_apart :
      (buf1 : CodeBuffer) (f : Fixup)
      → IsListed f (new_fixups buf emitted)
      → IsTooFar (starts buf blocks) (largest_id 0 blocks) f
      → result ≡ done (buf1, false)
      → FunctionEncoded buf blocks emitted result

-- For a code buffer whose length is a multiple of four, block ids below 2^32 - 1 and less than
-- 2^62 bytes of code, once the instructions of all blocks are encoded, the encoder of a
-- function returns: either it succeeds, every `b`, `bl` and `b.cond` to a label has a new fixup
-- of its kind and target at its offset, and each new fixup that is a branch, unless its target
-- is above every block's id, stands at a word whose displacement, decoded, leads to the offset
-- where its block starts, which is the length of the buffer and four bytes for each instruction
-- of the blocks before it (the last block of the id counts, and an id of no block has offset
-- 0); or it fails, and one of the new fixups is a branch to an offset out of reach, 2^27 bytes
-- ahead or more than 2^27 behind, or 2^20 bytes for a conditional one.
pub encode_function-FunctionEncoded :
    (buf : CodeBuffer) (blocks : List Block) (emitted : CodeBuffer) (offsets : List ℕ)
    → length buf.bytes % 4 ≡ 0
    → largest_id 0 blocks + 1 < 2 ^ 32
    → encode_blocks (largest_id 0 blocks) buf (replicate (largest_id 0 blocks + 1) 0) blocks
      ≡ done (emitted, offsets, true)
    → length emitted.bytes < 2 ^ 62
    → FunctionEncoded buf blocks emitted (encode_function buf blocks)
unfolding encode_function
encode_function-FunctionEncoded buf blocks emitted offsets aligned few e small =
    let max_id = largest_id 0 blocks in
    let n = max_id + 1 in
    let start = length buf.bytes in
    let laid =
      encode_blocks-Laid start buf.fixups max_id buf (replicate n 0) blocks
        (nothing_yet buf n aligned) e in
    let table = Laid-HasOffsets buf blocks offsets laid small (λ b le.
      encode_blocks-start_of max_id buf (replicate n 0) blocks b 0 le
        (get_elem?-replicate n b (omega arith)) e) in
    let fixups = laid.fixups in
    let news : new_fixups buf emitted ≡ fixups =
      ap (λ fs. drop (length buf.fixups) fs) laid.emitted.listed ∙ drop-append buf.fixups fixups in
    let asc = Between-Ascending start fixups _ laid.emitted.between in
    let modulus : n % 2 ^ 32 ≡ n = omega arith in
    let goes_on : encode_function buf blocks ≡ (
        apply_fixups offsets max_id emitted.bytes fixups
        >>= (λ p. done (record emitted { bytes = p.0 }, p.1))) =
      rw (encode_function, modulus, e, news) refl in
    elim (apply_fixups-Finished offsets max_id (starts buf blocks) (IsAbsent blocks) table start
      emitted.bytes fixups small laid.emitted.sited asc) [
        | finished bytes1 done1 size same all ↦
            encoded (record emitted { bytes = bytes1 }) (goes_on ∙ rw done1 refl) size
              (encode_blocks-HasBranches max_id buf (replicate n 0) blocks e) (rw news all)
        | too_far bytes1 f there far done1 ↦
            too_far_apart (record emitted { bytes = bytes1 }) f (rw news there) far
              (goes_on ∙ rw done1 refl)
      ]
