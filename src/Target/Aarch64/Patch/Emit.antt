-- ===== src/Target/Aarch64/Patch/Emit.antt =====
-- What encoding instructions does to the code buffer: words behind the code, and fixups at them.
use nybit.Base.{
  ℕ, ◌+◌, ◌%◌, ◌^◌, ◌≤◌, ◌≡◌, ◌∙◌, refl, sym, ap, subst, arith, Bool, true, Bool-cases, inl, inr,
  some, List, [], ◌∷◌, ◌++◌, length, All as AllOf, length-append, get_elem?-append_left,
}
use nybit.Base.Outcome.{Outcome, done, bind_inv}
use nybit.Target.Aarch64.{Instruction, Fixup, CodeBuffer}
use nybit.Target.Aarch64.Buffer.{HasWord, word_bytes, append_word, append_word-HasWord}
use nybit.Target.Aarch64.Encode.{encode_word, emit, encode_instruction}
use nybit.Target.Aarch64.Encode.Fields.{Encoding, word, fixed, rejected}
use nybit.Target.Aarch64.Patch.{encode_instructions}
use nybit.Target.Aarch64.Patch.Placed.{Sited, HasWord-same}

-- The words of the fixups stand one after the other between `lo` and `hi`.
abbrev pub Between : ℕ → List Fixup → ℕ → Type 0
Between lo [] hi = lo ≤ hi
Between lo (f ∷ fixups) hi = (lo ≤ f.code_offset) × Between (f.code_offset + 4) fixups hi

Between-append :
    (lo : ℕ) (fixups : List Fixup) (f : Fixup)
    → Between lo fixups f.code_offset
    → Between lo (fixups ++ f ∷ []) (f.code_offset + 4)
Between-append lo [] f h = (h, omega arith)
Between-append lo (g ∷ fixups) f h = (h.0, Between-append (g.code_offset + 4) fixups f h.1)

pub Between-later :
    (lo : ℕ) (fixups : List Fixup) (hi hi1 : ℕ)
    → hi ≤ hi1
    → Between lo fixups hi
    → Between lo fixups hi1
Between-later lo [] hi hi1 le h = omega arith
Between-later lo (g ∷ fixups) hi hi1 le h =
    (h.0, Between-later (g.code_offset + 4) fixups hi hi1 le h.1)

-- What was emitted since the buffer had `start` bytes and the fixups `old`.
pub record Emitted (start : ℕ) (old : List Fixup) (buf : CodeBuffer) (fixups : List Fixup)
    : Type 0 where
  pub listed : buf.fixups ≡ old ++ fixups
  pub between : Between start fixups (length buf.bytes)
  pub sited : AllOf (Sited buf.bytes) fixups
  pub aligned : length buf.bytes % 4 ≡ 0

Sited-append :
    (xs ys : List ℕ) (fixups : List Fixup)
    → AllOf (Sited xs) fixups
    → AllOf (Sited (xs ++ ys)) fixups
Sited-append xs ys [] h = tt
Sited-append xs ys (f ∷ fixups) h =
    let s = h.0 in
    let inside = s.inside in
    let size = length-append xs ys in
    (
      record {
        word = s.word;
        small = s.small;
        at = HasWord-same (length xs) (λ j below. get_elem?-append_left xs ys j below) inside s.at;
        inside = omega arith;
        aligned = s.aligned;
      },
      Sited-append xs ys fixups h.1,
    )

All-append_one {ℓ} :
    (P : Fixup → Type ℓ) (xs : List Fixup) (f : Fixup) → AllOf P xs → P f → AllOf P (xs ++ f ∷ [])
All-append_one P [] f h p = (p, tt)
All-append_one P (x ∷ xs) f h p = (h.0, All-append_one P xs f h.1 p)

-- The bytes of a word are those of its 32 bits.
HasWord-low : (bytes : List ℕ) (c w : ℕ) → HasWord bytes c w → HasWord bytes c (w % 2 ^ 32)
HasWord-low bytes c w h = record {
  byte0 = h.byte0 ∙ ap some (omega arith);
  byte1 = h.byte1 ∙ ap some (omega arith);
  byte2 = h.byte2 ∙ ap some (omega arith);
  byte3 = h.byte3 ∙ ap some (omega arith);
}

append_assoc_one : (xs ys : List Fixup) (f : Fixup) → (xs ++ ys) ++ f ∷ [] ≡ xs ++ (ys ++ f ∷ [])
append_assoc_one [] ys f = refl
append_assoc_one (x ∷ xs) ys f = ap (λ t. x ∷ t) (append_assoc_one xs ys f)

emit-Emitted :
    (start : ℕ) (old : List Fixup) (buf : CodeBuffer) (fixups : List Fixup) (e : Encoding)
    {buf1 : CodeBuffer}
    → Emitted start old buf fixups
    → emit buf e ≡ (buf1, true)
    → (fixups1 : List Fixup) × Emitted start old buf1 fixups1
      × (length buf.bytes ≤ length buf1.bytes)
unfolding emit append_word
emit-Emitted start old buf fixups (word w) h e =
    let same = ap (λ (p : CodeBuffer × Bool). p.0) e in
    let put = append_word-HasWord buf w in
    let size = put.1 in
    let aligned = h.aligned in
    subst
      (λ b.
        (fixups1 : List Fixup) × Emitted start old b fixups1 × (length buf.bytes ≤ length b.bytes))
      same
      (
        fixups,
        record {
          listed = h.listed;
          between = Between-later start fixups _ _ (omega arith) h.between;
          sited = Sited-append buf.bytes (word_bytes w) fixups h.sited;
          aligned = omega arith;
        },
        omega arith,
      )
emit-Emitted start old buf fixups (fixed w kind target name) h e =
    let same = ap (λ (p : CodeBuffer × Bool). p.0) e in
    let put = append_word-HasWord buf w in
    let size = put.1 in
    let aligned = h.aligned in
    let bytes1 = buf.bytes ++ word_bytes w in
    let f : Fixup = record {
      kind = kind;
      code_offset = length buf.bytes;
      target_block = target;
      symbol_name = name;
    } in
    let there : Sited bytes1 f = record {
      word = w % 2 ^ 32;
      small = omega arith;
      at = HasWord-low bytes1 (length buf.bytes) w put.0;
      inside = omega arith;
      aligned = aligned;
    } in
    subst
      (λ b.
        (fixups1 : List Fixup) × Emitted start old b fixups1 × (length buf.bytes ≤ length b.bytes))
      same
      (
        fixups ++ f ∷ [],
        record {
          listed = ap (λ fs. fs ++ f ∷ []) h.listed ∙ append_assoc_one old fixups f;
          between = rw size (Between-append start fixups f h.between);
          sited =
              All-append_one (Sited bytes1) fixups f
                (Sited-append buf.bytes (word_bytes w) fixups h.sited) there;
          aligned = omega arith;
        },
        omega arith,
      )
emit-Emitted start old buf fixups rejected h e =
    let flags = ap (λ (p : CodeBuffer × Bool). p.1) e in cc

-- The code of a list of instructions that are all accepted.
pub encode_instructions-Emitted :
    (start : ℕ) (old : List Fixup) (buf : CodeBuffer) (fixups : List Fixup)
    (insts : List Instruction) {buf1 : CodeBuffer}
    → Emitted start old buf fixups
    → encode_instructions buf insts ≡ done (buf1, true)
    → (fixups1 : List Fixup) × Emitted start old buf1 fixups1
      × (length buf.bytes ≤ length buf1.bytes)
unfolding encode_instructions encode_instruction
encode_instructions-Emitted start old buf fixups [] {buf1 = buf1} h e =
    let same : buf ≡ buf1 = cc in
    subst
      (λ b.
        (fixups1 : List Fixup) × Emitted start old b fixups1 × (length buf.bytes ≤ length b.bytes))
      same (fixups, h, omega arith)
encode_instructions-Emitted start old buf fixups (inst ∷ insts) {buf1 = buf1} h e =
    let first = bind_inv (encode_instruction buf inst) _ e in
    let coded = bind_inv (encode_word inst.opcode inst) _ first.1 in
    let result : emit buf coded.0 ≡ first.0 = let last = coded.2 in cc in
    elim (Bool-cases first.0.1) [
      | inl accepted ↦
          let to : emit buf coded.0 ≡ (first.0.0, true) = result ∙ (λ i. (first.0.0, accepted i)) in
          let next = emit-Emitted start old buf fixups coded.0 h to in
          let e1 : encode_instructions first.0.0 insts ≡ done (buf1, true) =
            rw accepted at first.2 in
          let rest = encode_instructions-Emitted start old first.0.0 next.0 insts next.1 e1 in
          let le1 = next.2 in let le2 = rest.2 in (rest.0, rest.1, omega arith)
      | inr refused ↦
          let r : ◌≡◌ {A = Outcome (CodeBuffer × Bool)} (done first.0) (done (buf1, true)) =
            rw refused at first.2 in
          let pair : ◌≡◌ {A = CodeBuffer × Bool} first.0 (buf1, true) = cc in
          let flag = sym refused ∙ ap (λ (p : CodeBuffer × Bool). p.1) pair in cc
    ]
