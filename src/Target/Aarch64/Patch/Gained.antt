-- ===== src/Target/Aarch64/Patch/Gained.antt =====
-- The fixups that src/target/aarch64/aarch64_encode.c adds: those of all branches are among them.
use nybit.Base.{
  ℕ, ◌+◌, ◌*◌, ◌%◌, ◌^◌, ◌≡◌, ◌∙◌, refl, sym, ap, subst, Bool, true, false, Bool-cases, inl, inr,
  Option, some, List, [], ◌∷◌, ◌++◌, length, set, leb, if◌then◌else◌,
}
use nybit.Base.Outcome.{Outcome, done, bind_inv}
use nybit.Analysis.Cfg.Reach.{IsListed-append}
use nybit.Target.Aarch64.{Operand, Opcode, Instruction, FixupKind, Fixup, CodeBuffer}
use nybit.Target.Aarch64.Buffer.{append_word}
use nybit.Target.Aarch64.Encode.{
  encode_word, encode_branch, encode_call, encode_branch_cond, emit, encode_instruction,
}
use nybit.Target.Aarch64.Encode.Fields.{Encoding, word, fixed, rejected, join}
use nybit.Target.Aarch64.Patch.{Block, drop, encode_instructions, encode_blocks}
use nybit.Target.Aarch64.Patch.Starts.{emit-length, encode_instructions-length}
use mathlib.Core.List.{append_assoc}
use nybit.Target.Aarch64.Patch.Branches.{
  branch_of, IsNoted, AreNoted, HasBranches, IsListed-append_right, IsNoted-more, AreNoted-more,
  HasBranches-more,
}

branch_is :
    (b : ℕ) (k : FixupKind) (w : ℕ) {kind : FixupKind} {t : ℕ} {e : Encoding}
    → ◌≡◌ {A = Option (FixupKind × ℕ)} (some (k, b)) (some (kind, t))
    → ◌≡◌ {A = Outcome Encoding} (done (fixed w k b [])) (done e)
    → e ≡ fixed w kind t []
branch_is b k w {kind = kind} {t = t} {e = e} is coded =
    let pair : ◌≡◌ {A = FixupKind × ℕ} (k, b) (kind, t) = cc in
    let same : fixed w k b [] ≡ e = cc in
    sym same ∙ ap (λ (p : FixupKind × ℕ). fixed w p.0 p.1 []) pair

-- The encoding of a branch asks for the fixup.
branch_of-fixed :
    (opcode : Opcode) (ops : List Operand) (inst : Instruction) (kind : FixupKind) (t : ℕ)
    {e : Encoding}
    → inst.ops ≡ ops
    → branch_of opcode ops ≡ some (kind, t)
    → encode_word opcode inst ≡ done e
    → (w : ℕ) × (e ≡ fixed w kind t [])
unfolding encode_word encode_branch encode_call encode_branch_cond
branch_of-fixed Opcode.b (Operand.label b ∷ ops) inst kind t same is e =
    let coded : ◌≡◌ {A = Outcome Encoding} (done (fixed 0x14000000 FixupKind.branch26 b []))
        (done _) =
      rw same at e in
    (0x14000000, branch_is b FixupKind.branch26 0x14000000 is coded)
branch_of-fixed Opcode.bl (Operand.label b ∷ ops) inst kind t same is e =
    let coded : ◌≡◌ {A = Outcome Encoding} (done (fixed 0x94000000 FixupKind.branch26 b []))
        (done _) =
      rw same at e in
    (0x94000000, branch_is b FixupKind.branch26 0x94000000 is coded)
branch_of-fixed Opcode.bcond (Operand.label b ∷ ops) inst kind t same is e =
    let w = join (0x54000000 ∷ inst.cond % 2 ^ 4 ∷ []) in
    let coded : ◌≡◌ {A = Outcome Encoding} (done (fixed w FixupKind.branch19 b [])) (done _) =
      rw same at e in
    (w, branch_is b FixupKind.branch19 w is coded)
branch_of-fixed _ _ inst kind t same is e = cc

pub append_nil : (xs : List Fixup) → xs ≡ xs ++ []
append_nil [] = refl
append_nil (x ∷ xs) = ap (λ t. x ∷ t) (append_nil xs)

-- What an accepted encoding adds to the fixups.
emit-fixups :
    (buf : CodeBuffer) (e : Encoding) {buf1 : CodeBuffer}
    → emit buf e ≡ (buf1, true)
    → (added : List Fixup) × (buf1.fixups ≡ buf.fixups ++ added)
      × ((w : ℕ) (kind : FixupKind) (t : ℕ)
          → e ≡ fixed w kind t []
          → IsNoted added (length buf.bytes) kind t)
unfolding emit append_word
emit-fixups buf (word w) e = (
  [],
  sym (ap (λ (p : CodeBuffer × Bool). p.0.fixups) e) ∙ append_nil buf.fixups,
  λ w1 kind t same. cc,
)
emit-fixups buf (fixed w k target name) e =
    let f : Fixup = record {
      kind = k;
      code_offset = length buf.bytes;
      target_block = target;
      symbol_name = name;
    } in
    (
      f ∷ [],
      sym (ap (λ (p : CodeBuffer × Bool). p.0.fixups) e),
      λ w1 kind t same. record {
        fixup = f;
        listed = record { at = 0; found = refl };
        offset = refl;
        same_kind = cc;
        target = cc;
      },
    )
emit-fixups buf rejected e = let flags = ap (λ (p : CodeBuffer × Bool). p.1) e in cc

pub drop-append : (xs ys : List Fixup) → drop (length xs) (xs ++ ys) ≡ ys
drop-append [] ys = refl
drop-append (x ∷ xs) ys = drop-append xs ys

-- What the fixups have gained from a buffer to a later one.
record Gained (buf buf1 : CodeBuffer) (P : List Fixup → Type 0) : Type 0 where
  added : List Fixup
  listed : buf1.fixups ≡ buf.fixups ++ added
  noted : P added

encode_instructions-AreNoted :
    (buf : CodeBuffer) (insts : List Instruction) {buf1 : CodeBuffer}
    → encode_instructions buf insts ≡ done (buf1, true)
    → Gained buf buf1 (λ fs. AreNoted fs (length buf.bytes) insts)
unfolding encode_instructions encode_instruction
encode_instructions-AreNoted buf [] {buf1 = buf1} e =
    let same : buf ≡ buf1 = cc in
    record {
      added = [];
      listed = ap (λ (b : CodeBuffer). b.fixups) (sym same) ∙ append_nil buf.fixups;
      noted = tt;
    }
encode_instructions-AreNoted buf (inst ∷ insts) {buf1 = buf1} e =
    let first = bind_inv (encode_instruction buf inst) _ e in
    let coded = bind_inv (encode_word inst.opcode inst) _ first.1 in
    let result : emit buf coded.0 ≡ first.0 = let last = coded.2 in cc in
    elim (Bool-cases first.0.1) [
      | inl accepted ↦
          let to : emit buf coded.0 ≡ (first.0.0, true) = result ∙ (λ i. (first.0.0, accepted i)) in
          let size = emit-length buf coded.0 to in
          let one = emit-fixups buf coded.0 to in
          let rest =
            encode_instructions-AreNoted first.0.0 insts {buf1 = buf1} (rw accepted at first.2) in
          record {
            added = one.0 ++ rest.added;
            listed =
                rest.listed
                ∙ ap (λ fs. fs ++ rest.added) one.1
                ∙ append_assoc buf.fixups one.0 rest.added;
            noted = (
              λ kind t is.
                  let asked = branch_of-fixed inst.opcode inst.ops inst kind t refl is coded.1 in
                  IsNoted-more one.0 (one.0 ++ rest.added) (λ f. IsListed-append one.0 rest.added)
                    (one.2 asked.0 kind t asked.1),
              AreNoted-more rest.added (one.0 ++ rest.added)
                  (λ f. IsListed-append_right f one.0 rest.added) (length buf.bytes + 4) insts
                  (subst (λ n. AreNoted rest.added n insts) size rest.noted),
            );
          }
      | inr refused ↦
          let r : ◌≡◌ {A = Outcome (CodeBuffer × Bool)} (done first.0) (done (buf1, true)) =
            rw refused at first.2 in
          let pair : ◌≡◌ {A = CodeBuffer × Bool} first.0 (buf1, true) = cc in
          let flag = sym refused ∙ ap (λ (p : CodeBuffer × Bool). p.1) pair in cc
    ]

encode_blocks-Gained :
    (max_id : ℕ) (buf : CodeBuffer) (offsets : List ℕ) (blocks : List Block) {buf1 : CodeBuffer}
    {offsets1 : List ℕ}
    → encode_blocks max_id buf offsets blocks ≡ done (buf1, offsets1, true)
    → Gained buf buf1 (λ fs. HasBranches fs (length buf.bytes) blocks)
unfolding encode_blocks
encode_blocks-Gained max_id buf offsets [] {buf1 = buf1} {offsets1 = offsets1} e =
    let same : ◌≡◌ {A = CodeBuffer × List ℕ × Bool} (buf, offsets, true) (buf1, offsets1, true) =
      cc in
    record {
      added = [];
      listed =
          ap (λ (r : CodeBuffer × List ℕ × Bool). r.0.fixups) (sym same) ∙ append_nil buf.fixups;
      noted = tt;
    }
encode_blocks-Gained max_id buf offsets (b ∷ blocks) {buf1 = buf1} {offsets1 = offsets1} e =
    let marked = if leb b.id max_id then set offsets b.id (length buf.bytes) else offsets in
    let first = bind_inv (encode_instructions buf b.instructions) _ e in
    let insts = b.instructions in
    elim (Bool-cases first.0.1) [
      | inl accepted ↦
          let to : encode_instructions buf insts ≡ done (first.0.0, true) =
            first.1 ∙ (λ i. done (first.0.0, accepted i)) in
          let size = encode_instructions-length buf insts to in
          let one = encode_instructions-AreNoted buf insts to in
          let rest =
            encode_blocks-Gained max_id first.0.0 marked blocks {buf1 = buf1} {offsets1 = offsets1}
              (rw accepted at first.2) in
          let all = one.added ++ rest.added in
          record {
            added = all;
            listed =
                rest.listed
                ∙ ap (λ fs. fs ++ rest.added) one.listed
                ∙ append_assoc buf.fixups one.added rest.added;
            noted = (
              AreNoted-more one.added all (λ f. IsListed-append one.added rest.added)
                  (length buf.bytes) insts one.noted,
              HasBranches-more rest.added all (λ f. IsListed-append_right f one.added rest.added)
                  (length buf.bytes + 4 * length insts) blocks
                  (subst (λ n. HasBranches rest.added n blocks) size rest.noted),
            );
          }
      | inr refused ↦
          let r : ◌≡◌ {A = Outcome (CodeBuffer × List ℕ × Bool)} (done (first.0.0, marked, false))
              (done (buf1, offsets1, true)) =
            rw refused at first.2 in
          let triple : ◌≡◌ {A = CodeBuffer × List ℕ × Bool} (first.0.0, marked, false)
              (buf1, offsets1, true) =
            cc in
          let flag = ap (λ (p : CodeBuffer × List ℕ × Bool). p.2) triple in cc
    ]

-- The fixups behind the old ones have all branches of the blocks.
pub encode_blocks-HasBranches :
    (max_id : ℕ) (buf : CodeBuffer) (offsets : List ℕ) (blocks : List Block) {buf1 : CodeBuffer}
    {offsets1 : List ℕ}
    → encode_blocks max_id buf offsets blocks ≡ done (buf1, offsets1, true)
    → HasBranches (drop (length buf.fixups) buf1.fixups) (length buf.bytes) blocks
encode_blocks-HasBranches max_id buf offsets blocks {buf1 = buf1} {offsets1 = offsets1} e =
    let g = encode_blocks-Gained max_id buf offsets blocks {buf1 = buf1} {offsets1 = offsets1} e in
    let news = ap (λ fs. drop (length buf.fixups) fs) g.listed ∙ drop-append buf.fixups g.added in
    subst (λ fs. HasBranches fs (length buf.bytes) blocks) (sym news) g.noted
