-- ===== src/Link/Reloc.antt =====
-- src/nylink/nylink_reloc.c: the relocations that patch one word of four bytes. Addresses are
-- `uint64_t`, and an `int64_t` is its bit pattern. Diagnostics are left out.
pub mod Fields
pub mod Leads
pub mod Refused
pub mod Applied
use nybit.Base.{
  ℕ, zero, suc, ◌+◌, ◌-◌, ◌*◌, ◌/◌, ◌%◌, ◌^◌, Bool, true, false, ◌&&◌, ◌||◌, not, Option, none,
  some, List, [], ◌∷◌, length, ltb, leb, ◌==◌, if◌then◌else◌, bit_and, bit_or,
}
use nybit.Base.Outcome.{Outcome, done, ◌>>=◌}
use nybit.Word.{sar64}
use nybit.Target.Aarch64.Buffer.{read_word, patch_word}

-- The types of `Nylink_Reloc_Type` that patch one word.
pub data RelocType : Type 0 where
  x86_64_pc32 x86_64_plt32 x86_64_gotpcrel aarch64_call26 aarch64_jump26 : RelocType
  aarch64_adr_prel_pg_hi21 aarch64_add_abs_lo12_nc aarch64_ldst64_abs_lo12_nc : RelocType
  aarch64_ldst32_abs_lo12_nc : RelocType

-- `Nylink_Reloc_Plan`, as far as these types ask for it.
pub data Plan : Type 0 where
  plt_call got_load other : Plan

-- What the code reads of the context, the relocation, its plan and its symbol; `place_va` and
-- `target_sec_offset` as it computes them.
pub record Reloc : Type 0 where
  pub type : RelocType
  pub addend : ℕ
  pub place_va : ℕ
  pub target_sec_offset : ℕ
  pub plan : Plan
  pub slot : ℕ
  pub plt_va : ℕ
  pub got_va : ℕ
  pub is_defined : Bool
  pub is_dynamic : Bool
  pub is_weak : Bool
  pub final_va : ℕ

-- The data of an output section; its capacity is its length.
pub record OutputSection : Type 0 where
  pub bytes : List ℕ
  pub file_size : ℕ

abbrev pub add64 : ℕ → ℕ → ℕ
add64 x y = (x + y) % 2 ^ 64

abbrev pub sub64 : ℕ → ℕ → ℕ
sub64 x y = (x + 2 ^ 64 - y) % 2 ^ 64

-- A definition in the output, or a weak symbol without one.
abbrev pub static_va : Reloc → Option ℕ
static_va r =
    if r.is_defined && not r.is_dynamic
    then some r.final_va
    else if not r.is_defined && r.is_weak
    then some 0
    else none

-- `target_va` of an x86-64 call or reference.
unfoldable pub pc32_target : Reloc → Option ℕ
pc32_target r = elim r.plan [
  | plt_call ↦ some (add64 (add64 r.plt_va 16) (r.slot * 16))
  | got_load ↦ some (add64 r.got_va (r.slot * 8))
  | other ↦
      if r.is_defined && not r.is_dynamic
      then some r.final_va
      else if r.is_dynamic && not (r.final_va == 0)
      then some r.final_va
      else if not r.is_defined && r.is_weak
      then some 0
      else none
]

unfoldable pub gotpcrel_target : Reloc → Option ℕ
gotpcrel_target r = elim r.plan [ got_load ↦ some (add64 r.got_va (r.slot * 8)) | _ ↦ none ]

unfoldable pub call26_target : Reloc → Option ℕ
call26_target r = elim r.plan [
  | plt_call ↦ some (add64 (add64 r.plt_va 32) (r.slot * 16))
  | _ ↦ static_va r
]

-- `target_va` of the page and of the low bits of an address.
unfoldable pub page_target : Reloc → Option ℕ
page_target r = elim r.plan [ got_load ↦ some (add64 r.got_va (r.slot * 8)) | _ ↦ static_va r ]

-- Whether an `int64_t` fits the bits of a signed field.
abbrev pub in_range : ℕ → ℕ → Bool
in_range bits val = ltb val (2 ^ (bits - 1)) || leb (2 ^ 64 - 2 ^ (bits - 1)) val

-- The new word from the old one, the address that is meant and the place; none where the code
-- reports an error.
unfoldable pub pc32_word : ℕ → ℕ → ℕ → Option ℕ
pc32_word word s p = let val = sub64 s p in if in_range 32 val then some (val % 2 ^ 32) else none

unfoldable pub call26_word : ℕ → ℕ → ℕ → Option ℕ
call26_word word s p =
    let val = sub64 s p in
    let imm26 = sar64 val 2 in
    if not (val % 4 == 0)
    then none
    else if in_range 26 imm26
    then some (bit_or (bit_and word 0xFC000000) (bit_and (imm26 % 2 ^ 32) 0x03FFFFFF))
    else none

unfoldable pub adr_page_word : ℕ → ℕ → ℕ → Option ℕ
adr_page_word word s p =
    let page_diff = sub64 (s - s % 2 ^ 12) (p - p % 2 ^ 12) in
    let imm = sar64 page_diff 12 in
    let immlo = imm % 2 ^ 2 in
    let immhi = sar64 imm 2 % 2 ^ 19 in
    if in_range 21 imm
    then some (
        bit_or (bit_or (bit_and word 0x9F00001F) (immlo * 2 ^ 29 % 2 ^ 32))
          (immhi * 2 ^ 5 % 2 ^ 32))
    else none

-- The word with an immediate of twelve bits.
abbrev pub imm12_word : ℕ → ℕ → ℕ
imm12_word word imm12 = bit_or (bit_and word 0xFFC003FF) (imm12 * 2 ^ 10 % 2 ^ 32)

unfoldable pub add_lo12_word : ℕ → ℕ → ℕ → Option ℕ
add_lo12_word word s p = some (imm12_word word (s % 2 ^ 12))

unfoldable pub ldst_lo12_word : ℕ → ℕ → ℕ → ℕ → Option ℕ
ldst_lo12_word scale word s p =
    if not (s % scale == 0) then none else some (imm12_word word (s % 2 ^ 12 / scale))

unfoldable pub target_of : RelocType → Reloc → Option ℕ
unfolding pc32_target gotpcrel_target call26_target page_target
target_of RelocType.x86_64_pc32 r = pc32_target r
target_of RelocType.x86_64_plt32 r = pc32_target r
target_of RelocType.x86_64_gotpcrel r = gotpcrel_target r
target_of RelocType.aarch64_call26 r = call26_target r
target_of RelocType.aarch64_jump26 r = call26_target r
target_of _ r = page_target r

unfoldable pub new_word : RelocType → ℕ → ℕ → ℕ → Option ℕ
unfolding pc32_word call26_word adr_page_word add_lo12_word ldst_lo12_word
new_word RelocType.x86_64_pc32 word s p = pc32_word word s p
new_word RelocType.x86_64_plt32 word s p = pc32_word word s p
new_word RelocType.x86_64_gotpcrel word s p = pc32_word word s p
new_word RelocType.aarch64_call26 word s p = call26_word word s p
new_word RelocType.aarch64_jump26 word s p = call26_word word s p
new_word RelocType.aarch64_adr_prel_pg_hi21 word s p = adr_page_word word s p
new_word RelocType.aarch64_add_abs_lo12_nc word s p = add_lo12_word word s p
new_word RelocType.aarch64_ldst64_abs_lo12_nc word s p = ldst_lo12_word 8 word s p
new_word RelocType.aarch64_ldst32_abs_lo12_nc word s p = ldst_lo12_word 4 word s p

abbrev pub store_word : List ℕ → ℕ → Option ℕ → Outcome (List ℕ × Bool)
store_word bytes offset none = done (bytes, false)
store_word bytes offset (some word) =
    patch_word bytes offset word >>= (λ bytes1. done (bytes1, true))

-- The arm of one of these types in `nylink_apply_relocations_internal`: the bytes of the section,
-- and false where the code reports an error. The x86-64 arms do not read the old word.
unfoldable pub apply_reloc : OutputSection → Reloc → Outcome (List ℕ × Bool)
unfolding target_of new_word read_word patch_word
apply_reloc sec r =
    let end_offset = add64 r.target_sec_offset 4 in
    if ltb (length sec.bytes) end_offset || ltb sec.file_size end_offset
    then done (sec.bytes, false)
    else (elim (target_of r.type r) [
      | none ↦ done (sec.bytes, false)
      | some target_va ↦ read_word sec.bytes r.target_sec_offset >>= (λ word.
          store_word sec.bytes r.target_sec_offset
            (new_word r.type word (add64 target_va r.addend) r.place_va))
    ])
