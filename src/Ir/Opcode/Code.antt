-- ===== src/Ir/Opcode/Code.antt =====
-- include/nybit/ir.h: the numbers of the opcodes.
use nybit.Base.{ℕ, ◌≡◌, ◌∙◌, true, refl, sym, ap, arith, some, List, [], ◌∷◌, get_elem?, ◌==◌}
use nybit.Ir.Opcode.{Opcode}

-- The number of an opcode in `Ny_Opcode`.
unfoldable pub code : Opcode → ℕ
code Opcode.none = 0
code Opcode.const = 1
code Opcode.const_null = 2
code Opcode.add = 3
code Opcode.sub = 4
code Opcode.mul = 5
code Opcode.div_s = 6
code Opcode.div_u = 7
code Opcode.rem_s = 8
code Opcode.rem_u = 9
code Opcode.neg = 10
code Opcode.fadd = 11
code Opcode.fsub = 12
code Opcode.fmul = 13
code Opcode.fdiv = 14
code Opcode.frem = 15
code Opcode.fneg = 16
code Opcode.and = 17
code Opcode.or = 18
code Opcode.xor = 19
code Opcode.not = 20
code Opcode.shl = 21
code Opcode.shr = 22
code Opcode.sar = 23
code Opcode.rotl = 24
code Opcode.rotr = 25
code Opcode.cmp_eq = 26
code Opcode.cmp_ne = 27
code Opcode.cmp_lt_s = 28
code Opcode.cmp_lt_u = 29
code Opcode.cmp_le_s = 30
code Opcode.cmp_le_u = 31
code Opcode.cmp_gt_s = 32
code Opcode.cmp_gt_u = 33
code Opcode.cmp_ge_s = 34
code Opcode.cmp_ge_u = 35
code Opcode.fcmp_eq = 36
code Opcode.fcmp_ne = 37
code Opcode.fcmp_lt = 38
code Opcode.fcmp_le = 39
code Opcode.fcmp_gt = 40
code Opcode.fcmp_ge = 41
code Opcode.select = 42
code Opcode.addr = 43
code Opcode.addr_offset = 44
code Opcode.global_addr = 45
code Opcode.load = 46
code Opcode.store = 47
code Opcode.stack_slot = 48
code Opcode.stack_addr = 49
code Opcode.atomic_load = 50
code Opcode.atomic_store = 51
code Opcode.atomic_rmw = 52
code Opcode.atomic_cmpxchg = 53
code Opcode.fence = 54
code Opcode.cast = 55
code Opcode.extend = 56
code Opcode.truncate = 57
code Opcode.bitcast = 58
code Opcode.sext = 59
code Opcode.zext = 60
code Opcode.fext = 61
code Opcode.ftrunc = 62
code Opcode.sitofp = 63
code Opcode.uitofp = 64
code Opcode.fptosi = 65
code Opcode.fptoui = 66
code Opcode.vadd = 67
code Opcode.vsub = 68
code Opcode.vmul = 69
code Opcode.vdiv = 70
code Opcode.vand = 71
code Opcode.vor = 72
code Opcode.vxor = 73
code Opcode.vshuffle = 74
code Opcode.branch = 75
code Opcode.branch_if = 76
code Opcode.switch = 77
code Opcode.return = 78
code Opcode.trap = 79
code Opcode.call = 80
code Opcode.call_indirect = 81
code Opcode.phi = 82
code Opcode.count = 83

-- The opcodes in the order of their numbers.
abbrev by_code : List Opcode
by_code =
    Opcode.none ∷ Opcode.const ∷ Opcode.const_null ∷ Opcode.add ∷ Opcode.sub ∷ Opcode.mul
    ∷ Opcode.div_s ∷ Opcode.div_u ∷ Opcode.rem_s ∷ Opcode.rem_u ∷ Opcode.neg ∷ Opcode.fadd
    ∷ Opcode.fsub ∷ Opcode.fmul ∷ Opcode.fdiv ∷ Opcode.frem ∷ Opcode.fneg ∷ Opcode.and ∷ Opcode.or
    ∷ Opcode.xor ∷ Opcode.not ∷ Opcode.shl ∷ Opcode.shr ∷ Opcode.sar ∷ Opcode.rotl ∷ Opcode.rotr
    ∷ Opcode.cmp_eq ∷ Opcode.cmp_ne ∷ Opcode.cmp_lt_s ∷ Opcode.cmp_lt_u ∷ Opcode.cmp_le_s
    ∷ Opcode.cmp_le_u ∷ Opcode.cmp_gt_s ∷ Opcode.cmp_gt_u ∷ Opcode.cmp_ge_s ∷ Opcode.cmp_ge_u
    ∷ Opcode.fcmp_eq ∷ Opcode.fcmp_ne ∷ Opcode.fcmp_lt ∷ Opcode.fcmp_le ∷ Opcode.fcmp_gt
    ∷ Opcode.fcmp_ge ∷ Opcode.select ∷ Opcode.addr ∷ Opcode.addr_offset ∷ Opcode.global_addr
    ∷ Opcode.load ∷ Opcode.store ∷ Opcode.stack_slot ∷ Opcode.stack_addr ∷ Opcode.atomic_load
    ∷ Opcode.atomic_store ∷ Opcode.atomic_rmw ∷ Opcode.atomic_cmpxchg ∷ Opcode.fence ∷ Opcode.cast
    ∷ Opcode.extend ∷ Opcode.truncate ∷ Opcode.bitcast ∷ Opcode.sext ∷ Opcode.zext ∷ Opcode.fext
    ∷ Opcode.ftrunc ∷ Opcode.sitofp ∷ Opcode.uitofp ∷ Opcode.fptosi ∷ Opcode.fptoui ∷ Opcode.vadd
    ∷ Opcode.vsub ∷ Opcode.vmul ∷ Opcode.vdiv ∷ Opcode.vand ∷ Opcode.vor ∷ Opcode.vxor
    ∷ Opcode.vshuffle ∷ Opcode.branch ∷ Opcode.branch_if ∷ Opcode.switch ∷ Opcode.return
    ∷ Opcode.trap ∷ Opcode.call ∷ Opcode.call_indirect ∷ Opcode.phi ∷ Opcode.count ∷ []

get_elem?-code : (op : Opcode) → get_elem? by_code (code op) ≡ some op
unfolding code
get_elem?-code Opcode.none = refl
get_elem?-code Opcode.const = refl
get_elem?-code Opcode.const_null = refl
get_elem?-code Opcode.add = refl
get_elem?-code Opcode.sub = refl
get_elem?-code Opcode.mul = refl
get_elem?-code Opcode.div_s = refl
get_elem?-code Opcode.div_u = refl
get_elem?-code Opcode.rem_s = refl
get_elem?-code Opcode.rem_u = refl
get_elem?-code Opcode.neg = refl
get_elem?-code Opcode.fadd = refl
get_elem?-code Opcode.fsub = refl
get_elem?-code Opcode.fmul = refl
get_elem?-code Opcode.fdiv = refl
get_elem?-code Opcode.frem = refl
get_elem?-code Opcode.fneg = refl
get_elem?-code Opcode.and = refl
get_elem?-code Opcode.or = refl
get_elem?-code Opcode.xor = refl
get_elem?-code Opcode.not = refl
get_elem?-code Opcode.shl = refl
get_elem?-code Opcode.shr = refl
get_elem?-code Opcode.sar = refl
get_elem?-code Opcode.rotl = refl
get_elem?-code Opcode.rotr = refl
get_elem?-code Opcode.cmp_eq = refl
get_elem?-code Opcode.cmp_ne = refl
get_elem?-code Opcode.cmp_lt_s = refl
get_elem?-code Opcode.cmp_lt_u = refl
get_elem?-code Opcode.cmp_le_s = refl
get_elem?-code Opcode.cmp_le_u = refl
get_elem?-code Opcode.cmp_gt_s = refl
get_elem?-code Opcode.cmp_gt_u = refl
get_elem?-code Opcode.cmp_ge_s = refl
get_elem?-code Opcode.cmp_ge_u = refl
get_elem?-code Opcode.fcmp_eq = refl
get_elem?-code Opcode.fcmp_ne = refl
get_elem?-code Opcode.fcmp_lt = refl
get_elem?-code Opcode.fcmp_le = refl
get_elem?-code Opcode.fcmp_gt = refl
get_elem?-code Opcode.fcmp_ge = refl
get_elem?-code Opcode.select = refl
get_elem?-code Opcode.addr = refl
get_elem?-code Opcode.addr_offset = refl
get_elem?-code Opcode.global_addr = refl
get_elem?-code Opcode.load = refl
get_elem?-code Opcode.store = refl
get_elem?-code Opcode.stack_slot = refl
get_elem?-code Opcode.stack_addr = refl
get_elem?-code Opcode.atomic_load = refl
get_elem?-code Opcode.atomic_store = refl
get_elem?-code Opcode.atomic_rmw = refl
get_elem?-code Opcode.atomic_cmpxchg = refl
get_elem?-code Opcode.fence = refl
get_elem?-code Opcode.cast = refl
get_elem?-code Opcode.extend = refl
get_elem?-code Opcode.truncate = refl
get_elem?-code Opcode.bitcast = refl
get_elem?-code Opcode.sext = refl
get_elem?-code Opcode.zext = refl
get_elem?-code Opcode.fext = refl
get_elem?-code Opcode.ftrunc = refl
get_elem?-code Opcode.sitofp = refl
get_elem?-code Opcode.uitofp = refl
get_elem?-code Opcode.fptosi = refl
get_elem?-code Opcode.fptoui = refl
get_elem?-code Opcode.vadd = refl
get_elem?-code Opcode.vsub = refl
get_elem?-code Opcode.vmul = refl
get_elem?-code Opcode.vdiv = refl
get_elem?-code Opcode.vand = refl
get_elem?-code Opcode.vor = refl
get_elem?-code Opcode.vxor = refl
get_elem?-code Opcode.vshuffle = refl
get_elem?-code Opcode.branch = refl
get_elem?-code Opcode.branch_if = refl
get_elem?-code Opcode.switch = refl
get_elem?-code Opcode.return = refl
get_elem?-code Opcode.trap = refl
get_elem?-code Opcode.call = refl
get_elem?-code Opcode.call_indirect = refl
get_elem?-code Opcode.phi = refl
get_elem?-code Opcode.count = refl

-- Opcodes with the same number are the same.
pub code_injective : (a b : Opcode) → (code a == code b) ≡ true → a ≡ b
code_injective a b same =
    let e : code a ≡ code b = ground (arith, same) in
    let both = sym (get_elem?-code a) ∙ ap (λ k. get_elem? by_code k) e ∙ get_elem?-code b in cc

pub code_refl : (op : Opcode) → (code op == code op) ≡ true
code_refl op = ground arith
