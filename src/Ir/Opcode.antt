-- ===== src/Ir/Opcode.antt =====
-- include/nybit/ir.h (`Ny_Opcode`) and src/ir/instruction.c: the opcodes and their names.
pub mod Code
use Prim.Native.String.{String}
use mathlib.Core.Bool.{Bool, true, false}

pub data Opcode : Type 0 where
  none const const_null add sub mul div_s div_u rem_s rem_u neg fadd fsub fmul fdiv frem : Opcode
  fneg and or xor not shl shr sar rotl rotr cmp_eq cmp_ne cmp_lt_s cmp_lt_u cmp_le_s : Opcode
  cmp_le_u cmp_gt_s cmp_gt_u cmp_ge_s cmp_ge_u fcmp_eq fcmp_ne fcmp_lt fcmp_le fcmp_gt : Opcode
  fcmp_ge select addr addr_offset global_addr load store stack_slot stack_addr atomic_load : Opcode
  atomic_store atomic_rmw atomic_cmpxchg fence cast extend truncate bitcast sext zext fext : Opcode
  ftrunc sitofp uitofp fptosi fptoui vadd vsub vmul vdiv vand vor vxor vshuffle branch : Opcode
  branch_if switch return trap call call_indirect phi count : Opcode

unfoldable pub opcode_name : Opcode → String
opcode_name none = "none"
opcode_name const = "const"
opcode_name const_null = "const_null"
opcode_name add = "add"
opcode_name sub = "sub"
opcode_name mul = "mul"
opcode_name div_s = "div.s"
opcode_name div_u = "div.u"
opcode_name rem_s = "rem.s"
opcode_name rem_u = "rem.u"
opcode_name neg = "neg"
opcode_name fadd = "fadd"
opcode_name fsub = "fsub"
opcode_name fmul = "fmul"
opcode_name fdiv = "fdiv"
opcode_name frem = "frem"
opcode_name fneg = "fneg"
opcode_name and = "and"
opcode_name or = "or"
opcode_name xor = "xor"
opcode_name not = "not"
opcode_name shl = "shl"
opcode_name shr = "shr"
opcode_name sar = "sar"
opcode_name rotl = "rotl"
opcode_name rotr = "rotr"
opcode_name cmp_eq = "cmp.eq"
opcode_name cmp_ne = "cmp.ne"
opcode_name cmp_lt_s = "cmp.lt.s"
opcode_name cmp_lt_u = "cmp.lt.u"
opcode_name cmp_le_s = "cmp.le.s"
opcode_name cmp_le_u = "cmp.le.u"
opcode_name cmp_gt_s = "cmp.gt.s"
opcode_name cmp_gt_u = "cmp.gt.u"
opcode_name cmp_ge_s = "cmp.ge.s"
opcode_name cmp_ge_u = "cmp.ge.u"
opcode_name fcmp_eq = "fcmp.eq"
opcode_name fcmp_ne = "fcmp.ne"
opcode_name fcmp_lt = "fcmp.lt"
opcode_name fcmp_le = "fcmp.le"
opcode_name fcmp_gt = "fcmp.gt"
opcode_name fcmp_ge = "fcmp.ge"
opcode_name select = "select"
opcode_name addr = "addr"
opcode_name addr_offset = "addr_offset"
opcode_name global_addr = "global_addr"
opcode_name load = "load"
opcode_name store = "store"
opcode_name stack_slot = "stack_slot"
opcode_name stack_addr = "stack_addr"
opcode_name atomic_load = "atomic_load"
opcode_name atomic_store = "atomic_store"
opcode_name atomic_rmw = "atomic_rmw"
opcode_name atomic_cmpxchg = "atomic_cmpxchg"
opcode_name fence = "fence"
opcode_name cast = "cast"
opcode_name extend = "extend"
opcode_name truncate = "truncate"
opcode_name bitcast = "bitcast"
opcode_name sext = "sext"
opcode_name zext = "zext"
opcode_name fext = "fext"
opcode_name ftrunc = "ftrunc"
opcode_name sitofp = "sitofp"
opcode_name uitofp = "uitofp"
opcode_name fptosi = "fptosi"
opcode_name fptoui = "fptoui"
opcode_name vadd = "vadd"
opcode_name vsub = "vsub"
opcode_name vmul = "vmul"
opcode_name vdiv = "vdiv"
opcode_name vand = "vand"
opcode_name vor = "vor"
opcode_name vxor = "vxor"
opcode_name vshuffle = "vshuffle"
opcode_name branch = "@branch"
opcode_name branch_if = "@branch_if"
opcode_name switch = "@switch"
opcode_name return = "@return"
opcode_name trap = "@trap"
opcode_name call = "call"
opcode_name call_indirect = "call_indirect"
opcode_name phi = "phi"
opcode_name count = "unknown"

unfoldable pub is_terminator : Opcode → Bool
is_terminator branch = true
is_terminator branch_if = true
is_terminator switch = true
is_terminator return = true
is_terminator trap = true
is_terminator _ = false
