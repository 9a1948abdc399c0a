-- ===== src/Parser/Opcodes.antt =====
-- `lookup_opcode` of src/parser/parser.c: the reader of opcode names.
use Prim.Native.String.{String}
use text.Mathlib.Text.{◌==◌ as str_eq}
use mathlib.Core.Bool.{◌||◌}
use nybit.Base.{◌≡◌, ◌≢◌, refl, if◌then◌else◌}
use nybit.Ir.Opcode.{Opcode, opcode_name}

-- The reader tests the names one after the other, and answers `none` for any other text.
unfoldable pub lookup_opcode : String → Opcode
lookup_opcode name =
    if str_eq name "const"
    then Opcode.const
    else if str_eq name "const_null"
    then Opcode.const_null
    else if str_eq name "add"
    then Opcode.add
    else if str_eq name "sub"
    then Opcode.sub
    else if str_eq name "mul"
    then Opcode.mul
    else if str_eq name "div.s" || str_eq name "div"
    then Opcode.div_s
    else if str_eq name "div.u"
    then Opcode.div_u
    else if str_eq name "rem.s" || str_eq name "rem"
    then Opcode.rem_s
    else if str_eq name "rem.u"
    then Opcode.rem_u
    else if str_eq name "neg"
    then Opcode.neg
    else if str_eq name "fadd"
    then Opcode.fadd
    else if str_eq name "fsub"
    then Opcode.fsub
    else if str_eq name "fmul"
    then Opcode.fmul
    else if str_eq name "fdiv"
    then Opcode.fdiv
    else if str_eq name "frem"
    then Opcode.frem
    else if str_eq name "fneg"
    then Opcode.fneg
    else if str_eq name "and"
    then Opcode.and
    else if str_eq name "or"
    then Opcode.or
    else if str_eq name "xor"
    then Opcode.xor
    else if str_eq name "not"
    then Opcode.not
    else if str_eq name "shl"
    then Opcode.shl
    else if str_eq name "shr"
    then Opcode.shr
    else if str_eq name "sar"
    then Opcode.sar
    else if str_eq name "rotl"
    then Opcode.rotl
    else if str_eq name "rotr"
    then Opcode.rotr
    else if str_eq name "cmp.eq"
    then Opcode.cmp_eq
    else if str_eq name "cmp.ne"
    then Opcode.cmp_ne
    else if str_eq name "cmp.lt.s" || str_eq name "cmp.lt"
    then Opcode.cmp_lt_s
    else if str_eq name "cmp.lt.u"
    then Opcode.cmp_lt_u
    else if str_eq name "cmp.le.s" || str_eq name "cmp.le"
    then Opcode.cmp_le_s
    else if str_eq name "cmp.le.u"
    then Opcode.cmp_le_u
    else if str_eq name "cmp.gt.s" || str_eq name "cmp.gt"
    then Opcode.cmp_gt_s
    else if str_eq name "cmp.gt.u"
    then Opcode.cmp_gt_u
    else if str_eq name "cmp.ge.s" || str_eq name "cmp.ge"
    then Opcode.cmp_ge_s
    else if str_eq name "cmp.ge.u"
    then Opcode.cmp_ge_u
    else if str_eq name "fcmp.eq"
    then Opcode.fcmp_eq
    else if str_eq name "fcmp.ne"
    then Opcode.fcmp_ne
    else if str_eq name "fcmp.lt"
    then Opcode.fcmp_lt
    else if str_eq name "fcmp.le"
    then Opcode.fcmp_le
    else if str_eq name "fcmp.gt"
    then Opcode.fcmp_gt
    else if str_eq name "fcmp.ge"
    then Opcode.fcmp_ge
    else if str_eq name "select"
    then Opcode.select
    else if str_eq name "addr"
    then Opcode.addr
    else if str_eq name "addr_offset"
    then Opcode.addr_offset
    else if str_eq name "global_addr"
    then Opcode.global_addr
    else if str_eq name "load"
    then Opcode.load
    else if str_eq name "store"
    then Opcode.store
    else if str_eq name "stack_slot"
    then Opcode.stack_slot
    else if str_eq name "stack_addr"
    then Opcode.stack_addr
    else if str_eq name "atomic_load"
    then Opcode.atomic_load
    else if str_eq name "atomic_store"
    then Opcode.atomic_store
    else if str_eq name "atomic_rmw"
    then Opcode.atomic_rmw
    else if str_eq name "atomic_cmpxchg"
    then Opcode.atomic_cmpxchg
    else if str_eq name "fence"
    then Opcode.fence
    else if str_eq name "cast"
    then Opcode.cast
    else if str_eq name "extend"
    then Opcode.extend
    else if str_eq name "truncate"
    then Opcode.truncate
    else if str_eq name "bitcast"
    then Opcode.bitcast
    else if str_eq name "sext"
    then Opcode.sext
    else if str_eq name "zext"
    then Opcode.zext
    else if str_eq name "fext"
    then Opcode.fext
    else if str_eq name "ftrunc"
    then Opcode.ftrunc
    else if str_eq name "sitofp"
    then Opcode.sitofp
    else if str_eq name "uitofp"
    then Opcode.uitofp
    else if str_eq name "fptosi"
    then Opcode.fptosi
    else if str_eq name "fptoui"
    then Opcode.fptoui
    else if str_eq name "vadd"
    then Opcode.vadd
    else if str_eq name "vsub"
    then Opcode.vsub
    else if str_eq name "vmul"
    then Opcode.vmul
    else if str_eq name "vdiv"
    then Opcode.vdiv
    else if str_eq name "vand"
    then Opcode.vand
    else if str_eq name "vor"
    then Opcode.vor
    else if str_eq name "vxor"
    then Opcode.vxor
    else if str_eq name "vshuffle"
    then Opcode.vshuffle
    else if str_eq name "branch" || str_eq name "@branch"
    then Opcode.branch
    else if str_eq name "branch_if" || str_eq name "@branch_if"
    then Opcode.branch_if
    else if str_eq name "switch" || str_eq name "@switch"
    then Opcode.switch
    else if str_eq name "return" || str_eq name "@return"
    then Opcode.return
    else if str_eq name "trap" || str_eq name "@trap"
    then Opcode.trap
    else if str_eq name "call"
    then Opcode.call
    else if str_eq name "call_indirect"
    then Opcode.call_indirect
    else if str_eq name "phi"
    then Opcode.phi
    else Opcode.none

-- `lookup_opcode` reads back the name that `opcode_name` prints, for every opcode but the end
-- marker `count`.
pub lookup_opcode-opcode_name :
    (op : Opcode) → op ≢ Opcode.count → lookup_opcode (opcode_name op) ≡ op
unfolding lookup_opcode opcode_name
lookup_opcode-opcode_name Opcode.none h = refl
lookup_opcode-opcode_name Opcode.count h = absurd (h refl)
lookup_opcode-opcode_name _ h = refl
