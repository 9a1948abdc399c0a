-- ===== src/Opt/Dce.antt =====
-- src/opt/dce.c: removing the instructions that have no effect and whose result nothing uses. The
-- uses are counted anew (`am` is null). The worklist's top is the head of the list.
pub mod Fuel
pub mod Release
pub mod Fates
pub mod Sound
pub mod Pushed
pub mod Waiting
pub mod Complete
use nybit.Base.{
  ℕ, zero, suc, ◌+◌, ◌-◌, Bool, true, false, ◌&&◌, ◌||◌, not, Option, none, some, List, [], ◌∷◌,
  length, get_elem?, set, ltb, ◌==◌, if◌then◌else◌, bit_and,
}
use nybit.Base.Outcome.{Outcome, done, faulted, ◌>>=◌}
use nybit.Ir.Opcode.{Opcode, is_terminator}
use nybit.Ir.Function.{Operand, Instruction, Function, invalid, is_none}
use nybit.Ir.Function.Remove.{remove_instruction}
use nybit.Analysis.UseDef.{UseDef, init, read_operands, get_def, use_count}

-- `NY_FLAG_VOLATILE`
abbrev flag_volatile : ℕ
flag_volatile = 1

-- The switch of `inst_has_side_effects`.
abbrev writes : Opcode → Bool
writes Opcode.store = true
writes Opcode.atomic_store = true
writes Opcode.atomic_rmw = true
writes Opcode.atomic_cmpxchg = true
writes Opcode.fence = true
writes Opcode.call = true
writes Opcode.call_indirect = true
writes Opcode.trap = true
writes _ = false

-- `inst_has_side_effects`
unfoldable pub has_side_effects : Opcode → ℕ → Bool
unfolding is_terminator
has_side_effects opcode flags =
    is_terminator opcode || not (bit_and flags flag_volatile == 0) || writes opcode

-- `active_use_count` and the worklist.
pub record Work : Type 0 where
  pub active : List ℕ
  pub dead : List ℕ

-- The array `active_use_count` from the value `i` on.
abbrev pub active_counts : UseDef → ℕ → ℕ → List ℕ
active_counts ud i zero = []
active_counts ud i (suc n) = use_count ud i ∷ active_counts ud (suc i) n

abbrev pub is_zero : Option ℕ → Bool
is_zero none = false
is_zero (some c) = c == 0

-- The test of the first loop: whether an instruction is put on the worklist.
abbrev pub is_seed : ℕ → List ℕ → Instruction → Bool
is_seed num_values active inst =
    if is_none inst.opcode || inst.result == invalid || has_side_effects inst.opcode inst.flags
    then false
    else ltb inst.result num_values && is_zero (get_elem? active inst.result)

unfoldable pub seed : ℕ → List ℕ → List Instruction → List ℕ → List ℕ
unfolding has_side_effects
seed num_values active [] dead = dead
seed num_values active (inst ∷ insts) dead =
    seed num_values active insts (if is_seed num_values active inst then inst.id ∷ dead else dead)

-- The push of a definition whose last use is gone.
unfoldable pub push_def : Function → ℕ → List ℕ → List ℕ
unfolding has_side_effects
push_def fn def_id dead =
    if def_id == invalid then dead else (elim (get_elem? fn.instructions def_id) [
      | none ↦ dead
      | some def_inst ↦
          if has_side_effects def_inst.opcode def_inst.flags then dead else def_id ∷ dead
    ])

-- One use less of the value `v`.
abbrev pub release_value : UseDef → Function → ℕ → Work → Work
release_value ud fn v w = elim (get_elem? w.active v) [
  | none ↦ w
  | some c ↦ if c == 0 then w else record {
    active = set w.active v (c - 1);
    dead = if c - 1 == 0 then push_def fn (get_def ud v) w.dead else w.dead;
  }
]

-- The loop over the operands.
abbrev pub release : UseDef → Function → ℕ → List Operand → Work → Work
release ud fn num_values [] w = w
release ud fn num_values (Operand.value v ∷ ops) w =
    release ud fn num_values ops (if ltb v num_values then release_value ud fn v w else w)
release ud fn num_values (_ ∷ ops) w = release ud fn num_values ops w

pub record Pass : Type 0 where
  pub fn : Function
  pub work : Work
  pub changed : Bool

-- The body of the `while` loop for a live instruction without side effects.
abbrev pub drop_instruction : UseDef → ℕ → ℕ → Instruction → Pass → Outcome Pass
drop_instruction ud num_values inst_id inst p = read_operands p.fn inst >>= (λ ops.
    remove_instruction p.fn inst_id >>= (λ fn1.
      done (record { fn = fn1; work = release ud p.fn num_values ops p.work; changed = true })))

-- The body of the `while` loop, after the instruction was taken from the worklist.
unfoldable pub turn : UseDef → ℕ → ℕ → Pass → Outcome Pass
unfolding has_side_effects push_def remove_instruction read_operands
turn ud num_values inst_id p = elim (get_elem? p.fn.instructions inst_id) [
  | none ↦ done p
  | some inst ↦
      if is_none inst.opcode || has_side_effects inst.opcode inst.flags
      then done p
      else drop_instruction ud num_values inst_id inst p
]

abbrev pub popped : Pass → List ℕ → Pass
popped p rest = record p { work = record { active = p.work.active; dead = rest } }

-- The `while` loop; `none` where the fuel runs out.
unfoldable pub loop : UseDef → ℕ → ℕ → Pass → Outcome (Option Pass)
unfolding turn
loop ud num_values zero p = elim p.work.dead [ [] ↦ done (some p) | _ ∷ _ ↦ done none ]
loop ud num_values (suc fuel) p = elim p.work.dead [
  | [] ↦ done (some p)
  | inst_id ∷ rest ↦ turn ud num_values inst_id (popped p rest) >>= loop ud num_values fuel
]

-- The state before the `while` loop.
unfoldable pub started : Function → UseDef → Pass
unfolding seed
started fn ud =
    let active = active_counts ud 0 (length fn.values) in
    record {
      fn = fn;
      work = record { active = active; dead = seed (length fn.values) active fn.instructions [] };
      changed = false;
    }

-- `ny_opt_pass_dce`. An instruction is put on the worklist at the start, or when a count falls to
-- zero, which happens once for each value.
unfoldable pub pass_dce : Function → Outcome (Option (Function × Bool))
unfolding init started loop
pass_dce fn =
    if length fn.values == 0
    then done (some (fn, false))
    else (init fn >>= (λ ud.
        loop ud (length fn.values) (length fn.instructions + length fn.values) (started fn ud)
        >>= (λ r. done (elim r [ none ↦ none | some p ↦ some (p.fn, p.changed) ]))))
