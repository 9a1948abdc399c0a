-- ===== src/Examples/Flow.antt =====
-- src/analysis/cfg.c at concrete inputs.
use nybit.Base.{ℕ, ◌≡◌, refl, arith, true, false, some, List, [], ◌∷◌}
use nybit.Base.Outcome.{done}
use nybit.Ir.Function.{Block, Function, invalid}
use nybit.Analysis.Cfg.{CfgInfo, cfg_info_init}
use nybit.Analysis.Cfg.Result.{IsCfgOf, cfg_info_init_ends, cfg_info_init-IsCfgOf}

abbrev block_with : ℕ → List ℕ → Block
block_with id succs = record {
  id = id;
  name = [];
  first_inst = invalid;
  last_inst = invalid;
  inst_count = 0;
  preds = [];
  succs = succs;
}

-- The entry 0 goes to 1, a loop of 1 and 2 that leaves to 3; nothing goes to 4, and the edge of 3 to
-- 9 leads nowhere.
abbrev looping : Function
looping = record {
  id = 0;
  name = [];
  return_type = 0;
  param_types = [];
  param_names = [];
  call_conv = 0;
  entry_block = 0;
  blocks =
      block_with 0 (1 ∷ [])
      ∷ block_with 1 (2 ∷ 3 ∷ [])
      ∷ block_with 2 (1 ∷ [])
      ∷ block_with 3 (9 ∷ [])
      ∷ block_with 4 (3 ∷ [])
      ∷ [];
  instructions = [];
  values = [];
  operands = [];
}

abbrev expected : CfgInfo
expected = record {
  rpo = 0 ∷ 1 ∷ 3 ∷ 2 ∷ [];
  post_order = 2 ∷ 3 ∷ 1 ∷ 0 ∷ [];
  rpo_index = 0 ∷ 1 ∷ 3 ∷ 2 ∷ 4294967295 ∷ [];
  reachable = true ∷ true ∷ true ∷ true ∷ false ∷ [];
  loop_headers = false ∷ true ∷ false ∷ false ∷ false ∷ [];
  back_edges = record { source = 2; target = 1 } ∷ [];
}

cfg_info_init-looping : cfg_info_init looping ≡ done (some expected)
unfolding cfg_info_init
cfg_info_init-looping = refl

cfg_info_init_ends_example : (info : CfgInfo) × (cfg_info_init looping ≡ done (some info))
cfg_info_init_ends_example = cfg_info_init_ends looping

cfg_info_init-IsCfgOf_example :
    (info : CfgInfo) × (cfg_info_init looping ≡ done (some info)) × IsCfgOf looping info
cfg_info_init-IsCfgOf_example = cfg_info_init-IsCfgOf looping (omega arith) (omega arith)
