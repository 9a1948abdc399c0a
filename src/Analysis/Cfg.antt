-- ===== src/Analysis/Cfg.antt =====
-- src/analysis/cfg.c: the depth-first walk over a function's blocks, which numbers them in reverse
-- post order and finds the back edges. An `int32_t` is its 32-bit pattern. The stack and the post
-- order have room for as many entries as there are blocks.
pub mod Reach
pub mod Trail
pub mod Marks
pub mod Turn
pub mod Close
pub mod Work
pub mod Ends
pub mod Number
pub mod Start
pub mod Headers
pub mod Result
use nybit.Base.{
  ℕ, zero, suc, ◌+◌, ◌-◌, ◌%◌, ◌^◌, Bool, true, false, ◌&&◌, ◌||◌, not, Option, none, some, List,
  [], ◌∷◌, ◌++◌, map, length, get_elem?, set, leb, ltb, ◌==◌, if◌then◌else◌,
}
use nybit.Base.Outcome.{Outcome, done, faulted, ◌>>=◌}
use nybit.Ir.Function.{Block, Function, invalid}

-- `Ny_CFG_Edge`
pub record Edge : Type 0 where
  pub source : ℕ
  pub target : ℕ

-- `Ny_CFG_Info`; a count is a list's length.
pub record CfgInfo : Type 0 where
  pub rpo : List ℕ
  pub post_order : List ℕ
  pub rpo_index : List ℕ
  pub reachable : List Bool
  pub loop_headers : List Bool
  pub back_edges : List Edge

-- `CFG_Stack_Frame`
pub record Frame : Type 0 where
  pub blk : ℕ
  pub succ : ℕ

-- The locals of `ny_cfg_info_init`, with the loop headers; the top of the stack is the first. A
-- block's mark is 0, then 1 while it is on the stack, then 2.
pub record Walk : Type 0 where
  pub visited : List ℕ
  pub stack : List Frame
  pub post : List ℕ
  pub back : List Edge
  pub headers : List Bool

-- `blk->succs[frame->succ]`, where there is such a block and such a successor
abbrev pub next_succ : Function → Frame → Option ℕ
next_succ fn frame = elim (get_elem? fn.blocks frame.blk) [
  | none ↦ none
  | some b ↦ get_elem? b.succs frame.succ
]

-- A frame put on top of a stack of `room` entries.
abbrev pub push_frame : ℕ → Walk → Frame → Outcome Walk
push_frame room w frame =
    if ltb (length w.stack) room then done (record w { stack = frame ∷ w.stack }) else faulted

-- The body of the loop where the frame on top has a successor left.
unfoldable pub follow_succ : ℕ → Walk → Frame → List Frame → ℕ → Outcome Walk
follow_succ room w frame rest s =
    let moved : Walk = record w { stack = record frame { succ = frame.succ + 1 } ∷ rest } in
    elim (get_elem? w.visited s) [
      | none ↦ done moved
      | some mark ↦
          if mark == 1
          then done (record moved {
            back = w.back ++ record { source = frame.blk; target = s } ∷ [];
            headers = set w.headers s true;
          })
          else if mark == 0
          then push_frame room (record moved { visited = set w.visited s 1 })
              (record { blk = s; succ = 0 })
          else done moved
    ]

-- The body of the loop where it has none.
unfoldable pub finish_block : ℕ → Walk → Frame → List Frame → Outcome Walk
finish_block room w frame rest =
    if ltb frame.blk (length w.visited) && ltb (length w.post) room
    then done (record w {
      visited = set w.visited frame.blk 2;
      post = w.post ++ frame.blk ∷ [];
      stack = rest;
    })
    else faulted

-- The body of the `while` loop.
unfoldable pub walk_step : Function → Walk → Frame → List Frame → Outcome Walk
unfolding follow_succ finish_block
walk_step fn w frame rest = elim (next_succ fn frame) [
  | none ↦ finish_block (length fn.blocks) w frame rest
  | some s ↦ follow_succ (length fn.blocks) w frame rest s
]

-- The `while` loop: none where the fuel runs out.
unfoldable pub dfs : Function → ℕ → Walk → Outcome (Option Walk)
unfolding walk_step
dfs fn zero w = elim w.stack [ [] ↦ done (some w) | frame ∷ rest ↦ done none ]
dfs fn (suc fuel) w = elim w.stack [
  | [] ↦ done (some w)
  | frame ∷ rest ↦ walk_step fn w frame rest >>= dfs fn fuel
]

-- A round for every block, and one for each of its successors.
abbrev pub rounds : List Block → ℕ
rounds [] = 0
rounds (b ∷ bs) = suc (length b.succs) + rounds bs

-- `memset` and the loop that fills `rpo_index`.
abbrev pub filled {ℓ} : {A : Type ℓ} → A → List Block → List A
filled x [] = []
filled x (b ∷ bs) = x ∷ filled x bs

unfoldable pub walk_start : Function → Walk
walk_start fn =
    let blank : Walk = record {
      visited = filled 0 fn.blocks;
      stack = [];
      post = [];
      back = [];
      headers = filled false fn.blocks;
    } in
    if ltb fn.entry_block (length fn.blocks)
    then record blank {
      visited = set blank.visited fn.entry_block 1;
      stack = record { blk = fn.entry_block; succ = 0 } ∷ [];
    }
    else blank

abbrev pub reverse : List ℕ → List ℕ
reverse [] = []
reverse (x ∷ xs) = reverse xs ++ x ∷ []

-- The last loop, from number `i` on: it numbers the blocks and marks them reachable.
abbrev pub number_blocks : List ℕ → ℕ → List ℕ → List ℕ
number_blocks [] i index = index
number_blocks (b ∷ bs) i index = number_blocks bs (suc i) (set index b (i % 2 ^ 32))

abbrev pub mark_reachable : List ℕ → List Bool → List Bool
mark_reachable [] flags = flags
mark_reachable (b ∷ bs) flags = mark_reachable bs (set flags b true)

abbrev pub summary : Function → Walk → CfgInfo
summary fn w = record {
  rpo = reverse w.post;
  post_order = w.post;
  rpo_index = number_blocks (reverse w.post) 0 (filled (2 ^ 32 - 1) fn.blocks);
  reachable = mark_reachable (reverse w.post) (filled false fn.blocks);
  loop_headers = w.headers;
  back_edges = w.back;
}

abbrev pub no_info : CfgInfo
no_info = record {
  rpo = [];
  post_order = [];
  rpo_index = [];
  reachable = [];
  loop_headers = [];
  back_edges = [];
}

-- `ny_cfg_info_init`
unfoldable pub cfg_info_init : Function → Outcome (Option CfgInfo)
unfolding dfs walk_start
cfg_info_init fn =
    if length fn.blocks == 0 || fn.entry_block == invalid
    then done (some no_info)
    else (dfs fn (rounds fn.blocks) (walk_start fn)
        >>= (λ r. done (elim r [ none ↦ none | some w ↦ some (summary fn w) ])))

-- `idx < count && flags[idx]`
abbrev pub flag_at : List Bool → ℕ → Bool
flag_at flags idx = elim (get_elem? flags idx) [ none ↦ false | some b ↦ b ]

-- `ny_cfg_is_reachable`
abbrev pub cfg_is_reachable : CfgInfo → ℕ → Bool
cfg_is_reachable info blk = flag_at info.reachable blk

-- `ny_cfg_is_loop_header`
abbrev pub cfg_is_loop_header : CfgInfo → ℕ → Bool
cfg_is_loop_header info blk = flag_at info.loop_headers blk

abbrev pub has_edge : ℕ → ℕ → List Edge → Bool
has_edge source target [] = false
has_edge source target (e ∷ es) =
    (e.source == source && e.target == target) || has_edge source target es

-- `ny_cfg_is_back_edge`
abbrev pub cfg_is_back_edge : CfgInfo → ℕ → ℕ → Bool
cfg_is_back_edge info source target = has_edge source target info.back_edges

-- `ny_cfg_rpo_index`
abbrev pub cfg_rpo_index : CfgInfo → ℕ → ℕ
cfg_rpo_index info blk = elim (get_elem? info.rpo_index blk) [ none ↦ 2 ^ 32 - 1 | some i ↦ i ]

-- `ny_cfg_get_successors`
abbrev pub cfg_get_successors : Function → ℕ → List ℕ
cfg_get_successors fn blk = elim (get_elem? fn.blocks blk) [ none ↦ [] | some b ↦ b.succs ]

-- `ny_cfg_get_predecessors`
abbrev pub cfg_get_predecessors : Function → ℕ → List ℕ
cfg_get_predecessors fn blk = elim (get_elem? fn.blocks blk) [ none ↦ [] | some b ↦ b.preds ]
