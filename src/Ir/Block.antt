-- ===== src/Ir/Block.antt =====
-- src/ir/block.c: the edges between blocks, each kept at both of its ends.
pub mod Edges
use nybit.Base.{
  ℕ, zero, suc, Bool, true, false, ◌||◌, List, [], ◌∷◌, ◌++◌, get_elem?, set, ◌==◌, if◌then◌else◌,
  some, none,
}
use nybit.Ir.Function.{Block, adjust}

abbrev pub contains : List ℕ → ℕ → Bool
contains [] v = false
contains (x ∷ xs) v = x == v || contains xs v

-- The entry at the end of an array, put in front of those before it.
abbrev pub under_first : ℕ → List ℕ → List ℕ
under_first x [] = x ∷ []
under_first x (z ∷ zs) = z ∷ x ∷ zs

abbrev pub last_first : List ℕ → List ℕ
last_first [] = []
last_first (x ∷ xs) = under_first x (last_first xs)

-- The loop that overwrites the first entry that equals `v` with the last one, and drops that.
unfoldable pub swap_remove : ℕ → List ℕ → List ℕ
swap_remove v [] = []
swap_remove v (x ∷ xs) = elim (x == v) [ true ↦ last_first xs | false ↦ x ∷ swap_remove v xs ]

abbrev pub add_succ : ℕ → Block → Block
add_succ s b = if contains b.succs s then b else record b { succs = b.succs ++ s ∷ [] }

abbrev pub add_pred : ℕ → Block → Block
add_pred p b = if contains b.preds p then b else record b { preds = b.preds ++ p ∷ [] }

-- `ny_block_add_edge`, on the blocks of a function, in which a block's id is its index. The two
-- blocks may be one.
unfoldable pub add_edge : List Block → ℕ → ℕ → List Block
add_edge blocks pred succ = adjust (adjust blocks pred (add_succ succ)) succ (add_pred pred)

-- `ny_block_remove_edge`
unfoldable pub remove_edge : List Block → ℕ → ℕ → List Block
unfolding swap_remove
remove_edge blocks pred succ =
    adjust (adjust blocks pred (λ b. record b { succs = swap_remove succ b.succs })) succ
      (λ b. record b { preds = swap_remove pred b.preds })
