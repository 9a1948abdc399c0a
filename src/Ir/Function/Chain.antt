-- ===== src/Ir/Function/Chain.antt =====
-- The doubly linked list of a block's instructions.
use nybit.Base.{
  ℕ, ◌≡◌, ◌≢◌, refl, sym, ◌∙◌, false, some, List, [], ◌∷◌, ◌++◌, length, get_elem?, set, All,
  get_elem?-set_self, get_elem?-set_ne, lt-length_of_get_elem?,
}
use nybit.Ir.Function.{Instruction, Block, Function, invalid, is_none}

-- The first id of a list, or `n` where it is empty; the last id, or `p`.
abbrev pub first_or : List ℕ → ℕ → ℕ
first_or [] n = n
first_or (i ∷ is) n = i

abbrev pub last_or : ℕ → List ℕ → ℕ
last_or p [] = p
last_or p (i ∷ is) = last_or i is

pub last_or-append : (p : ℕ) (xs ys : List ℕ) → last_or p (xs ++ ys) ≡ last_or (last_or p xs) ys
last_or-append p [] ys = refl
last_or-append p (x ∷ xs) ys = last_or-append x xs ys

-- The instruction with the id `i` is a live one of the block `b`, between `p` and `n`.
pub record IsAt (insts : List Instruction) (b p n i : ℕ) : Type 0 where
  pub inst : Instruction
  pub found : get_elem? insts i ≡ some inst
  pub live : is_none inst.opcode ≡ false
  pub owner : inst.block ≡ b
  pub prev : inst.prev ≡ p
  pub next : inst.next ≡ n

-- The ids are linked in their order, from `p` before the first to `n` behind the last.
abbrev pub Linked : List Instruction → ℕ → ℕ → List ℕ → ℕ → Type 0
Linked insts b p [] n = Unit {0}
Linked insts b p (i ∷ is) n = IsAt insts b p (first_or is n) i × Linked insts b i is n

-- `i` is none of the ids.
abbrev pub Fresh : ℕ → List ℕ → Type 0
Fresh i = All (λ j. i ≢ j)

abbrev pub Distinct : List ℕ → Type 0
Distinct [] = Unit {0}
Distinct (i ∷ is) = Fresh i is × Distinct is

-- No id of the one list is in the other.
abbrev pub Apart : List ℕ → List ℕ → Type 0
Apart xs ys = All (λ x. Fresh x ys) xs

pub All-last {ℓ} : (P : ℕ → Type ℓ) (y : ℕ) (xs : List ℕ) → All P (y ∷ xs) → P (last_or y xs)
All-last P y [] h = h.0
All-last P y (z ∷ xs) h = All-last P z xs h.1

All-append_inv {ℓ} : (P : ℕ → Type ℓ) (xs ys : List ℕ) → All P (xs ++ ys) → All P xs × All P ys
All-append_inv P [] ys h = (tt, h)
All-append_inv P (x ∷ xs) ys h = let rest = All-append_inv P xs ys h.1 in ((h.0, rest.0), rest.1)

pub All-append {ℓ} : (P : ℕ → Type ℓ) (xs ys : List ℕ) → All P xs → All P ys → All P (xs ++ ys)
All-append P [] ys hx hy = hy
All-append P (x ∷ xs) ys hx hy = (hx.0, All-append P xs ys hx.1 hy)

pub Distinct-append_inv :
    (xs ys : List ℕ) → Distinct (xs ++ ys) → Distinct xs × Distinct ys × Apart xs ys
Distinct-append_inv [] ys h = (tt, h, tt)
Distinct-append_inv (x ∷ xs) ys h =
    let rest = Distinct-append_inv xs ys h.1 in
    let fresh = All-append_inv (λ j. x ≢ j) xs ys h.0 in
    ((fresh.0, rest.0), rest.1, (fresh.1, rest.2))

pub Distinct-append :
    (xs ys : List ℕ) → Distinct xs → Distinct ys → Apart xs ys → Distinct (xs ++ ys)
Distinct-append [] ys dx dy apart = dy
Distinct-append (x ∷ xs) ys dx dy apart =
    (All-append (λ j. x ≢ j) xs ys dx.0 apart.0, Distinct-append xs ys dx.1 dy apart.1)

-- An id that the ids of a list are apart from is fresh there.
pub Apart-sym : (xs : List ℕ) (i : ℕ) (ys : List ℕ) → Apart xs (i ∷ ys) → Fresh i xs × Apart xs ys
Apart-sym [] i ys h = (tt, tt)
Apart-sym (x ∷ xs) i ys h =
    let rest = Apart-sym xs i ys h.1 in (((λ e. h.0.0 (sym e)), rest.0), (h.0.1, rest.1))

-- The block `b` of the function holds the instructions `ids`, in this order.
pub record Holds (fn : Function) (b : ℕ) (ids : List ℕ) : Type 0 where
  pub block : Block
  pub found : get_elem? fn.blocks b ≡ some block
  pub first : block.first_inst ≡ first_or ids invalid
  pub last : block.last_inst ≡ last_or invalid ids
  pub count : block.inst_count ≡ length ids
  pub linked : Linked fn.instructions b invalid ids invalid
  pub distinct : Distinct ids

module _ (insts : List Instruction) (b : ℕ) where
  pub Linked-append_left :
      (p : ℕ) (xs ys : List ℕ) (n : ℕ)
      → Linked insts b p (xs ++ ys) n
      → Linked insts b p xs (first_or ys n)
  Linked-append_left p [] ys n h = tt
  Linked-append_left p (x ∷ []) ys n h = (h.0, tt)
  Linked-append_left p (x ∷ y ∷ xs) ys n h = (h.0, Linked-append_left x (y ∷ xs) ys n h.1)

  pub Linked-append_right :
      (p : ℕ) (xs ys : List ℕ) (n : ℕ)
      → Linked insts b p (xs ++ ys) n
      → Linked insts b (last_or p xs) ys n
  Linked-append_right p [] ys n h = h
  Linked-append_right p (x ∷ xs) ys n h = Linked-append_right x xs ys n h.1

  pub Linked-append :
      (p : ℕ) (xs ys : List ℕ) (n : ℕ)
      → Linked insts b p xs (first_or ys n)
      → Linked insts b (last_or p xs) ys n
      → Linked insts b p (xs ++ ys) n
  Linked-append p [] ys n hx hy = hy
  Linked-append p (x ∷ []) ys n hx hy = (hx.0, hy)
  Linked-append p (x ∷ y ∷ xs) ys n hx hy = (hx.0, Linked-append x (y ∷ xs) ys n hx.1 hy)

-- Writes to one instruction.
module _ (insts : List Instruction) (b : ℕ) where
  pub IsAt-set :
      {p n i : ℕ} (k : ℕ) (v : Instruction)
      → k ≢ i
      → IsAt insts b p n i
      → IsAt (set insts k v) b p n i
  IsAt-set k v ne at = record {
    inst = at.inst;
    found = rw (get_elem?-set_ne insts v ne) at.found;
    live = at.live;
    owner = at.owner;
    prev = at.prev;
    next = at.next;
  }

  IsAt-set_next :
      {p n i : ℕ} (m : ℕ) {l : Instruction}
      → get_elem? insts i ≡ some l
      → IsAt insts b p n i
      → IsAt (set insts i (record l { next = m })) b p m i
  IsAt-set_next {i = i} m {l = l} found at =
      let both = sym at.found ∙ found in
      let same : at.inst ≡ l = cc in
      record {
        inst = record l { next = m };
        found = get_elem?-set_self insts i _ (lt-length_of_get_elem? insts i found);
        live = rw same at at.live;
        owner = rw same at at.owner;
        prev = rw same at at.prev;
        next = refl;
      }

  pub IsAt-set_prev :
      {p n i : ℕ} (q : ℕ) {l : Instruction}
      → get_elem? insts i ≡ some l
      → IsAt insts b p n i
      → IsAt (set insts i (record l { prev = q })) b q n i
  IsAt-set_prev {i = i} q {l = l} found at =
      let both = sym at.found ∙ found in
      let same : at.inst ≡ l = cc in
      record {
        inst = record l { prev = q };
        found = get_elem?-set_self insts i _ (lt-length_of_get_elem? insts i found);
        live = rw same at at.live;
        owner = rw same at at.owner;
        prev = refl;
        next = rw same at at.next;
      }

  -- A write to an instruction outside the list does not touch it.
  pub Linked-set :
      (p : ℕ) (is : List ℕ) (n k : ℕ) (v : Instruction)
      → Fresh k is
      → Linked insts b p is n
      → Linked (set insts k v) b p is n
  Linked-set p [] n k v fresh h = tt
  Linked-set p (i ∷ is) n k v fresh h =
      (IsAt-set k v fresh.0 h.0, Linked-set i is n k v fresh.1 h.1)

  pub Linked-last :
      (p y : ℕ) (xs : List ℕ) (n : ℕ)
      → Linked insts b p (y ∷ xs) n
      → (q : ℕ) × IsAt insts b q n (last_or y xs)
  Linked-last p y [] n h = (p, h.0)
  Linked-last p y (z ∷ xs) n h = Linked-last y z xs n h.1

  -- The last instruction of the list points to another one.
  pub Linked-set_next :
      (p y : ℕ) (xs : List ℕ) (n m : ℕ) {l : Instruction}
      → Distinct (y ∷ xs)
      → get_elem? insts (last_or y xs) ≡ some l
      → Linked insts b p (y ∷ xs) n
      → Linked (set insts (last_or y xs) (record l { next = m })) b p (y ∷ xs) m
  Linked-set_next p y [] n m distinct found h = (IsAt-set_next m found h.0, tt)
  Linked-set_next p y (z ∷ xs) n m distinct found h = (
    IsAt-set (last_or z xs) _ (λ e. All-last (λ j. y ≢ j) z xs distinct.0 (sym e)) h.0,
    Linked-set_next y z xs n m distinct.1 found h.1,
  )
