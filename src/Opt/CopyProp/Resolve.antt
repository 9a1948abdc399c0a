-- ===== src/Opt/CopyProp/Resolve.antt =====
-- Following copies ends at a value that is none, or after 64 of them.
use nybit.Base.{
  ℕ, zero, suc, ◌≡◌, ◌⊎◌, inl, inr, refl, ap, true, false, ◌||◌, Bool-cases, Option-cases, none,
  some, List, get_elem?, ◌==◌,
}
use nybit.Ir.Function.{invalid}
use nybit.Opt.CopyProp.{follow, resolve_copy}

-- From the one value to the other there are this many copies of the map, each of a valid value
-- other than itself.
abbrev pub Chain : List ℕ → ℕ → ℕ → ℕ → Type 0
Chain copy_map zero v r = v ≡ r
Chain copy_map (suc n) v r =
    (next : ℕ) × (get_elem? copy_map v ≡ some next)
    × ((next == invalid || next == v) ≡ false)
    × Chain copy_map n next r

-- The value is no copy of another one.
abbrev pub IsRoot : List ℕ → ℕ → Type 0
IsRoot copy_map r =
    (get_elem? copy_map r ≡ none)
    ⊎ ((next : ℕ) × (get_elem? copy_map r ≡ some next) × ((next == invalid || next == r) ≡ true))

follow-Chain :
    (fuel : ℕ) (copy_map : List ℕ) (v : ℕ)
    → (n : ℕ) × Chain copy_map n v (follow fuel copy_map v)
      × (IsRoot copy_map (follow fuel copy_map v) ⊎ (n ≡ fuel))
unfolding follow
follow-Chain zero copy_map v = (0, refl, inr refl)
follow-Chain (suc fuel) copy_map v = elim (Option-cases (get_elem? copy_map v)) [
  | inl outside ↦ rw (follow, outside) (0, refl, inl (inl outside))
  | inr inside ↦ elim (Bool-cases (inside.0 == invalid || inside.0 == v)) [
    | inl root ↦ rw (follow, inside.1, root) (0, refl, inl (inr (inside.0, inside.1, root)))
    | inr copy ↦
        let rest = follow-Chain fuel copy_map inside.0 in
        rw (follow, inside.1, copy)
          (
            suc rest.0,
            (inside.0, inside.1, copy, rest.1),
            elim rest.2 [ inl root ↦ inl root | inr all ↦ inr (ap suc all) ],
          )
  ]
]

-- `resolve_copy` goes along copies of the map, each of a valid value other than itself, and
-- ends at a value that is no copy of another one or after 64 copies.
pub resolve_copy-Chain :
    (copy_map : List ℕ) (v : ℕ)
    → (n : ℕ) × Chain copy_map n v (resolve_copy copy_map v)
      × (IsRoot copy_map (resolve_copy copy_map v) ⊎ (n ≡ 64))
unfolding resolve_copy
resolve_copy-Chain copy_map v = follow-Chain 64 copy_map v
