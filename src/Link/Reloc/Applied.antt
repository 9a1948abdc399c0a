-- ===== src/Link/Reloc/Applied.antt =====
-- What an applied relocation does: the field of the word leads to the address that is meant.
use nybit.Base.{ℕ, ◌+◌, ◌^◌, ◌<◌, ◌≡◌, Bool, true, false, ◌||◌, none, some, List, length, ltb, All}
use nybit.Base.Outcome.{Outcome, done}
use nybit.Target.Aarch64.Buffer.{HasWord, IsPatched}
use nybit.Link.Reloc.{Reloc, OutputSection, add64, target_of}
use nybit.Link.Reloc.Leads.{Leads, SameRest}
use nybit.Link.Reloc.Refused.{Unreachable}

-- Every entry is a byte.
abbrev pub AreBytes : List ℕ → Type 0
AreBytes = All (λ b. b < 2 ^ 8)

-- How a relocation ends: the word at its place leads to the target and its addend, and all other
-- bits and bytes are as before; or the place is outside the section, the symbol has no address, or
-- no word leads from the place to that address, and nothing is written.
pub data Relocated (sec : OutputSection) (r : Reloc) (result : Outcome (List ℕ × Bool))
    : Type 0 where
  relocated :
      (bytes1 : List ℕ) (target_va old word : ℕ)
      → result ≡ done (bytes1, true)
      → target_of r.type r ≡ some target_va
      → HasWord sec.bytes r.target_sec_offset old
      → Leads r.type word (add64 target_va r.addend) r.place_va
      → SameRest r.type word old
      → IsPatched sec.bytes r.target_sec_offset word bytes1
      → Relocated sec r result
  outside :
      (ltb (length sec.bytes) (r.target_sec_offset + 4)
          || ltb sec.file_size (r.target_sec_offset + 4))
        ≡ true
      → result ≡ done (sec.bytes, false)
      → Relocated sec r result
  unresolved : target_of r.type r ≡ none → result ≡ done (sec.bytes, false) → Relocated sec r result
  no_fit :
      (target_va : ℕ)
      → target_of r.type r ≡ some target_va
      → Unreachable r.type (add64 target_va r.addend) r.place_va
      → result ≡ done (sec.bytes, false)
      → Relocated sec r result
