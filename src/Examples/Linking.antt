-- ===== src/Examples/Linking.antt =====
-- src/nylink/nylink_reloc.c at a concrete input.
use nybit.Base.{◌≡◌, refl, true, false, [], ◌∷◌}
use nybit.Base.Outcome.{done}
use nybit.Link.Reloc.{RelocType, Plan, Reloc, OutputSection, apply_reloc}

-- A call, and the return behind it.
abbrev text : OutputSection
text = record { bytes = 0x00 ∷ 0x00 ∷ 0x00 ∷ 0x94 ∷ 0xC0 ∷ 0x03 ∷ 0x5F ∷ 0xD6 ∷ []; file_size = 8 }

-- A call backwards, to a function at 0x400000 from 0x400100.
abbrev call_back : Reloc
call_back = record {
  type = RelocType.aarch64_call26;
  addend = 0;
  place_va = 0x400100;
  target_sec_offset = 0;
  plan = Plan.other;
  slot = 0;
  plt_va = 0;
  got_va = 0;
  is_defined = true;
  is_dynamic = false;
  is_weak = false;
  final_va = 0x400000;
}

-- 0x97FFFFC0 is `bl` with the displacement -0x100.
called_back :
    apply_reloc text call_back
    ≡ done (0xC0 ∷ 0xFF ∷ 0xFF ∷ 0x97 ∷ 0xC0 ∷ 0x03 ∷ 0x5F ∷ 0xD6 ∷ [], true)
unfolding apply_reloc
called_back = refl
