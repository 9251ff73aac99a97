-- ===== src/Pic/Remap.antt =====
-- code/PIC.cpp: what the controllers are sent.
use hobby_kernel.Common.{ℕ, ◌+◌, ◌%◌, ◌^◌, ◌≡◌, refl, ◌∷◌, arith}
use hobby_kernel.Ports.{Ports, bytes_to}
use hobby_kernel.Pic.{remap, pic1_command, pic1_data, pic2_command, pic2_data}

-- `remap` sends each controller, behind all before, the start of the sequence, its vector offset,
-- its place in the cascade and the mode, then the mask that was read from it, and at last another
-- mask in its place: 0xFC to the first, so that timer and keyboard alone come through, and 0xFF to
-- the second.
pub remap_lem :
    (offset1 offset2 : ℕ) (s : Ports)
    → (bytes_to pic1_command (remap offset1 offset2 s).sent ≡ 0x11 ∷ bytes_to pic1_command s.sent)
      × (bytes_to pic2_command (remap offset1 offset2 s).sent ≡ 0x11 ∷ bytes_to pic2_command s.sent)
      × (bytes_to pic1_data (remap offset1 offset2 s).sent
          ≡ 0xFC
            ∷ s.answer pic1_data s.reads % 2 ^ 8
            ∷ 1
            ∷ 4
            ∷ offset1 % 2 ^ 8
            ∷ bytes_to pic1_data s.sent)
      × (bytes_to pic2_data (remap offset1 offset2 s).sent
          ≡ 0xFF
            ∷ s.answer pic2_data (s.reads + 1) % 2 ^ 8
            ∷ 1
            ∷ 2
            ∷ offset2 % 2 ^ 8
            ∷ bytes_to pic2_data s.sent)
unfolding remap
remap_lem offset1 offset2 s = (refl, refl, ground arith, ground arith)
