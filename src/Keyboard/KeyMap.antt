-- ===== src/Keyboard/KeyMap.antt =====
-- code/Keyboard.cpp, `setupKeyMap`: the keys of the scan codes, by the values of code/KeyEvent.cpp.
use hobby_kernel.Common.{ℕ, List, [], ◌∷◌}

-- The entries from 0 on; the entries behind them are never written.
abbrev pub key_map : List ℕ
key_map =
    0 ∷ 0x78 ∷ 0 ∷ 0x74 ∷ 0x72 ∷ 0x70 ∷ 0x71 ∷ 0x7B ∷ 0 ∷ 0x79 ∷ 0x77 ∷ 0x75 ∷ 0x73 ∷ 0x09 ∷ 0xC0
    ∷ 0 ∷ 0 ∷ 0xB8 ∷ 0x10 ∷ 0 ∷ 0x11 ∷ 0x51 ∷ 0x31 ∷ 0 ∷ 0 ∷ 0 ∷ 0x5A ∷ 0x53 ∷ 0x41 ∷ 0x57 ∷ 0x32
    ∷ 0 ∷ 0 ∷ 0x43 ∷ 0x58 ∷ 0x44 ∷ 0x45 ∷ 0x34 ∷ 0x33 ∷ 0 ∷ 0 ∷ 0x20 ∷ 0x56 ∷ 0x46 ∷ 0x54 ∷ 0x52
    ∷ 0x35 ∷ 0 ∷ 0 ∷ 0x4E ∷ 0x42 ∷ 0x48 ∷ 0x47 ∷ 0x59 ∷ 0x36 ∷ 0 ∷ 0 ∷ 0 ∷ 0x4D ∷ 0x4A ∷ 0x55 ∷ 0x37
    ∷ 0x38 ∷ 0 ∷ 0 ∷ 0xBC ∷ 0x4B ∷ 0x49 ∷ 0x4F ∷ 0x30 ∷ 0x39 ∷ 0 ∷ 0 ∷ 0xBE ∷ 0xBF ∷ 0x4C ∷ 0xBA
    ∷ 0x50 ∷ 0x6D ∷ 0 ∷ 0 ∷ 0 ∷ 0xDE ∷ 0 ∷ 0xDB ∷ 0xBB ∷ 0 ∷ 0 ∷ 0x14 ∷ 0x10 ∷ 0x0D ∷ 0xDD ∷ 0
    ∷ 0xDC ∷ 0 ∷ 0 ∷ 0 ∷ 0 ∷ 0 ∷ 0 ∷ 0 ∷ 0 ∷ 0x08 ∷ 0 ∷ 0 ∷ 0x61 ∷ 0 ∷ 0x64 ∷ 0x67 ∷ 0 ∷ 0 ∷ 0
    ∷ 0x60 ∷ 0xBE ∷ 0x62 ∷ 0x65 ∷ 0x66 ∷ 0x68 ∷ 0x1B ∷ 0x90 ∷ 0x7A ∷ 0xBB ∷ 0x63 ∷ 0x6D ∷ 0x6A
    ∷ 0x69 ∷ 0x91 ∷ 0 ∷ 0 ∷ 0 ∷ 0 ∷ 0x76 ∷ []
