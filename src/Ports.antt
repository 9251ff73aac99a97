-- ===== src/Ports.antt =====
-- code/PortIO.cpp: `outb`, `inb` and `io_wait`.
use hobby_kernel.Common.{ℕ, ◌+◌, ◌%◌, ◌^◌, List, [], ◌∷◌, ◌==◌, if◌then◌else◌}

-- The bytes sent so far with their ports, the last one first; what the devices answer, by the port
-- and the number of the read; and how many reads there were.
pub record Ports : Type 0 where
  pub sent : List (ℕ × ℕ)
  pub answer : ℕ → ℕ → ℕ
  pub reads : ℕ

-- The parameters are a 16-bit port and a byte.
abbrev pub outb : (port b : ℕ) → Ports → Ports
outb port b s = record s { sent = (port % 2 ^ 16, b % 2 ^ 8) ∷ s.sent }

abbrev pub inb : ℕ → Ports → ℕ × Ports
inb port s = (s.answer (port % 2 ^ 16) s.reads % 2 ^ 8, record s { reads = s.reads + 1 })

-- Two jumps to the next instruction.
abbrev pub io_wait : Ports → Ports
io_wait s = s

-- The bytes that one port has been sent, the last one first.
abbrev pub bytes_to : ℕ → List (ℕ × ℕ) → List ℕ
bytes_to port [] = []
bytes_to port ((q, b) ∷ sent) = if q == port then b ∷ bytes_to port sent else bytes_to port sent
