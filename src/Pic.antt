-- ===== src/Pic.antt =====
-- code/PIC.cpp: the two interrupt controllers.
pub mod Remap
use hobby_kernel.Common.{ℕ, leb, if◌then◌else◌}
use hobby_kernel.Ports.{Ports, outb, inb, io_wait}

abbrev pub pic1_command : ℕ
pic1_command = 0x20

abbrev pub pic1_data : ℕ
pic1_data = 0x21

abbrev pub pic2_command : ℕ
pic2_command = 0xA0

abbrev pub pic2_data : ℕ
pic2_data = 0xA1

-- ICW1_INIT+ICW1_ICW4
abbrev pub icw1_init_icw4 : ℕ
icw1_init_icw4 = 0x11

abbrev pub icw4_8086 : ℕ
icw4_8086 = 0x01

abbrev pub pic_eoi : ℕ
pic_eoi = 0x20

unfoldable pub send_eoi : ℕ → Ports → Ports
send_eoi irq s =
    let s' = if leb 8 irq then outb pic2_command pic_eoi s else s in outb pic1_command pic_eoi s'

abbrev outb_wait : (port b : ℕ) → Ports → Ports
outb_wait port b s = io_wait (outb port b s)

pub remap : (offset1 offset2 : ℕ) → Ports → Ports
remap offset1 offset2 s =
    let (a1, s1) = inb pic1_data s in
    let (a2, s2) = inb pic2_data s1 in
    let s3 = outb_wait pic2_command icw1_init_icw4 (outb_wait pic1_command icw1_init_icw4 s2) in
    let s4 = outb_wait pic2_data offset2 (outb_wait pic1_data offset1 s3) in
    let s5 = outb_wait pic2_data 2 (outb_wait pic1_data 4 s4) in
    let s6 = outb_wait pic2_data icw4_8086 (outb_wait pic1_data icw4_8086 s5) in
    let s7 = outb_wait pic2_data a2 (outb_wait pic1_data a1 s6) in
    io_wait (outb 0xA1 0xFF (outb 0x21 0xFC s7))
