-- ===== src/Samples.antt =====
-- A small machine for the tests: the thread of the node at 0x200100 runs, those of the nodes at
-- 0x200200 and 0x200300 are ready, and three messages wait at 0x200040, 0x200060 and 0x200080.
use hobby_kernel.Common.{
  ℕ, ◌+◌, ◌-◌, ◌/◌, refl, true, false, List, [], ◌∷◌, arith, ◌==◌, if◌then◌else◌, replicate,
}
use hobby_kernel.KernelHeap.{KernelHeap, memory_block}
use hobby_kernel.KernelHeap.Bump.{IsReady}
use hobby_kernel.TaskManager.{TaskManager, zero_registers}
use hobby_kernel.TaskManager.Queue.{Runs}
use hobby_kernel.Ipc.{Kernel}
use hobby_kernel.Console.{Screen}
use hobby_kernel.Console.Print.{OnScreen}
use hobby_kernel.Ports.{Ports}
use hobby_kernel.Keyboard.{Keyboard}
use hobby_kernel.Keyboard.Codes.{key_of, key_of-ne_1}
use hobby_kernel.Keyboard.Typed.{Ready}
use hobby_kernel.Keyboard.Safe.{Between}
use hobby_kernel.Keyboard.Strokes.{Idle}
use hobby_kernel.Idt.{Idt}
use hobby_kernel.Idt.Setup.{routine_of, kernel_gate}
use hobby_kernel.Machine.{Machine}
use hobby_kernel.Machine.Interrupts.{Steady}
use hobby_kernel.Ipc.Queue.{Queues}

abbrev pub kernel_heap : KernelHeap
kernel_heap = record {
  is_initialized = true;
  start_address = 0x200000;
  last_valid_address = 0x300000;
  current_address = 0x200400;
  block = λ p. memory_block 1 0xFFC00;
}

abbrev pub running : ℕ
running = 0x200100

abbrev pub ready : List ℕ
ready = 0x200200 ∷ 0x200300 ∷ []

-- A thread lies 0x10 bytes behind its node.
abbrev pub tasks : TaskManager
tasks = record {
  kernel_heap = kernel_heap;
  threads = λ t. record {
    registers = record zero_registers { esp = t };
    page_directory = t + 1;
    heap = t + 2;
    id = (t - 0x200110) / 0x100;
    stack = 0;
  };
  thread = λ a. a + 0x10;
  next = λ a. if a == 0x200200 then 0x200300 else 0;
  remove = λ a. false;
  memory = λ a. 0;
  ready_queue = 0x200200;
  current_thread = 0x200100;
  tid = 3;
  current_heap = 7;
  cpu = record zero_registers { esp = 99 };
  cr3 = 0;
}

abbrev pub messages : List ℕ
messages = 0x200040 ∷ 0x200060 ∷ 0x200080 ∷ []

-- The messages are for the threads 1, 0 and 1.
abbrev pub kernel : Kernel
kernel = record {
  tasks = tasks;
  msgs = 0x200040;
  message = λ a. record { tid = if a == 0x200060 then 0 else 1; size = 2; data_address = 0x2000A0 };
  next = λ a. if a == 0x200040 then 0x200060 else if a == 0x200060 then 0x200080 else 0;
  buffer = λ a. 1 ∷ 2 ∷ 3 ∷ [];
}

pub kernel_heap-IsReady : IsReady kernel_heap
kernel_heap-IsReady = record {
  initialized = refl;
  low = omega arith;
  high = omega arith;
  word = omega arith;
  available = λ h. ground arith;
  to_end = λ h. refl;
}

pub tasks-Runs : Runs tasks running ready
tasks-Runs = record {
  current = refl;
  not_null = ground arith;
  chain = ground arith;
  distinct = ground arith;
  allocated = ground arith;
}

pub kernel-Queues : Queues kernel running ready messages
kernel-Queues = record {
  runs = tasks-Runs;
  chain = ground arith;
  distinct = ground arith;
  allocated = ground arith;
  data_allocated = ground arith;
}

-- Each byte holds its own offset, and the cursor is at the end of the last row.
abbrev pub screen : Screen
screen = record { videoram = λ a. a; cursor_x = 80; cursor_y = 24 }

pub screen-OnScreen : OnScreen screen
screen-OnScreen = record { column = omega arith; row = omega arith }

abbrev pub ports : Ports
ports = record { sent = []; answer = λ port n. port + n; reads = 0 }

-- A line of one character has been typed, and no key is pressed.
abbrev pub keyboard : Keyboard
keyboard = record {
  line_buffer = replicate 78 0;
  lb_len = 1;
  is_pressed = λ key. false;
  scancode_to_key = key_of;
  callback = true;
  events = [];
  length = 0;
  pressed = true;
  handled = false;
  times_to_ignore = 0;
  key = 0;
  screen = screen;
  ports = ports;
}

keyboard-Ready : Ready keyboard
keyboard-Ready = record {
  room = omega arith;
  on_screen = screen-OnScreen;
  key_0 = refl;
  key_1 = refl;
}

pub keyboard-Between : Between keyboard
keyboard-Between = record { ready = keyboard-Ready; reported = refl; keys = key_of-ne_1 }

pub keyboard-Idle : Idle keyboard
keyboard-Idle = record { ready = keyboard-Ready; keys = λ c. refl; is_settled = refl }

abbrev pub idt : Idt
idt = record {
  gates = kernel_gate 8;
  handlers = routine_of;
  limit = 1792;
  base = 0x1000;
  cs = 8;
  not_set = 0;
}

abbrev pub machine : Machine
machine = record { idt = idt; kernel = kernel; keyboard = keyboard; cr2 = 0 }

pub machine-Steady : Steady 2 machine
machine-Steady = record {
  current = running;
  waiting = ready;
  runs = tasks-Runs;
  size = refl;
  alive = λ a. refl;
  routed = λ v h. refl;
  keyboard = keyboard-Between;
}
