-- ===== src/Lib.antt =====
-- A model of a small 32-bit kernel and proofs about it.
--
-- The program. The physical page allocator (kernelcpp/code/mem/pmm.c) hands out pages of memory
-- by a bitmap. The kernel heap (kernelcpp/code/MemoryManagement.cpp) hands out the kernel's own
-- data, among them the threads and queue nodes of the task manager
-- (kernelcpp/code/TaskManager.cpp, kernelcpp/code/thread_asm.s) and the messages
-- (kernelcpp/code/IPC.cpp). The timer interrupt calls the scheduler of the task manager, which
-- switches threads and, for a thread that has ended, clears its messages. Interrupts come through
-- the tables and controllers that kernelcpp/code/IDT.cpp and kernelcpp/code/PIC.cpp set up; those
-- of the keyboard go to kernelcpp/code/Keyboard.cpp, which decodes scan codes and collects a
-- line. kernelcpp/code/TSS.cpp describes the task state segment, and kernelcpp/kmain.cpp starts
-- all parts. Each process has a heap (kernelcpp/code/mem/heap.c), which takes its pages from the
-- page allocator. All parts write on the screen by kernelcpp/code/Console.cpp, and use the
-- functions on bytes and strings of kernelcpp/code/mem/common.c.
--
-- The files. Each top-level file but Common, Samples and Tests models one part, and its children
-- prove theorems on it. Pmm: pmm.c. The record has the globals; set_bit, clear_bit and get_bit
-- are the operations of these names, alloc_page is pmm_alloc_page, free_page is pmm_free_page,
-- and fill_bitmap is map_pmm_to_virtual_space less its call of map, which Paging has. Pmm/Bits
-- says what the bit operations do to a page's mark, Pmm/Invariant has the invariant and the two
-- operations, Pmm/History sequences of calls, Pmm/Setup the bitmap at the start. KernelHeap:
-- MemoryManagement.cpp, with the headers by address. KernelHeap/Bump is about requests that fit,
-- KernelHeap/History about sequences, KernelHeap/Exhaustion about a request that does not.
-- TaskManager: the ready queue as nodes in memory through `next`, with addThread, removeThread,
-- isRunning, currentThread, createThread and switch_thread. The children are named for these.
-- Ipc: IPC.cpp, whose state holds that of the task manager, since both use the kernel heap.
-- Ipc/Send, Ipc/Receive, Ipc/Clear and Ipc/Cleared are about the three operations, and
-- Ipc/RoundTrip about a message that is sent and received. Timer: handleTimerEvent. Timer/Switch
-- is about one interrupt, Timer/Rotation about many, and Timer/Ended about one after the running
-- thread has ended. Heap: heap.c, with kmalloc and kfree, on the page tables of Vmm.
-- Heap/Standard is about a block that is used again, Heap/Grow about a new one, and Heap/Place
-- about place_nonstandart_node. Console: Console.cpp. Console/Scroll, Console/Print and
-- Console/Number are about kscroll, kprint of a text, and the characters of numbers. Vmm: map,
-- unmap and get_mapping of kernelcpp/code/mem/vmm.c, on the words of the page tables. Vmm/Lookup
-- says what get_mapping reads behind the other two, Vmm/Present what it reads where the words are
-- known, and Vmm/Tables and Vmm/Enough what map keeps and needs. Paging: create_page_directory,
-- switch_page_directory and init_vmm of vmm.c. Paging/Walk is the processor's walk through the
-- tables, Paging/Directory what the first directory maps, and Paging/Started the state when
-- paging is on. Paging/Window, Paging/Additions, Paging/Opened, Paging/Filled, Paging/Process and
-- Paging/Enough follow create_page_directory for a process through its two windows. Processes:
-- init and createProcess of TaskManager.cpp with the operators new and delete of kmain.cpp; the
-- heaps and the memory of all spaces are in the state. A child called Enough says how many pages
-- its parent's operations need. Strings: common.c, on a memory that is a function from addresses.
-- Strings/Layout has what a string in memory is, Strings/Copies and Strings/Compare are about the
-- functions that write and that read. Ports: PortIO.cpp, as the bytes that each port is sent, and
-- what the devices answer. Pic: PIC.cpp; Pic/Remap is about its remap. Idt: IDT.cpp, the tables
-- and the timer chip; Idt/Setup is about the tables behind setupHandlers and load. Keyboard:
-- Keyboard.cpp and KeyEvent.cpp, with the table of keys in Keyboard/KeyMap. Keyboard/Typed and
-- Keyboard/Pressed are about setPressed, Keyboard/Safe about any interrupt, Keyboard/Codes,
-- Keyboard/Report and Keyboard/Strokes about the codes of one key, Keyboard/History about many
-- keys, Keyboard/PrintScreen about that key, and Keyboard/Setup about setup. Machine: irq_handler
-- and isr_handler of IDT.cpp with page_fault of vmm.c, on the state of all parts.
-- Machine/Dispatch is about one interrupt, Machine/Interrupts about any number of them,
-- Machine/Exceptions about exceptions, and Machine/Ended about the return of a thread. Kmain:
-- kmain.cpp, the start of the kernel, the launcher, and the program that draws; its children are
-- named for these. Kmain/Boot has kmain up to its loop, and the rounds of the two loops;
-- Kmain/Boot/Exchange is about one round of each thread, and Kmain/Boot/Rounds about any number
-- of rounds. Tss: TSS.cpp. Ipc/Mailbox has the abstract mailbox, and Ipc/Refines that the queue
-- answers as it does. Heap/Search is about the search for a block of 512 bytes or more. Common
-- has shared lemmas: Common/Chain on linked lists in memory, Common/Run on how code ends,
-- Common/Tables on bit operations. Samples is a small machine, and Tests runs theorems on it.
--
-- How code is modelled. Words are natural numbers with the wrap-around written out. Code that can
-- panic, make a bad access or loop returns an Outcome: ok, halt, fault or stuck. Loops over lists
-- run on fuel, and one unit for each node, and one more, is enough; the theorems have this as a
-- hypothesis. The loop of pmm_alloc_page has fuel for the whole bitmap. kprint needs two rounds
-- for each character. Structures in memory are functions from their addresses, so that aliasing
-- is as in the code. Tracing output to the screen is left out of the other parts.
--
-- A device is what it is sent and what it answers: the answers to reads of ports are a function
-- in the state, of which nothing is assumed where a theorem does not say so. The listener of the
-- keyboard is the list of the calls that it gets.
--
-- What is not modelled: the assembly that starts the kernel and enters interrupts, and
-- InterruptHandler.cpp, which is not part of the build. The memset in map gets the first word of
-- the new page table as its address. Vmm zeroes the words of the pages that the processor finds
-- there; what it does to data that other parts keep in their own records is not followed, and the
-- theorems on map are about addresses that have a table already. operator new in receiveMessage
-- and createThread is an argument, with what it answers; Processes has the operator itself, on
-- the heaps. The memory of another space is kept in Processes alone: a switch of threads loads
-- cr3, and the stacks are not followed further. In the code IPC functions run with interrupts
-- off, so that no step of the scheduler comes between theirs.
pub mod Common
pub mod Pmm
pub mod KernelHeap
pub mod TaskManager
pub mod Ipc
pub mod Timer
pub mod Heap
pub mod Vmm
pub mod Ports
pub mod Pic
pub mod Idt
pub mod Keyboard
pub mod Machine
pub mod Paging
pub mod Console
pub mod Kmain
pub mod Processes
pub mod Tss
pub mod Strings
pub mod Samples
pub mod Tests
