-- ===== src/Lib.antt =====
-- OS_eojin: a model of the kernel's C code, with the theorems about it.
--
-- The kernel runs in one address space that is mapped to physical memory. The boot code's memory map
-- goes to the physical memory manager, which keeps a bitmap of 4KB blocks; the kernel heap takes whole
-- blocks from it, and the process table takes its stacks from it. The timer interrupt calls the
-- scheduler, and the exit call ends a process. The loader reads an ELF file and maps its pages through the
-- page tables, which start as an identity mapping of 512MB. The file system keeps a FAT16 volume behind the ATA driver, with buffers from the heap.
--
-- Which file models which code:
--   Base: numbers, Booleans, lists and bits that the parts share.
--   Machine: memory by bytes, with memset and memcpy of src/kernel/utils.c; the state of
--     src/kernel/pmm.c; the messages given to kprint.
--   Utils: the C strings of src/kernel/utils.c, with hex_to_ascii and get_next_token.
--   Pmm: src/kernel/pmm.c; `Machine.bitmap` is `uint32_t* bitmap`, one 32-bit word for each index.
--   Process: src/kernel/process/process.c; `Kernel` holds the table and the registers that it writes.
--   Kheap: src/kernel/kheap.c; `Heap.at` gives the block header at an address. Kheap/Chain, Kheap/Fit
--     and Kheap/Malloc describe the same heap as a list of blocks.
--   Ata: src/drivers/ata.c. Ata itself is one sector read or written, as the rest of the kernel sees it;
--     Ata/Port drives the ports of a device, Ata/Drives says what the driver relies on of the device, and
--     Ata/Refines that both agree.
--   Fat: src/fs/fat.c; the table and chains of clusters are in Fat itself, 8.3 names in Fat/Name, the
--     loops over directories and fat_find_file in Fat/Dir, creation and deletion in Fat/Edit,
--     fat_change_dir in Fat/Path, fat_init and fat_list in Fat/Mount. Fat/Found describes a search entry by
--     entry.
--   Vmm: src/kernel/vmm.c; Vmm/Tree has the walk of the processor and the tree of tables, Vmm/Map what
--     vmm_map_page does to every walk.
--   Elf: src/kernel/elf.c; a file is read in memory. Elf/Page is about one page, Elf/Segments about
--     the pages of a segment, Elf/File and Elf/Program about the whole file, and Elf/Reach about files
--     that the loader can reach.
--   Screen: src/drivers/screen.c; Screen/Terminal describes it as lines of characters.
--   Devices: src/drivers/timer.c, src/kernel/pic.c and src/kernel/memory.c.
--   Isr: src/kernel/isr.c; `System` joins the kernel, the timer and the keyboard.
--   Exec: the command exec of src/kernel/kernel.c once the file is in memory; Exec/Spawn is about the new
--     process.
--   Shell: user_input of src/kernel/kernel.c. Its commands are in Shell itself, but for write and read
--     (Shell/Sector), mkdir and touch (Shell/Directory), cat and the loop of exec over a file
--     (Shell/File), and exec (Shell/Program). Shell/Contents says what the bytes of a file are.
--   Boot: main of src/kernel/kernel.c; Boot/Ready is the state that it reaches.
--   Gdt, Idt: the descriptors of src/kernel/cpu/gdt.c and src/kernel/idt.c.
--   Keyboard: src/drivers/keyboard.c; its call of user_input is an effect of the handler, and Shell runs it.
-- A function has the name of its C function, and takes and returns the state that the C code keeps in
-- globals. A pointer is a number, a sum that C wraps has its `% 2 ^ 32` or `% 2 ^ 64` written out.
--
-- Fuel: the loops of the heap follow pointers, and those of a directory follow a chain of clusters;
-- a chain may be a cycle, so they run on fuel, and `none` or `out_of_fuel` means that it ran out. More
-- fuel than blocks, or than clusters of the chain, or than sectors of the root directory, is enough,
-- and a theorem that code ends states which it needs. The loop over the pages of a segment runs on fuel too:
-- 2^36 rounds are enough for segments below 2^47. All other loops are
-- bounded in the code and structural here.
--
-- Memory is physical: what C code reads or writes through a pointer, it reads or writes at that
-- physical address. This is right in the 512MB that the kernel maps to themselves, as long as no page that is
-- reached is mapped anew; no page fault happens. The first 512GB of every address space are the same tables, so a
-- program that is loaded changes what all of them map. The theorems about the loaders therefore have the
-- hypotheses that file, blocks and tables lie below a limit and the program behind it (`IsReached`, `IsApart`).
-- A division by 0 traps in C and gives 0 here: where sectors of 0 bytes or clusters of 0 sectors would decide, a
-- theorem has the hypothesis that they are not 0.
--
-- Parameters: the device behind the ports of the disk, as `Device`, with the ATA standard as the
-- hypotheses of `IsAta`: a drive without errors that is busy for a number of status reads after each command, and
-- takes registers and commands only while it is not busy and has no transfer under way. What the driver relies on
-- beyond the standard is apart from this: that the other status bits are 0 while the drive is busy (`IsQuiet`),
-- for a read, and that it is not busy behind the last word, for the flush of a write. For Fat
-- and Shell a drive is its sectors and whether it answers before the limit of ata_wait_drq, which is what
-- Ata/Refines gives. The heap of Fat and Shell is an `Allocator`; Shell joins it to the machine by
-- `Pages`, since kmalloc takes its pages from the memory that the rest of the kernel uses. Fat and Shell go on with
-- a null buffer where the C code does not test for it; what such a write at address 0 destroys is not
-- modelled. The data behind heap pointers is not modelled either, but for what kmalloc hands out.
--
-- The registers of the screen's controller keep what was written to them, and port writes of the timer and
-- the PIC are a list. Messages of the other parts are a list too, not text on the screen; the shell's
-- command clear puts them on the screen before it clears it. The arrays of user_input have no bound
-- here.
--
-- Not modelled: interrupts in the middle of main, of user_input or of any other C function; the inline
-- assembly of src/kernel/ports.c and the user program src/user/hello.c; and all assembly code, with what lidt,
-- invlpg, CR3 and hlt do to the processor.
pub mod Base
pub mod Utils
pub mod Machine
pub mod Pmm
pub mod Process
pub mod Kheap
pub mod Ata
pub mod Fat
pub mod Gdt
pub mod Keyboard
pub mod Idt
pub mod Vmm
pub mod Elf
pub mod Screen
pub mod Devices
pub mod Isr
pub mod Exec
pub mod Shell
pub mod Boot
