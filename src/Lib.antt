-- ===== src/Lib.antt =====
-- Kafka-OS: a kernel in Rust for x86_64 with a preemptive scheduler, demand paging with copy on write, a
-- file system of files in memory over a tar archive, and a desktop with a text editor.
--
-- The parts and the files that model them:
--   Base      shared names: native numbers and their Boolean tests, lists, options (`none` of a method that
--             may panic is a panic), 64-bit words, and i32 in Base.Int.
--   BTreeMap  the ordered map of the standard library, as an association list sorted by its keys.
--   Process   kernel/src/process.rs: the record of a process and `Process::new`.
--   Sched     kernel/src/scheduler.rs. The record Scheduler has the fields of the struct; each method is the
--             function of its name, which returns the new state and its result. Sched.Steps has the calls
--             that the timer interrupt, the system calls and main.rs make, as steps of one scheduler.
--   Vm        kernel/src/vm.rs. Vm.Area: areas and the area list of a process; Vm.RefCounts: the reference
--             counts of frames; Vm.Fault: the page fault handler on a record of all that it reads and
--             writes. The page tables and the frame allocator of the x86_64 crate are the parameter
--             Vm.Paging, with the laws of mapping and unmapping.
--   Fs        kernel/src/fs.rs. Fs.Text: the header fields; Fs.Tar: TarFileSystem; Fs.Overlay:
--             OverlayFileSystem and its descriptors (`open`, `read` and `write` are open_file, read_fd and
--             write_fd).
--   Notepad   kernel/src/gui/notepad.rs: NotepadState; Notepad.Edit: the edits; Notepad.Keys: selection and
--             movements; Notepad.FileIo: saving and loading, which call Fs.Overlay; Notepad.Handlers: the keys
--             (`handle_key` and its two handlers), and what opens and closes the editor.
--   Cli       kernel/src/cli.rs. Cli.Commands: `execute_command`, a function for each command, on the record
--             Shell of the directory, the editor with the files, and what is printed; Cli.Line: the line that
--             `run` edits, and its history; Cli.Text: what they use of `str`.
--   Memory    kernel/src/memory.rs: BootInfoFrameAllocator over the memory map of the bootloader. The address
--             of a frame from 2^52 on is a panic of the x86_64 crate.
--   Grid      arrays of rows of cells. Grid.Terminal: GuiTerminal of kernel/src/gui/terminal.rs; Grid.Vga:
--             Writer of kernel/src/vga_buffer.rs with its buffer.
--   Heap      kernel/src/allocator.rs and kernel/src/allocator: Heap.Bump, Heap.LinkedList and Heap.FixedSize
--             are the three allocators. The list of the second is a list of regions; the crate behind the
--             third is the parameter Fallback.
--   Gui       kernel/src/gui. Gui.Calculator: evaluate_expression and the buttons of the calculator of
--             window.rs; Gui.Geometry: Rect of geometry.rs; Gui.Mouse: activate_mouse of graphics.rs, and the
--             packets of kernel/src/task/mouse.rs; Gui.Window: the frame of a window and the window list of
--             window.rs, and how graphics.rs drags a window. Gui.Screen: FrameBufferDisplay of buffer.rs, and
--             the loop of graphics.rs over the damaged rectangles (paint_all). Gui.Window.Clicks: which window
--             a click of graphics.rs is for. Gui.Paint: PaintApp of paint.rs.
--   Clock     kernel/src/gui/rtc.rs: DateTime and the registers of the CMOS.
--   Snake     kernel/src/gui/snake.rs: SnakeGame, whose tick counter of the interrupts is an argument.
-- The scheduler owns processes, whose area lists the page fault handler changes; the editor and the shell read
-- and write files by name, and the shell opens the editor, which takes the keys while it is open.
--
-- Bounds and fuel. The 64-bit tick counters and the i32 coordinates wrap around as in a build without
-- overflow checks. The numbers of rows, columns, offsets and lengths are those of data in memory, so that
-- adding one does not wrap. The loops over the archive take one more than its length as fuel, since a round
-- moves on by at least 512 bytes, and give `none` without fuel. The search of frames has a round for each
-- region that is left, and one more. The other loops are structural.
--
-- Not modelled: the drawing of text, shapes and the cursor, ports, interrupts and assembly; log lines and the
-- colours of the shell; the executor and the ELF loader; what an application does with a click in its window,
-- but for the calculator and the canvas of Paint. A lock is taken as held: each method is one step.
pub mod Base
pub mod BTreeMap
pub mod Vm
pub mod Process
pub mod Sched
pub mod Snake
pub mod Fs
pub mod Grid
pub mod Gui
pub mod Heap
pub mod Cli
pub mod Clock
pub mod Memory
pub mod Notepad
