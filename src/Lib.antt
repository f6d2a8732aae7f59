-- ===== src/Lib.antt =====
-- The hardware of the emulator, modelled after the C++ of libs/core and libs/hardware.
--
-- The chips share one bus, and each is driven by a call per clock tick. The processor puts an
-- address on the bus, and a memory or a memory-mapped chip answers on the same pins. Chips are also
-- joined by eight-bit connections, on which one end provides data that the other polls.
--
-- Files and code:
--   Base             names shared by the others: tests and bits of native numbers, lists by index.
--   Core/Bus         libs/core/include/bus.h. A field of the record stands for each group of pins,
--                    and a setter truncates as the source's masks do.
--   Core/Connectors  libs/core/include/data_connectors.h, libs/core/src/data_connectors.cpp.
--                    Connectors/Delivery is about what a subscriber is sent.
--   Core/Clock       libs/core/include/clock.h, src/clock.cpp. Clock/Divided is about its divided clocks.
--   Cpu/State        libs/hardware/M6502/include/6502/m6502.h: the class M6502 as the record Cpu, a
--                    setter as a function of it.
--   Cpu/Alu          libs/hardware/M6502/src/cycle_handler.cpp: do_add, do_sub, do_cmp, the shifts
--                    and do_bit. Alu/Arithmetic has the theorems about them.
--   Cpu/Cycle        the same file: the texts of the handlers. Handlers with one text are one
--                    constructor of Cycle, and run_cycle is the body of each.
--   Cpu/Table        the same file: the map cycle_handlers, a list of cycles for each opcode, in four
--                    files of four rows of sixteen opcodes.
--   Cpu/Tick         libs/hardware/M6502/src/m6502.cpp: maybe_handle_reset, maybe_handle_sync,
--                    do_cycle and tick. The exception of do_cycle is none.
--   Cpu/Ready        that no handler is ever missing.
--   Cpu/Machine      the processor beside a memory, in the order of
--                    libs/hardware/M6502/tests/test-6502.cpp, with DRAM::tick of
--                    libs/hardware/DRAM/src/dram.cpp for addresses that the memory has.
--                    Machine/Execute runs whole instructions, Machine/Modes their addressing.
--   Via/State        libs/hardware/6522_VIA/include/6522_via.h, src/6522_via.cpp: the fields of Via
--                    and its interrupt flags.
--   Via/Ports        the ports and the control lines.
--   Via/Registers    mmio_read, mmio_write and check_mmio.
--   Via/Attach       the providers and the subscribers of the VIA that other chips attach.
--   Via/Timers       check_timers and tick_timers; Timers/Countdown follows timer 1 over many ticks.
--   Via/Calls        the calls of the VIA by the rest of the machine, in any order.
--   Via/Irq          what the operations do to the interrupt flags and the interrupt line.
--   Cassette/Stream  libs/hardware/Cassette/src/raw_bytes_tape_stream.cpp, and expand_8n1 of
--                    src/uef_tape_stream.cpp. Cassette/Port is i_tape_stream.h and cassette_port.cpp
--                    beside them, for any stream. Cassette/Play and Cassette/Record follow a whole tape.
--   Acia/State       libs/hardware/6850_ACIA/include/acia_6850.h, src/acia_6850.cpp: the fields of Acia
--                    and its status register.
--   Acia/Transmit    the transmitter and the input CTS. Acia/Receive the receiver and the carrier.
--   Acia/Control     the control register. Acia/Registers the other registers.
--   Acia/Calls       the calls of the ACIA by the rest of the machine, in any order; Acia/Kept is how
--                    what each step keeps is kept by all calls, Acia/Sound and Acia/Always are about the
--                    status register, and Acia/Stuck about a transmitter that cannot be written.
--   Acia/Line        the frame of a character on the line. Line/Send and Line/Frame follow the
--                    transmitter, Line/Take and Line/Accept the receiver, Line/Transfer both.
--   Crtc/State       libs/hardware/6845_CRTC/include/6845_crtc.h, src/6845_crtc.cpp: the fields of Crtc
--                    and the flags that enable the display.
--   Crtc/Registers   mmio_read, mmio_write and tick. Crtc/Words reads back what was written.
--   Crtc/Address     latch_address and wrap_output_addr; Crtc/Shown has the addresses of a line.
--   Crtc/Scan        the ends of a scan line, of a row and of a frame, and the cursor.
--   Crtc/Frame       generate_next_address, step by step.
--   Crtc/Calls       the calls of the CRTC, in any order; Crtc/Bounds keeps its counters in bounds.
--   Crtc/Position    where the CRTC is on a screen; Crtc/Row and Crtc/Rows follow it down a frame.
--   Serial/State     libs/hardware/2C198_sULA/include/2c198_sula.h, src/2c198_sula.cc: the fields of
--                    SerialUla. Serial/Control is its register, Serial/Clocks its clocks and tape bits.
--   Serial/Calls     the calls of the ULA and the ACIA beside it; Serial/Lock is about the carrier,
--                    and Serial/Period about the clock of the transmitter.
--   Latch            libs/hardware/IC32_Latch/IC32Latch.h, IC32Latch.cpp.
--   Keyboard         libs/hardware/Keyboard/include/keyboard.h, src/keyboard.cpp: the held keys.
--                    Keyboard/Scan is the scan of the columns and what the system VIA is told,
--                    Keyboard/Held is about the held keys, and Keyboard/Reports about that answer.
--   Engine           libs/beeb/include/execution_engine.h, src/execution_engine.cpp: the debugger, on
--                    a board given by its operations. Engine/Ring is the history, Engine/Points the
--                    breakpoints, watches and logpoints, Engine/Run the loops. Ring/Window, Engine/Ticks,
--                    Engine/Watches and Engine/Stops are about them.
--   Memory           Memory/Dram is libs/hardware/DRAM/include/dram.h and src/dram.cpp, Memory/Rom is
--                    libs/hardware/ROM/include/rom.h and src/rom.cpp; Memory/Load, Memory/Tick and
--                    Memory/Reads are about them.
--   Beeb             libs/beeb/src/beeb.cpp: Beeb/Map is the table of pages and the processor's access,
--                    Beeb/Contents the debugger's, and Beeb/Devices which device answers an address.
--                    Beeb/Access and Beeb/Spans compare the two with one map of memory.
--   Uef              libs/uef: Uef/Crc is src/crc-16-acorn.cc, Crc/Documented the loop over
--                    bits of its comment, and Crc/Turns and Crc/Bitwise compare the two.
--                    Uef/Block is include/UEF/acorn_block.h and src/acorn_block.cc, and Uef/Tape the
--                    parse_blocks of src/uef_tape_loader.cc. Block/Encode lays blocks out,
--                    Block/Bytes, Block/Fields and Block/RoundTrip read them back, and Block/Inside and
--                    Tape/Ends show where a block and the loop end.
--   Video            libs/hardware/5C094_vULA/include/5c094_vula.h, src/5c094_vula.cpp: the video ULA.
--                    Video/Shift follows the ticks of a pixel, and Video/Pixels those of a byte.
--   Examples         of a component: tests, and its theorems at concrete inputs.
--
-- A byte or a word is a native number, and an assignment that truncates in the source has its
-- modulus written out. A mask of one bit is the bit's number. Loops are structural recursion. Only
-- the debugger's and the tape's loops take fuel: in the debugger, those that tick the board the
-- number of ticks that they may make, and run a list with one entry for each turn, which says
-- whether another thread asks for a pause, before the first or between the two loads of the state;
-- it is stated how many are enough. parse_blocks has one turn for each byte and one more. A set of pointers is a list in the set's order. The arguments of
-- the VIA's constructor beyond the address are the values of the two fields that the source leaves
-- uninitialised, that of the ACIA's is its receive shift register, and the serial ULA's constructor
-- is given all that the memory held.
--
-- Not modelled: logs and messages; get_pins and set_pins of the bus; reading files; the segments of a UEF tape, its
-- chunks, and the files that its blocks make; the order in which libs/beeb ticks the chips; the
-- converter, the sound chip and the display; libs/disassembler; the applications, which are user
-- interfaces. What callbacks do is outside the program: the calls are kept in a list.
mod Base
pub mod Core
pub mod Cpu
pub mod Via
pub mod Cassette
pub mod Acia
pub mod Crtc
pub mod Serial
pub mod Latch
pub mod Keyboard
pub mod Engine
pub mod Memory
pub mod Beeb
pub mod Uef
pub mod Video
