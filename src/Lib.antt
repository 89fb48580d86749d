-- ===== src/Lib.antt =====
-- Verification of the firmware that tests a floppy-drive emulator (FlashFloppy testbed).
--
-- The firmware drives the host side of a floppy interface. A test calls the sector functions of
-- src/ibm.c, which generate the bytes of a sector or a track, add the checksum of src/crc.c, turn
-- bytes into bitcells by src/mfm.c or src/fm.c, and hand the bitcells to src/floppy_generic.c, which
-- turns them into flux times for the DMA engine; a read goes the other way. Deadlines come from
-- src/timer.c, messages go out through src/console.c, and src/util.c is the C runtime.
--
-- Files, and the code they model:
--
--   Prelude         shared names, Boolean tests on numbers, lists and their lemmas; Prelude/Int has
--                   the signed results of C's comparisons and differences.
--   Bits            lemmas on the bit operations: masks, exclusive or, fields.
--   Mem             the memory: a function from addresses to bytes (IsMem says that they are bytes),
--                   with 8-, 16- and 32-bit little-endian accesses, rev16 (be16toh and htobe16 of
--                   inc/intrinsics.h), the bytes and the big-endian words at an address.
--   Util            src/util.c. Util/Memory has memset, memcpy and memmove with their fast paths,
--                   Util/Compare memcmp, strncmp and strcmp, Util/Strings the string functions,
--                   Util/Strtol strtol, Util/Rand the random numbers.
--   Crc             src/crc.c: the table and crc16_ccitt. Crc/Spec is the division by the
--                   polynomial, bit by bit; Crc/Refine, Residue and Detect prove.
--   Mfm             src/mfm.c: bintomfm (inc/floppy.h), the assembly of mfmtobin, mfm_to_bin,
--                   bin_to_mfm and mfm_check. Mfm/Spec is the coding by spreading and gathering bits.
--   Fm              src/fm.c: fm_sync, bin_to_fm, fm_to_bin and fm_check.
--   Ibm             src/ibm.c: ibm_mfm_search and ibm_mfm_read_sector; Ibm/Write has
--                   ibm_mfm_write_sector, Ibm/Track ibm_mfm_write_track, Ibm/Scan ibm_mfm_scan, and
--                   Ibm/Fm the FM half. Ibm/Layout is the IBM format on paper.
--   Amiga           src/amiga.c: the checksums and get_long; Amiga/Write has amiga_track_write with
--                   its emitters, Amiga/Read amiga_track_read. Amiga/Cells and Amiga/Long relate the
--                   emitted long words to the coding of Mfm/Spec, Amiga/Checksum has the algebra of
--                   the checksums, Amiga/Block, Sector, Decode and Track go from a long word to a track.
--   Flux            src/floppy_generic.c: rdata_flux_to_bc, _wdata_bc_to_flux (here
--                   wdata_bc_to_flux), and the room in the ring that the caller of that computes.
--                   Flux/Sync has rdata_wait_sync, floppy_read_prep and floppy_read, Flux/Output the
--                   DMA ring of the write path (fill_ring is the function that the source calls
--                   wdata_bc_to_flux), _floppy_write_prep, floppy_write and floppy_write_now.
--   Timer           src/timer.c: the queue of timers, its interrupt, and the timer's registers.
--   Time            src/time.c: time_now and the update of its stamp.
--   Drive           src/floppy.c and the pins of src/gotek/floppy.c: selection, seek, disk change,
--                   the test of the ready line, and what the index and disk-change interrupts count.
--                   What the hardware does is the record Bus, a parameter; the theorems take a drive
--                   that obeys it as a hypothesis, and the tests give one.
--   HardSector      src/main.c: the helpers of the hard-sector tests, on the times of the index.
--   Console         src/console.c: the ring buffer, its staging, and the two ways of sending.
--   Format          src/string.c: vsnprintf, as the text that a format and its arguments give, and how
--                   that is stored. A char is unsigned, as on ARM.
--   Led             src/led_7seg.c: the TM1651 driver as a sequence of line events, its retries, and
--                   the text and numbers shown. Led/Receiver is the display's side of the protocol.
--
-- State is passed explicitly. A function that works on a buffer takes a memory and the buffer's
-- address and returns the memory; pointers are numbers, and arithmetic of 8, 16 and 32 bits keeps its
-- wrap-around (u8, u16, u32) where the code can reach it. A call of floppy_read is an element of a
-- list of captures: the words that it puts into the buffer, its times, and the index count around it;
-- a search that runs out of captures still waits, and its result is none. A call of floppy_write is
-- the list of words that it is given. A WARN_ON that fires, or a message of a check, is a value of
-- Warning in the result.
--
-- Fuel: the loops over buffers are by recursion on their length. The string functions that look for a
-- terminating zero take fuel, for which one round more than the length is enough. The loop over the
-- bitcells of a long flux takes the flux time as fuel, since each round takes at least one tick off.
-- The digits of a number have 32 rounds, as many as a 32-bit number has digits in base 2. The loops of
-- Drive take fuel and end in `spinning` without it: a seek needs one round more than its steps, and the
-- loops that wait for the drive one more than the number of looks after which the drive answers. Other
-- loops that wait for the hardware are by recursion on the captures, samples or polls, and are none
-- when these run out.
--
-- Not modelled: accesses of hardware registers (gpio, DMA, clocks, src/stm32f10x.c and
-- src/gotek/board.c; of floppy_init only the search for cylinder 0), the masking of interrupts, the
-- texts of messages, and the overflow of the int that holds the width of a printed number. The warning
-- of a long flux is counted by rdata_wait_sync and left out in rdata_flux_to_bc. Left out as well are
-- src/quickdisk.c, src/da.c, qsort_p of src/util.c, and of src/main.c all but the helpers of the
-- hard-sector tests.
pub mod Prelude
pub mod Bits
pub mod Mem
pub mod Util
pub mod Crc
pub mod Mfm
pub mod Fm
pub mod Ibm
pub mod Amiga
pub mod Flux
pub mod Timer
pub mod Time
pub mod Drive
pub mod HardSector
pub mod Console
pub mod Format
pub mod Led
