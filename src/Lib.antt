-- ===== src/Lib.antt =====
-- A verification library for libopenvizsla, the host side of the OpenVizsla USB analyzer.
--
-- The program. The device sends a byte stream over USB: bus frames (0x55, register address, value,
-- checksum) and SDRAM frames (0xd0, length, data). The data of the SDRAM frames, taken together,
-- are the captured packets. `frame_decoder_proc` (src/decoder.c) splits the frames and hands
-- their data to `packet_decoder_proc`, which delivers each packet to a callback. The tool
-- tools/ovextcap/main.c sets `packet_handler` as that callback: it turns timestamps into seconds
-- and nanoseconds, filters NAKed transactions and uninteresting SOFs, and writes pcap records.
-- Before a capture the FPGA is configured: `bit_init` (src/bit.c) parses the bitstream file, and
-- `bitreverse8` turns around each byte of it that is sent; src/chb.c opens port B of the FTDI chip
-- and resets the FPGA through it; `bit_load_firmware` sends the file's bits through port A. Port A
-- then carries messages that write and read the FPGA's registers (src/cha.c), at the addresses that
-- the register map gives (src/reg.c). While a capture runs, libusb has three transfers of src/cha.c,
-- and calls cha_loop_transfer_callback for each that is completed, which hands its data to the frame
-- decoder; the loop's own callbacks count the packets and call the program's.
--
-- Which file models which part.
--   Prelude            tests, C arrays as lists, `memcpy` that fails outside its object, bit fields
--   Decoder/State      include/decoder.h, and `struct ov_packet` of include/openvizsla.h
--   Decoder/Packet     packet_decoder_proc: one definition for the cases, one for the loop
--   Decoder/Frame      frame_decoder_proc, likewise
--   Decoder/Valid      the invariants of both decoders
--   Decoder/Bytewise   a reference that reads byte by byte, and in its children the proof that the
--                      code agrees with it
--   Decoder/Chunks, Safety, Wire   what follows for buffers, memory and packets on the wire
--   Bit/Parser         bit_init of src/bit.c and what it calls
--   Bit/Reverse        bitreverse8 of src/bit.c
--   Bit/Format, Bounds   what is proved of the parser
--   Bit/Loader, Sending   bit_load_firmware of src/bit.c, and what is proved of it
--   Ftdi               what the program calls of libftdi, as a parameter
--   Chb/Port           src/chb.c
--   Chb/Open, Program   what is proved of chb_open and chb_switch_program_mode
--   Reg/State, Text, Map   src/reg.c, with what it uses of the C library's string functions
--   Reg/Complete       what is proved of reg_init
--   Fwpkg/Zip          what the program calls of libzip, as a parameter
--   Fwpkg/Package      src/fwpkg.c
--   Fwpkg/Init         reg_init_from_fwpkg of src/reg.c and cha_init of src/cha.c
--   Fwpkg/Reading, Starting, Archives, Kept   what is proved of them
--   Cha/State, Message, Transaction, Registers, Ulpi, Stream, Port   src/cha.c up to the capture loop
--   Cha/Device, Words, Sync   the FPGA's protocol as hypotheses, and what is proved with it
--   Decoder/Users      what the decoders do to the object behind user_data
--   Loop/State, Callbacks, Transfer, Run   the capture loop of src/cha.c
--   Loop/Turns, Invariant, Drain, Ran, Handed, Again, Limit, Delivery, Memory   what is proved of it
--   Device/Open, Firmware, Api, Capture   src/ov.c: making a device, loading its firmware, the other
--                      functions of the API, and capturing
--   Device/Ledger, Reload, Owner, Sound, Stopping   what is proved of them
--   Extcap/Pcap, Filter, Handler   tools/ovextcap/main.c
--   Extcap/Queue, Transactions, Clock, Output, Lossless, Stream   what is proved of them
--   Extcap/Callback, Pipeline, Records, Sending, System, Fed   from the bytes on the wire to the tool's file
--   Extcap/Capture     start_capture of tools/ovextcap/main.c
--   Extcap/Header, Ready, Captured, Finished   what is proved of it
--   Extcap/Options, Listing, Main   main of tools/ovextcap/main.c
--   Extcap/Consistent, Asked   what is proved of it
--   Tools/Exit, Load, Sample   tools/load/main.c and tools/sample/main.c
--   Tools/Closes       what is proved of them; Tools/Board is a simulated board for their runs
--
-- State. A struct is a record with the source's field names; the object behind `user_data` is a
-- value of any type that the callbacks map to the next one. They get the packet to read. A buffer
-- is the list of bytes from the pointer on. `ov_packet.data` is a list as long as the caller's
-- object has bytes for it, and a `memcpy` beyond it is the fault `out_of_bounds`. Fixed-width
-- arithmetic is written with its wrap-around. The union of `struct frame_decoder` is one word that
-- both of its members use. A FILE of ovextcap and what fwrite and fflush do is the parameter
-- `Host`, as is the byte order of integers.
--
-- A call of libftdi gives whether it succeeded and the context behind it. A function that returns 0
-- or -1 is an action (Prelude/Actions): a step from an object to a result and the object.
--
-- The capture loop is a step relation: in one step libusb completes one of the transfers it has, in
-- any way, an event call fails, or the program breaks off. Of libusb it is assumed only that it
-- reports a transfer as cancelled no earlier than it was asked to. The callback's loop over the USB
-- packets has the size of the transfer as fuel, since each pass takes a byte if the size of a USB
-- packet is positive.
--
-- Fuel. The loop of packet_decoder_proc has the buffer's length as fuel, that of
-- frame_decoder_proc twice the length and one; each pass but one kind takes a byte, and that kind,
-- which finalizes a packet with no data, is not repeated. A
-- loop that polls the device has a number of rounds as parameter; when they are used up it is still
-- waiting, which is a result of its own. bit_load_firmware has the number of bytes as fuel, and
-- takes one at least in each round.
--
-- Not modelled: the waiting of src/chb.c; messages on stderr; failing allocations,
-- except those of the register map and the bitstream; what getopt_long does with the command line.
pub mod Prelude
pub mod Bit
pub mod Cha
pub mod Chb
pub mod Decoder
pub mod Device
pub mod Extcap
pub mod Ftdi
pub mod Fwpkg
pub mod Loop
pub mod Reg
pub mod Tools
