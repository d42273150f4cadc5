-- ===== src/Lib.antt =====
-- Camkit turns the pictures of a camera into an H.264 stream over RTP: capture, conversion, a
-- timestamp drawn on the picture, encoding, packing and sending. The parts are C files that share no
-- state; a client (src/cktool.c, src/simple_demo.c) opens a handle of each and passes buffers from
-- one to the next.
--
-- Base holds what the models share: Boolean tests on native numbers (Base/Tests), C arrays as lists
-- (Base/Lists), and Outcome (Base/Calls), how a call ends: ok, by abort(), by behaviour that C leaves
-- undefined (fault), or short of a loop's fuel. Base/Resources has Run, the calls of an opening or a
-- closing function that take and give back resources, and replay, what is held after them; the answers
-- of the system are a record of arguments (Answers), so that every error path is a value of it.
-- Base/Int has the values of an `int` that may be negative.
--
-- Pack models src/rtp_pack.c. PacHandle is struct pac_handle, with a pointer as an offset into the
-- input. Pack has pack_open, pack_put and get_next_nalu (its parts prefix_len, find_next and
-- describe_nalu); Pack/Get has pack_get, whose four ways of filling a packet are send_single,
-- send_first_fu, send_middle_fu and send_last_fu; Pack/Buffer has the bit-fields, memcpy and byte
-- orders; Pack/Session has the client's loop. Platform is the target: the size of `unsigned long`,
-- and the conversion from double to unsigned int, which C defines only for values that fit. The
-- specification is Pack/Stream (byte streams of NAL units), Pack/Spec (their packets: those of RFC 6184
-- where each NAL unit is an access unit of its own, as the code has it)
-- and Pack/Receive (a receiver); Scan, Header, Packet, Send, Cut, Begin, Continue, Units, Emits and
-- Roundtrip lead to Correct, and Safety to EveryCall; Sizes is about the length of the packets. Clock is about the timestamp, and Ends about the
-- first and the last calls. find_next has fuel for every byte of the input and one more: it advances
-- by one byte a turn and stops at the end. The loop of the client has as much fuel as its theorem asks
-- for, one more than the stream has bytes, and each call consumes at least one byte.
--
-- Timestamp models src/timestamp.c: Timestamp/Font the table of characters, Timestamp/Tables the
-- globals that initialize_chars fills (a pointer to a picture is the index of its entry),
-- Timestamp/Draw the drawing, with `unsigned` arithmetic modulo 2^32 and a write outside the image as a
-- fault. The string that strftime makes is an argument. Lookup is about the tables, Safety and Text
-- about where the drawing writes, and Overlay about timestamp_draw. The loops over the text have its
-- length and one more as fuel, and pass two characters a turn.
--
-- Convert models src/soft_convert.c: the inner loop (convert_lines over convert_group, the two pixels
-- of two lines), the outer loop (convert_rows), yuv422_to_yuv420, convert_open and convert_do. The
-- formats' numbers and malloc are arguments. The loops' fuel is the width and the height and one more:
-- a turn of the inner loop passes four of the 2 * width bytes of a line, one of the outer loop two
-- lines. Group, Row, Plane and Correct follow the conversion from a group to the picture.
--
-- Encode models src/vpu_encode.c: encode_get_headers (next_header, header_stage; its static
-- variables are the record Stages), encode_do with encode_fill_data, the wait for the VPU and the
-- counters, and the setters that the library's commands confirm. The record Vpu is what the calls of
-- the VPU library return. Encode/Client has the loops of src/simple_demo.c around them: five turns
-- are enough for a round of headers, and 21 polls for the wait, which gives up at poll number 20.
-- Headers and Frames are about a round of headers and a group of pictures. Encode/Pool has the pool
-- of frame buffers, with a pointer to an entry as its index.
--
-- Encode/Memory has the frame buffers (framebuf_alloc, framebuf_free, encoder_allocate_framebuffer,
-- encoder_free_framebuffer): the i-th call of framebuf_alloc gets the i-th entry of the fresh pool, and
-- none after the 32 that there are. Encode/Open has encode_open, whose labels and error paths are err1,
-- err2 and the functions that end in them, encode_close, prepare_encode and encode_set_qp; the address
-- -1 of a mapping that failed passes the tests of its unsigned fields, as in the code. Frees,
-- Allocate and Balance are about what they hold, Size about the sizes of pictures.
--
-- Capture models src/v4l_capture.c. The kernel's side is the record Device, a function to a request
-- over its own state; Lawful is what V4L2 documents of it, which buffers it has after a request (after EIO
-- perhaps fewer), and the assumption that fewer requests in a row are interrupted than `tries`, the fuel
-- of xioctl. Capture
-- has the handle, capture_start, capture_stop and capture_get_data (put_back, fetch); Capture/Open has
-- capture_open, init_device (configure, init_mmap with the loops map_from and unmap_down) and
-- capture_close; Capture/Controls the nine functions on brightness, contrast and saturation. Queue and
-- Asked are about one request, Own and Session about where the buffers are, Progress about a
-- driver that has a picture in time, Restart about a second stream, Mappings and Balance about what is
-- held.
--
-- Omx models src/omx_encode.c over the answers of OpenMAX: encode_do with feed, take_output and the loop
-- combine over the list of what the calls of OMX_FillThisBuffer give, and the setters. Omx/Open has
-- encode_open with its labels err0 to err6 and encode_close, Omx/Combine is about the frames, and
-- Omx/Balance about what is held. Ipu models src/ipu_convert.c in the same way, with the results of mmap
-- as null, map_failed or mapped; Ffmpeg models src/ffmpeg_convert.c and src/ffmpeg_encode.c; Network
-- models src/network.c.
--
-- Tool models src/cktool.c: its options (set_option, parse), Tool/Stages what main opens and closes, the
-- file, the parts by the bits of the stage, and the timestamp, and Tool/Frame the loop of main: one_frame is a turn, with convert_picture,
-- encode_picture, emit_headers and emit for its stages. The other parts are the record Parts, their
-- functions over a state of their own; only the packer is the model of src/rtp_pack.c itself. The
-- fuel of the loop over pack_get is the length of the buffer and one more; that of the loop over the
-- headers is an argument, and the theorem asks for more than there are headers. Tool/Options,
-- Tool/Closes and Tool/Sends are about the options, what is closed and what is sent.
--
-- Demo models src/simple_demo.c: its parameters (demo_settings) and a turn of its loop (demo_frame), over
-- the same record Parts; Demo/Same compares it with the tool.
--
-- Not modelled: what only prints or frees (pack_close, timestamp_close, the convert_close of
-- src/soft_convert.c, dump_nalu, print_def); the opening and closing of the parts
-- in src/simple_demo.c; in src/cktool.c the statistics of the option -d; and
-- third-party/ilclient, which is not code of this project.
pub mod Base
pub mod Capture
pub mod Convert
pub mod Demo
pub mod Encode
pub mod Ffmpeg
pub mod Ipu
pub mod Network
pub mod Omx
pub mod Pack
pub mod Timestamp
pub mod Tool
