-- ===== src/Lib.antt =====
-- Open1722: a verified model of the IEEE 1722 PDU library (include/avtp).
--
-- The library gives every PDU format a table of field descriptors and small functions that read and
-- write fields of a header by that table. The parts, from the bottom up:
--
-- Common: the native numbers, Boolean tests, casts to the C integer widths (`u8` to `u64`), lists
--   and single bits of a number. It models no code.
-- Memory: what C gives the code: bytes, loads and stores in the byte order of the host, `memset`
--   and `memcpy`. A memory is a function from addresses; an address counts from the pointer that the
--   function is given, so that a NULL pointer is `none` and pointer arithmetic is addition.
-- Byteorder (include/avtp/Byteorder.h): `bswap32` is `Avtp_Bswap32`, `be_to_cpu32` is
--   `Avtp_BeToCpu32` and so on; the two branches of the `#if` are the constructors of `Endian`.
-- Utils (include/avtp/Utils.h, include/avtp/Defines.h): `get_field` and `set_field` are
--   `Avtp_GetField` and `Avtp_SetField`. Their loops are `read_loop` and `write_loop`, on fuel, with
--   one round in `read_round` and `write_round`. The fuel is the number of bits of the field: a round
--   processes at least one.
--   Utils/Geometry places a round in its quadlet, Utils/Read and Utils/Write have the loops'
--   invariants, Utils/Table has whole tables of descriptors.
-- Acf (include/avtp/acf/AcfCommon.h): the message type and length that every ACF message has.
-- Acf/Padded: `Init`, `SetPayload`, `SetPayloadLength`, `GetPayloadLength` and the checks of
--   `IsValid` have one body, under twelve names, in Can.h, CanBrief.h, CanV2.h, CanBriefV2.h, CanXl.h,
--   CanXlBrief.h, FlexRay.h, Lin.h, Most.h, Gisf.h, Abb.h and Gbb.h of include/avtp/acf. A
--   `PaddedFormat` holds what differs, and each format's module (Acf/Can and so on) has its fields,
--   its table and its functions under their own names, with the types of its own declarations.
-- Acf/CanFamily: `CreateAcfMessage` and `IsValid` of the four CAN formats.
-- Acf/Formats: what the shared proofs use of each format, by evaluation.
-- Vss (src/avtp/acf/custom/Vss.c, include/avtp/acf/custom/Vss.h): VSS messages. Vss has the header,
--   `IsValid`, the framing and the clamped lengths; Vss/Path has `Avtp_Vss_GetVssPath` and
--   `Avtp_Vss_SetVssPath`; Vss/Data has `Avtp_Vss_GetVssData` and `Avtp_Vss_SetVssData`, whose 24
--   cases are of three kinds; Vss/Strings has the string arrays, where the count is on fuel, the length
--   of the array, as a round takes at least two bytes. A pointer into the PDU is its offset; what
--   `data` and `path` point to is a memory of its own. Floating-point numbers are their bits.
-- Header (include/avtp/CommonHeader.h, CommonStreamHeader.h, AlternativeHeader.h, Udp.h): the headers
--   that the formats share. Most formats come in version 0 and version 1: a `X_V0` and a `X_V1` of each
--   function, in the children V0 and V1, a function without a suffix that asks the PDU for its
--   version, in Access, the fields and their tables in Fields, and payload, `Init` and `IsValid` in
--   Frame. Header/Versioned is the interface of these headers, Header/Formats has its instances,
--   Header/Init and Header/InitFormats do the same for `Init`; Header/Holds follows the fields of a
--   header through its writes, and Header/Named through those of the subtype and the version.
-- Control (include/avtp/acf/Tscf.h, Ntscf.h): the streams that carry ACF messages.
-- Media (include/avtp/Crf.h, Rvf.h, aaf/Aaf.h, aaf/Pcm.h, cvf/Cvf.h, H264.h, Jpeg2000.h, Mjpeg.h).
-- Acf/Gpc, Acf/I2c, Acf/I2cBrief, Acf/Sensor, Acf/SensorBrief: the ACF formats with bodies of their own.
-- AcfCan (examples/acf-can/acf-can-common.c and .h): `can_to_avtp` and `avtp_to_can`, which pack CAN
--   frames into one PDU and take them out, as built for Linux with the default API. A callee that is
--   given `pdu + offset` sees `view pdu offset`, and `put` writes its result back. AcfCan has the
--   sender; the receiver's header is in AcfCan/Stream, its loop in AcfCan/Receive, on fuel: 16 rounds
--   are enough, since the array has 15 elements. The clock is a parameter, and so are the flags of
--   linux/can.h. AcfCan/Message and AcfCan/Reading follow one message, AcfCan/Carried says what of a
--   frame it carries, AcfCan/Packed and AcfCan/Sent have the two loops, the Started and Accepted
--   modules the four control format headers. AcfCan/Agree, AcfCan/AgreeHeader and
--   AcfCan/Behind say which bytes decide the receiver's loop, its header and its result.
-- Tests: runs at concrete inputs, and the theorems at concrete arguments.
--
-- A function that changes a PDU takes the memory and returns the new one. Arithmetic is on natural
-- numbers, cut to the width of the C type where the source assigns or casts; a difference that can
-- be negative in C has a multiple of the width's modulus added before it is cut.
--
-- Not modelled: the VSS brief format (field accessors only); the other example applications,
-- benchmarks and tests, which move PDUs between sockets or call the library; log output; strict
-- aliasing and alignment of the 32-bit accesses, which C leaves to the platform.
pub mod Common
pub mod Memory
pub mod Byteorder
pub mod Utils
pub mod Header
pub mod Control
pub mod Media
pub mod Acf
pub mod AcfCan
pub mod Vss
pub mod Tests
