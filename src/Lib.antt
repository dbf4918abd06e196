-- ===== src/Lib.antt =====
-- One-KVM: a program that shows the screen of a computer in a browser and passes keyboard, mouse and
-- media input back to it. This library models the core of the Rust program's input path, two of its wire
-- formats, the controller of its mass storage and the exFAT file system of its virtual drives, and proves
-- what makes them correct.
--
-- Parts, and how they interact; paths are from the repository's root. A client sends messages over a WebRTC
-- data channel or a WebSocket; src/hid/datachannel.rs reads events from them. src/hid/types.rs and src/hid/keyboard.rs hold the
-- events, the codes of the keys and the reports of USB HID. The controller of src/hid/mod.rs queues the
-- events, and its worker hands them to a backend. The backend of src/hid/ch9329.rs keeps the
-- keyboard report and the mouse buttons, makes packets of them, and queues these for a worker thread
-- that writes them to the serial port of the CH9329 chip and reads its responses. The backend of
-- src/hid/otg.rs writes reports to the device files of a USB gadget and opens them again when they were
-- closed; src/otg/endpoint.rs counts the endpoints of that gadget.
-- A RustDesk client sends input too, which src/rustdesk/hid_adapter.rs converts, and
-- src/rustdesk/bytes_codec.rs frames the messages of the RustDesk protocol on a TCP stream, and
-- src/webrtc/h265_payloader.rs cuts an H.265 stream into the payloads of RTP packets.
-- src/msd/controller.rs connects an image, or the virtual drive, to the mass storage function of the gadget
-- (src/otg/msd.rs), and src/msd/monitor.rs keeps the errors of this.
-- libs/ventoy-img-rs makes the image of a virtual drive: src/partition.rs lays out its partitions,
-- src/exfat/format.rs writes a fresh exFAT volume, and src/exfat/ops.rs opens it and keeps its FAT, its
-- bitmap and its chains of clusters.
--
-- Base: the shared names, with Boolean tests and tables (Base/Tests), lists over the native numbers
-- (Base/Lists), machine words and their bytes (Base/Words), bit operations (Base/Bits), integers
-- (Base/Int), and the order (Base/Order).
--
-- Hid/Keyboard: src/hid/keyboard.rs. `CanonicalKey`, `to_hid_usage`, `from_hid_usage`, `is_modifier` and
-- `modifier_bit` have the source's names.
-- Hid/Event and Hid/Report: src/hid/types.rs. The methods that change a `KeyboardReport` return the new
-- one. `sort_by` of the standard library on bytes, descending, is an insertion sort.
-- Hid/DataChannel: src/hid/datachannel.rs, with the parsers in Hid/DataChannel/Parse. A message is a list
-- of bytes, `Option` is the source's, and an `i8` or an `i16` is an integer made from its byte or bytes.
-- Hid/Controller: src/hid/mod.rs, the event queue of `HidController`, the parked mouse move, and the loop
-- of `start_event_worker`, a round at a time (`worker_round`).
-- Hid/Ch9329: src/hid/ch9329.rs. Packets and responses stand in Hid/Ch9329 itself, the status behind
-- `Ch9329RuntimeState` in Hid/Ch9329/Runtime, and the calls of `Ch9329Backend` in Hid/Ch9329/Backend: each
-- takes the backend and returns it with the outcome. The channel to the worker is the list of commands
-- that it has taken.
-- Hid/OtgBackend: src/hid/otg.rs, `OtgBackend`. Each call takes what the system answers during it, its
-- `World`, and the backend, and returns the backend with the outcome; the four fields of a kind (paths,
-- handles) are functions of `DeviceType`. The four methods that send a report share `send_report` in
-- Hid/OtgBackend/Reports; the calls of the trait stand in Hid/OtgBackend/Methods, and `init`, the snapshot and
-- the monitor in Hid/OtgBackend/Monitor.
-- Otg/Endpoint: src/otg/endpoint.rs, the endpoints that the functions of the USB gadget use.
-- Msd/Lun: src/otg/msd.rs, the files of a LUN in configfs, which are a parameter: a record of operations,
-- and in Msd/Lun/Mounted what the kernel documents of them. `write_file` stands for src/otg/configfs.rs.
-- Msd/Health: src/msd/monitor.rs. Msd/Controller: src/msd/controller.rs and src/msd/types.rs, where a call
-- takes its surroundings (the gadget's path and function, whether files exist) and the controller.
-- Rustdesk/BytesCodec: src/rustdesk/bytes_codec.rs. `BytesMut` is a list of bytes, `io::Result` is
-- `IoResult`. The asynchronous reader and writer of tokio are parameters in Rustdesk/BytesCodec/Transport:
-- records of operations with what tokio documents of them.
-- Rustdesk/HidAdapter: src/rustdesk/hid_adapter.rs, from the client's events to those of Hid/Event; the
-- tables of the codes stand in Rustdesk/HidAdapter/KeyCodes, and the numbers of the control keys are those of
-- protos/message.proto.
-- Webrtc/H265Payloader: src/webrtc/h265_payloader.rs. The vector that a method appends to is an argument
-- and the result.
-- Ventoy/Image: the image file, a byte at each offset. Ventoy/Exfat: libs/ventoy-img-rs/src/exfat/ops.rs.
-- The numbers that `open` reads and nothing changes are `Geometry`; a method is a function from the rest
-- of `ExfatFs` to it and a result. Ventoy/Exfat/Disk has the abstract view, an entry of the FAT and the
-- bytes for each cluster, and Ventoy/Exfat/Cache says when the caches agree with it; Ventoy/Exfat/Chain
-- and Ventoy/Exfat/Allocation have the proofs on chains and on allocation.
-- Ventoy/File: the data side of `ExfatFileWriter` and `read_file_from_location`; the reader of the standard
-- library is the list of the buffers that its calls fill.
-- Ventoy/Format: libs/ventoy-img-rs/src/partition.rs and src/exfat/format.rs, and the part of `open` that
-- reads the boot sector.
--
-- Bounds and fuel. A word of `w` bits keeps its wrap-around, `% 2 ^ w`; `usize` has 64 bits. The loop
-- of `emit_fragmented` has the length of the payload as its fuel, since a round takes a byte at
-- least; `payload` has the length of the buffer, since a start code has three bytes. `drain` calls
-- `decode` as often as its fuel says, and one call more than there are messages is enough.
-- `ExfatFileWriter::write` has the number of its bytes, since a round takes a byte at least.
-- `read_cluster_chain` has the number of clusters as its fuel, which is the source's own limit. The five
-- attempts to mount an image are those of `configure_lun`.
-- File I/O on the image does not fail in the model: the file holds the whole image.
--
-- Not modelled. The worker thread of the CH9329 backend (serial port I/O and its time limits) and its
-- `init`, two calls of the OTG backend at the same time, the life cycle of the HID controller, and all of
-- src/ that moves data between devices, sockets and libraries: video and audio capture, encoders, web
-- handlers, the database, power control, and the downloads of images. Of the storage images, the directory
-- entries, the streaming reader, the MBR and the case table are not modelled. Log lines and capacity hints
-- are left out.
pub mod Base
pub mod Hid
pub mod Msd
pub mod Otg
pub mod Rustdesk
pub mod Ventoy
pub mod Webrtc
