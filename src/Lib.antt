-- ===== src/Lib.antt =====
-- usbip-c is a USB/IP library in C: an application describes a USB device and exports it over TCP
-- (src/usbip_device.c, src/usbip.c), or imports one and drives it (src/usbip_host.c over the
-- client half of src/usbip.c). A listener holds up to 16 devices; an importer picks one by busid
-- and then sends commands, each answered by a reply. An IN URB takes data that the application
-- queued, or waits for it at its endpoint.
--
-- Where the parts are modelled:
--   Base       lists measured by native numbers, Boolean tests, and the byte order of
--              include/usbip.h (usb_get_be32, usb_put_be32 and siblings) as lists of bytes
--   Net        readn and writen of src/usbip.c over a `Socket`, whose laws are what recv() and
--              send() document; Net/Laws has what the loops promise
--   Wire       the bytes of the wire: Wire/Stream is a reader of arriving bytes, Wire/Header the
--              48-byte header and the packet descriptors, Wire/Command the importer's submission
--              and usbip_read_cmd, Wire/Reply usbip_send_ret and siblings and the importer's
--              reading of a reply
--   Server     Server/Record is pack_usbip_device and parse_devinfo, Server/Handshake the import
--              and list handshake of both ends, Server/Registry usbip_serve_start and
--              usbip_serve_stop on one listener
--   Endpoint   Endpoint/State is an endpoint's queues, parked URBs and halt, with
--              usbip_device_write, usbip_device_read, the non-isochronous part of
--              usbip_device_dispatch, usbip_ep_stall, usbip_ep_clear_halt and the endpoint's part
--              of usbip_device_handle_unlink; a life of an endpoint is a list of these events
--   Dfu        Dfu/State is the state machine of src/classes/device/dfu.c over the application's
--              callbacks; a life of a function is a list of requests and settings
--   Device     Device/State is usbip_device_dispatch and usbip_device_handle_unlink of
--              src/usbip_device.c over all endpoints, with Control for endpoint 0, Endpoint for the
--              queues and Pacing for isochronous completions; a life of a connection is a list of
--              URBs, rounds of the pacer and uses of endpoints by the application
--   Msc        Msc/State, Msc/Replies and Msc/Dispatch are src/classes/device/msc.c: the Bulk-Only
--              Transport and its SCSI commands over the application's backend; a life of a function
--              is a list of OUT packets and class requests, and what the class does to its pipes is a
--              list of actions, which Msc/Transport performs on an endpoint of Endpoint
--   Cdc        Cdc/State is the requests and the data of a serial port of
--              src/classes/device/cdc_acm.c; a life of a port is a list of them
--   Hid        Hid/State is the requests, the reports and the encoding of bInterval of
--              src/classes/device/hid.c over the application's callbacks; a life of a function
--              is a list of requests and reports
--   Msos       Msos/State is the MS-OS table of src/usbip_device.c and which entry describes which
--              function, Msos/Emit the descriptors built from it
--   Build      Build/State is usbip_device_add_descriptor of src/usbip_device.c with the endpoint
--              allocator, usbip_device_reserve_endpoint and check_endpoint_conflicts
--   Control    Control/Describe is the standard descriptors, Control/State handle_control of
--              src/usbip_device.c, with the handlers of the classes as parameters
--   Capture    Capture/Blocks is the packets of src/pcap.c, Capture/Framing a reader of the format
--   Pacing     Pacing/State is the deadline clock of isochronous endpoints and the queue of paced
--              completions of src/usbip_device.c
--   Session    Session/State is a round of serve_conn of src/usbip.c: Wire reads the command, Device
--              dispatches it, Wire writes the replies; Session/Host is the transfers of
--              src/usbip_host.c, as what they write and how they read the reply
--
-- State is passed explicitly. A 32-bit field is its bit pattern, a number below 2 ^ 32. Where the code
-- reads it as an int the model tests for the positive half (the number of packets, the status of a
-- reply, the bytes that Msc writes), or leaves the other half out: Device/State answers `none` for an
-- IN URB whose length is negative as an int, so that it reaches no endpoint of Endpoint. A C string is
-- the list of its bytes before the NUL. An access outside an array is the outcome `fault`.
--
-- Fuel: `readn` and `writen` get one round more than there are bytes, since a round moves a byte at
-- least, and Net/Laws proves it enough; the walk over the descriptors advances by one at least, and
-- gets one round more than the blob has bytes; `drain` gets one round for each byte; `drain_paced`
-- gets a round for each completion, which Pacing/Order proves enough.
--
-- Not modelled: threads and locks (each call is one step), malloc() failures, logging, opening
-- the capture file, the MTP, audio, video and Bluetooth classes, the descriptors that the builders of
-- the device classes add, the host API's contexts and the wrappers for other libraries.
pub mod Base
pub mod Net
pub mod Wire
pub mod Server
pub mod Endpoint
pub mod Dfu
pub mod Msos
pub mod Build
pub mod Control
pub mod Capture
pub mod Pacing
pub mod Device
pub mod Msc
pub mod Cdc
pub mod Hid
pub mod Session
