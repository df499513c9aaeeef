-- ===== src/Lib.antt =====
-- The host side of the adb protocol: the packets, the banner, the queues between the threads of a
-- transport, the transport itself and the file client above it. The program is a Windows library that
-- talks to Android devices over USB; each device has a transport, with an input and an output thread
-- for the USB pipes and a user thread that handles the packets of the device. The paths below are
-- those of the repository.
--
-- Packet (adbServerTest/adb/adb_struct.h, adb_func.cpp): a packet is its message header and payload
--   bytes. check_header and check_data are the checks on received packets; seal_packet is what
--   Catransport::send_packet writes into a packet before it queues it. Words are 32 bits: the checksum
--   adds modulo 2 ^ 32, and the magic is the command xor 0xffffffff. A read behind the payload is a
--   fault.
-- CString (adb_func.cpp): adb_strtok_r, qual_overwrite and the C library's strchr and strcmp, on
--   lists of byte codes with the NUL written out. The loop over tokens takes as fuel the number of
--   bytes, which is enough since each token takes one at least.
-- Banner (Catransport.cpp): Catransport::parse_banner.
-- Platform: what comes from outside the repository is a parameter, boost::lockfree::queue, malloc, the
--   RSA signature and the key files. IsFifo states what boost documents of its queue, with memory that
--   does not run out. Platform/Example is a concrete one.
-- SocketPair (adb_func.cpp): bip_buffer_*, adb_socketpair, adb_read, adb_write and adb_close. The loops
--   that retry until another thread acts are runs that do not return.
-- Auth (adb_auth_host.cpp): adb_auth_nextkey and adb_auth_get_userkey.
-- Transport (Catransport.h, Catransport.cpp): State has the fields of Catransport and aclient; Packets
--   the packet memory and read_packet/write_packet; Send the messages that the host sends; Clients the
--   table of user channels; Handle the whole of handle_packet. Operations pass the transport explicitly
--   and return none where the C code would fault or spin. The counters mallocs and frees are no
--   fields of the class: they count the packets that malloc gave and free took. Balance counts the
--   packets that all containers hold, Wire states what a sending operation puts on its way to the
--   device, and View is the abstract transport, with an inbox per channel, that handle_packet refines.
--   Users has client_write, Read client_read, Output shell_recv and Calls the calls that open a
--   channel. A call that waits takes a schedule (Session): for each wait, what the other threads do
--   meanwhile, what the clock shows then and whether a notification came in time; without a further
--   event it waits for ever. Loops take fuel; the theorems say how much is enough.
-- Remote (Catransport.cpp): remote_usb_read and remote_usb_write, the header's 24 bytes on the wire,
--   over a device with one pipe for what goes out and another for what comes in (Usb). Windows has
--   usb_read, usb_write and usb_kick (adbServerTest/adb/usb_windows.cpp), which fill Usb over the calls
--   of AdbWinApi, a parameter; ArePipes states what these calls do for a device at work. The loop of
--   usb_read takes as fuel the bytes that it is asked for: a call that succeeds takes one at least.
-- Threads (adb_func.cpp): output_thread, input_thread and user_thread of a transport, with its pipe; a
--   turn of a thread's loop is one step, which goes on, leaves the loop or waits for another thread. A
--   usb_read that blocks is a turn that has not been taken yet.
-- Zip (adbServerTest/adb/centraldir.cpp, zipfile.cpp, private.h): the zip reader that the file client
--   uses to check an APK. The archive is the list of its bytes, a pointer an offset or the list from
--   there on, and a read outside the array a fault; Layout is the format that the reader is compared
--   with. zlib's inflate is a parameter, and the entries' mallocs are taken to give memory.
-- Sync (adbServerTest/adb/file_class_sync_client.cpp, file_sync_service.h, sysdeps.h): the file client.
--   It works on one channel, a record of the calls that it makes (SyncChannel), and on a local disk
--   (Files); Files, Requests, Send, Receive, Lists, Copies and Commands have its functions in the order
--   of the source. Wire/IsWire states what a channel that works does, and OnTransport fills the record
--   with client_write and client_read of a running transport and proves IsWire of it. Loops over what the device sends
--   take its length as fuel, and the recursion into local directories their depth.
--
-- A value of an id or a length is a natural number; handles and pointers are options. Locks are left
-- out: each operation is one atomic step between two waits. Not modelled: the search, opening and closing
-- of USB devices (usb_windows.cpp, usb_vendors.cpp), the key generation, the start of the threads
-- (adb_func.cpp), and the facade (CAdb.cpp).
pub mod Common
pub mod Packet
pub mod CString
pub mod Banner
pub mod Platform
pub mod SocketPair
pub mod Auth
pub mod Transport
pub mod Remote
pub mod Sync
pub mod Threads
pub mod Zip
