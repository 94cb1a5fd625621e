-- ===== src/Lib.antt =====
-- A verification library of jklibs: models of the library's own logic in C, and theorems about them.
--
-- The program is a collection of C modules for cameras and routers. The parts modelled:
--
-- * CmList is common/cm_list.c, doubly linked rings: a memory of next and prev pointers, with
--   init_list_head, add, add_tail, add_front, del, del_item, is_empty and the loop cm_list_each.
--   CmList.Links has the runs of linked nodes, CmList.Ring the refinement to sequences.
-- * CmTask is common/cm_task.c, timers in such a ring: task_init, start, cancel, poll, task_deinit.
--   The state is the memory, the tasks by address, whether the mutex is held, and the calls made so
--   far. Callbacks and the clock are parameters. CmTask uses CmList as the code does.
-- * CmTime is common/cm_time.c: timewait_start, timewait_stop, timewait_check.
-- * Walltime is cm_walltime_set and cm_walltime_in of common/cm_utils.c; the current time is an
--   argument.
-- * CmUtils is other routines of common/cm_utils.c: MAC texts, file names, hexadecimal digits,
--   signal levels, fields and blanks (Fields), and the parameter sets of a video stream (Sps).
-- * CmYuv is codec/cmyuv.c: a picture turned into planes.
-- * CmHttpDownload is common/cm_http_download.c, a file fetched over HTTP: addresses, Header,
--   Receive for bodies whole or in parts, Download for the whole with its redirections.
-- * AvStorage is storage/avstorage.c: the files of a recording, avstorage_init, reopen and v_push;
--   whether a file opens is a parameter, and what was written is a list.
-- * BusServer is common/busserver/src/busserver.c and busserver_ex.c, a message bus over mongoose:
--   Parse for messages of several parts, Receive for the loop over what came in, Server and Client
--   for the first file, Registry and Named for the second. Parts, Framing, Removal, Loop and Notes
--   have the proofs on messages; Deliver, Answers, Relay, Overflow, Routes and Broadcast those on
--   the first file; Names, Leaving and Sessions those on the second.
-- * CmPrint is common/cm_print.c and cm_print.h: Log and Init for the object and its sinks, Before
--   and Print for the functions that print, Errors for the texts of error numbers; Sinks, Bound and
--   Levels have the proofs.
-- * CmWs is the WebSocket of common/cm_http.c and common/cm_conn_ws.c over common/cm_conn_tcp.c:
--   Frame for heads and masks, Read for cm_websocket_request_recv_ex, Once for
--   cm_websocket_request_recv, Send for cm_websocket_request; Mask, Heads, Payload, Fragments,
--   Sending, Exchange, Closes and Cut have the proofs. A connection is the bytes still to come.
--   Rounds and reads of a payload are bounded by fuel: the number of frames and the bytes of the
--   payload are enough.
-- * JkBytes is common/jkbytes.c: hexadecimal digits and escapes.
-- * FlashCfg is common/cm_flash_cfg.c, the factory settings in a flash: FlashCfg.Params has the
--   tables, FlashCfg the operations cfg_get, cfg_set and cfg_erase with the shell commands they
--   issue, and Tool the MAC, the flag and the command line.
-- * V4 is jkprotocol/v4/v4.c, the two-byte header of the binary protocol and its messages.
-- * JkProtocol is jkprotocol/jkprotocol.c: signed messages of fields between line ends, with
--   JkProtocol.Fields for its fields and JkProtocol.RoundTrip for the whole.
-- * CmConf is common/cm_conf.c: the table of keys and values (Table), the lines of its file (Lines)
--   and the file (File).
-- * JkProtocolBin is jkprotocol/binary/jkprotocolbin.c as the build compiles it, with headers as
--   text: State has the object and its checks, Text the header, Codec sending and receiving.
-- * Rasp is protocol/rasp/kfrasp.c with kfrasp_string.c and kfrasp_parse_data.c: the command tables
--   (Names, Commands), the signed header in a JSON document (Header, Signing), and the bodies: their
--   data (Body), the document with its sections (Document), what is read (Process, Receive) and
--   written (Generate), with proofs in Bodies and Balance.
-- * Common has what these share: numbers and lists, C texts, decimal digits, bit loops, and the
--   outcome of a call, which is a value, an error code, or an access that C does not define.
--
-- Representation. A text is the list of its bytes before the NUL, an int an integer, an unsigned
-- number a natural number with its wrap-around written out. A buffer with a fixed size is a length
-- check or a truncation where the code has one; where the code has none and can run over, the
-- outcome is `fault`. Loops over lists in memory run on fuel, and theorems state that as many
-- rounds as there are nodes are enough. Loops that read a file or a connection run on as much fuel
-- as bytes are to come, since each round takes one at least; the round trips of CmConf.File and
-- CmHttpDownload.Whole show that it is enough. http_download calls itself for a redirection, as
-- often as its first argument says. All other loops are structural.
--
-- Parameters. MD5 with its printing as text, the clock, the JSON library, kf_string_compare,
-- jk_time_string, the allocator, the server of a download, the connections of mongoose with
-- mbuf_remove, how many bytes a read or a send of CmWs takes, and the signedness of char are
-- arguments of the definitions that use them. What is relied on is stated as records of
-- hypotheses (Rasp.Commands.Compares, Rasp.Signing.Stores, Rasp.Document.Counts) or at the
-- theorem.
--
-- Not modelled: the system calls of sockets, serial lines, devices and processes, the handshake
-- of a WebSocket, errors of reading and writing, zlog, the copies of other projects (jansson,
-- json, libconfig, jsoncpp, mongoose, ghttp, libqrencode, base64, MD5, AES), the binary form of
-- jkprotocolbin.c, which is not compiled, and the media and device code. The device of the
-- settings is taken to accept every read and write. Tests modules hold runs and examples.
pub mod AvStorage
pub mod BusServer
pub mod CmConf
pub mod CmHttpDownload
pub mod CmList
pub mod CmPrint
pub mod CmTask
pub mod CmTime
pub mod CmUtils
pub mod CmWs
pub mod CmYuv
pub mod Common
pub mod FlashCfg
pub mod JkBytes
pub mod JkProtocol
pub mod JkProtocolBin
pub mod Rasp
pub mod V4
pub mod Walltime
