-- ===== src/Lib.antt =====
-- A model of a group membership service with a distributed file system on top, in C: the nodes
-- form a ring, the first of them leads, and files are cut into chunks that two nodes hold each.
--
-- The parts, and the files of this library that model them:
-- - Common: tests on numbers, lists, code that may fault (an Option, whose none is an access that
--   the C program may not make, or a loop without end), and C strings.
-- - Wire: commons/message_type.h, commons/message_encode.c (perform_marshalling, sendPayload,
--   sendPayloadUDP) and commons/message_decode.c (message_decode, message_decode_UDP). What write
--   and read do is an explicit list of outcomes and events.
-- - Transfer: commons/send_file.c (sendFile) and the branch of commons/packet_process.c
--   (processPacket) that appends the pieces of a file. The shell that its
--   `system` calls is a parameter, of which Transfer/FileNames says what is relied on.
-- - Ring: commons/list.c, the circular doubly linked list of the members. The heap is a function
--   for each field of a node; calloc's address is an argument.
-- - Membership: commons/fdetect_payload_process.c (processHeartbeatPayload,
--   processNodeAddDeletePayload, processTopologyRequest, populate_ipAddrList, sendAddNodePayload)
--   and sendDeleteNotification of failure_detector/failure_detector.c. It uses Ring; the messages
--   that go out are a list of addresses with payloads.
-- - Admission: admission_contact/admission_contact.c, which saves the members' addresses in a file and
--   reads them after a crash. It uses Membership.
-- - Detector: failure_detector/ (node_init, node_exit, get_topology, the rounds of heartbeat_receive
--   and the choice of heartbeat_send). It uses Membership; what sockets, poll and pthread_cancel
--   return is given, and threads are counted.
-- - Metadata: commons/file_metadata.c, the leader's record of files, chunks and replicas. File and
--   address records are lists; the nodes of the lists of files by address are a heap, since the
--   code aliases them.
-- - FileMap: commons/file_map.c.
-- - Dfs: dfs/dfs_write_to_file.c, dfs/dfs_read_from_file.c, the leader's side of dfs/dfs_operation.c
--   (populateFileInfoPayload, processFileInfoUpdatePayload, sendFileDelete,
--   sendMetadataToNeighbour) and commons/dfs_payload_process.c. It uses Metadata and Ring.
-- - Listener: dfs/dfs_listener.c, the slots of the workers that serve connections about files.
-- - NodeInfo: node/node_send_info.c, the thread that sends one message and may wait for the answer.
-- - Ui: ui/ui.c, the choices of the menu, and the commands about files, whose parsing is over the bytes
--   of the array that it fills. It uses Detector.
-- - Dgrep: dgrep_client/dgrep_client.c, the client of the distributed grep that came before: the script
--   that it sends, its retries and its status flags.
-- - Examples: concrete runs of the theorems.
--
-- Bytes are numbers below 256, a buffer is a list of them, and strcmp, strncmp and memcmp are
-- Boolean functions on buffers. Numbers of 8, 16, 32 or 64 bits are natural numbers with the
-- wrap-around written out where the code counts up or down, and at the boundary of the wire.
--
-- Loops over lists of data are structural. find_exact runs once for each member at most, and its
-- fuel is that count; find_ip and populate_loop count as the code does. send_loop gets one round
-- more than the file has bytes, and each round takes at least one. The walks over lists of files
-- get as many rounds as nodes were ever allocated, so that none means a circle. scan_command and
-- send_script_loop get one round more than there are bytes in the buffer or the file. find_free gets one
-- round for each slot, after which it would be back where it began. read_lines gets as many rounds as
-- the file has bytes, and each takes one at least.
--
-- Not modelled: sockets, threads and locks (each handler runs alone), timers, shell commands but
-- those of the file transfer, the log, what is printed, and the server and the log generator of the
-- distributed grep. Memory is available except where an address of calloc is an argument, disks take
-- what is written, and every pthread_create succeeds.
pub mod Common
pub mod Wire
pub mod Transfer
pub mod Ring
pub mod Membership
pub mod Admission
pub mod Detector
pub mod Listener
pub mod NodeInfo
pub mod Ui
pub mod Dgrep
pub mod Metadata
pub mod FileMap
pub mod Dfs
pub mod Examples
