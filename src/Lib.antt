-- ===== src/Lib.antt =====
-- A verification library for linuxptp, the implementation of the Precision Time Protocol in
-- linuxptp1103/: the decisions of its daemons that are functions of their inputs and states, as
-- definitions that run, with theorems about them.
--
-- The program. ptp4l opens a port for each interface (port.c). A port is driven by events:
-- timers, messages, faults and the decisions of the best master clock algorithm, which it hands
-- to its state machine (fsm.c, or designated_fsm.c where the role is configured). A packet is
-- read and written by msg.c, and the TLVs behind it are checked by tlv.c. Announce messages make
-- the list of foreign masters of a port, of which it chooses the best. A slave port turns the
-- time stamps of its messages into time values (tmv.h), smooths the path delay with a filter
-- (tsproc.c, filter.c, mave.c, mmedian.c) and steers the clock by a servo (servo.c), which also
-- tells other processes through shared memory how stable it is. With unicast negotiation each
-- possible master has a small state machine of its own (unicast_fsm.c), which the unicast client
-- drives by the grants that it asks for (unicast_client.c); requests and grants travel in
-- signaling messages (port_signaling.c). ts2phc and phc2sys use the leap second table (lstab.c),
-- and ts2phc reads the time of day from a GPS receiver (nmea.c). Sync and Follow_Up messages meet
-- in port.c, in whichever order they come. A unicast server keeps the intervals of its clients in
-- a priority queue (unicast_service.c, pqueue.c). A transparent clock passes the messages on and
-- adds the time that they spent in it (tc.c). Options are kept in a hash table (hash.c). The
-- programs share helpers (util.c). The telecom profiles compare clocks in their own way
-- (telecom.c).
--
-- Files, and what they model:
--   Fsm.antt            fsm.h, fsm.c and designated_fsm.c: ptp_fsm, ptp_slave_fsm and the two
--                       machines of designated ports; Fsm/Unicast.antt is unicast_fsm.c.
--   Port/State.antt     port.c: port_state_update, and the choice of the machine in port_open.
--   Port/SyncFup.antt   port.c: process_sync, process_follow_up, port_syfufsm, port_synchronize.
--   Port/Foreign.antt   port.c: the foreign masters, from process_announce to port_compute_best.
--   Wire.antt           the layout of a packed struct in network byte order, as msg.c reads it.
--   Tlv.antt            tlv.c: the tests of tlv_post_recv; Tlv/Management.antt has mgt_post_recv.
--   Msg.antt            msg.h and msg.c: msg_post_recv, msg_pre_send and the list of TLVs. The
--                       byte order of the host is a parameter; Msg/Order.antt has what it does.
--   Tc.antt             tc.c: which way a frame may go, and the match of the frames that wait;
--                       Tc/Forward.antt has the loops over the ports.
--   Tmv.antt            tmv.h: the arithmetic and the conversions of time values.
--   Filter/Mave.antt    mave.c: mave_create, mave_accumulate, mave_reset.
--   Filter/Mmedian.antt mmedian.c: mmedian_create, mmedian_sample, mmedian_reset.
--   Filter/Choice.antt  filter.c: the choice between the two.
--   Tsproc.antt         tsproc.c: the path delay and the offset from four time stamps.
--   Lstab.antt          lstab.c: reading the table, its refresh, and lstab_utc2tai.
--   Hash.antt           hash.c: hash_function, hash_insert, hash_lookup.
--   Telecom.antt        telecom.c: telecom_dscmp.
--   Servo.antt          servo.c: servo_sample and its offset threshold; Servo/Shm.antt has the
--                       regions of shared memory, their creation, updates and reads.
--   Nmea.antt           nmea.c: the parser of sentences and the scan of an RMC sentence.
--   Pqueue.antt         pqueue.c: the whole priority queue.
--   UnicastService.antt unicast_service.c: the times of the service's intervals;
--                       UnicastService/Contracts.antt has the contracts of the clients, and
--                       UnicastService/Clients.antt what the clients are sent.
--   UnicastClient.antt  unicast_client.c: what a port asks of its masters;
--                       UnicastClient/Grants.antt has what the answers change, and
--                       UnicastClient/Timer.antt the timer, the setting up and what port.c calls.
--   Signaling.antt      port_signaling.c: process_signaling, which hands a message to the service,
--                       the client or the intervals of the port.
--   Util.antt           util.c: leap second status, texts, ranges, arrays;
--                       Util/Base64.antt has base64_len and base64_decode.
--   Prelude/            tests on numbers, lists, integers, arrays as functions.
--   Tests/              the theorems at concrete inputs, and runs of the model.
-- The other files hold the proofs about the file that their folder is named for.
--
-- Conventions. A function that changes a struct returns the new record; a return value 0 or an
-- error is a Bool or an Option, as the comment at the definition says. uint64_t and int64_t
-- values are natural numbers below 2 ^ 64, with the wrap-around written out, and an int64_t is
-- the number that its pattern stands for by `value`. An int that is only counted or compared is a
-- natural number or a ℤ, without its overflow. A pointer to a function is an argument, as is the
-- answer of the system: whether a call of shm_open, stat or malloc succeeds. Loops are recursions
-- on the list, on the index or on the rounds left. Fuel is used where the round is no structural
-- step: the search for a comma in a sentence, which the array's length bounds, the TLVs of a
-- packet, each of which takes four bytes at least, so that the number of bytes is enough, the two
-- ways through the priority queue, where the number of entries is enough, and the doubling of the
-- room of an array, where the length that is needed is enough.
--
-- Not modelled: sockets, timers and the message transports; the bodies of port_initialize and
-- port_disable (the outcome of the first is an input of port_state_update); the double precision
-- algorithms of the servos and of clockcheck.c; the other parts of port.c and the programs around
-- ptp4l. clock.c and bmc.c are not in the repository: what telecom.c, tc.c and port.c use of them
-- is a parameter. Of tlv.c the conversion of the fields inside a TLV is left out, of
-- unicast_service.c the loop of the timer over the queue, of tc.c the authentication TLVs. The
-- configuration, the clients of the management messages and the signaling messages that a port
-- begins by itself are not modelled either.
pub mod Prelude
pub mod Fsm
pub mod Port
pub mod Tmv
pub mod Tsproc
pub mod Filter
pub mod Lstab
pub mod Hash
pub mod Tc
pub mod Signaling
pub mod Telecom
pub mod Servo
pub mod Nmea
pub mod Pqueue
pub mod UnicastClient
pub mod UnicastService
pub mod Util
pub mod Wire
pub mod Tlv
pub mod Msg
mod Tests
