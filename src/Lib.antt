-- ===== src/Lib.antt =====
-- The reliable datagram protocol of src/: the sending program rdps, the receiving program rdpr, and
-- what they share.
--
-- The parts, and how they work together:
-- - Packet (src/packet.h, src/packet.c): create_packet, add_packet, the text form of packets
--   (construct_string, type_itos), and in Packet/Parse its reader (charAppend, deconstruct_string,
--   receive_packet). A packet is sent as its seven fields, each with a semicolon behind it.
-- - Timer (src/timer.h, src/timer.c): the list of timers, one for each packet that is to be
--   acknowledged, looked up by acknowledgement number.
-- - Socket: send_packet and the receiving of a datagram, clock() and malloc, as both programs use
--   them.
-- - Receiver (src/rdpr.c): the loop of main for each packet type, store_dataPacket, DATisUnique and
--   write_file. The body of the loop is split by packet type (on_dat, on_syn, on_fin, on_rst).
-- - Sender (src/rdps.c): packetize in Sender/Packetize, the timers and the polling thread in
--   Sender/Timers, the window (fill_window, update_windowBase, resend_timedoutPackets, handle_packet)
--   in Sender/Window, and initiate_transfer in Sender/Transfer, the globals in Sender/State.
-- - Startup (src/rdps.c, src/rdpr.c): main of both programs from its arguments on, with the reading
--   of the file and setup_connection.
-- - Log (src/rdps.c, src/rdpr.c, src/packet.c, src/timer.c): print_log and get_adrString, which the
--   two programs have alike, and in Log/Report print_statistics, print_contents and the prints of
--   the timers.
-- Base holds the shared types: results that end by exit(-1) or by undefined behaviour, the state
-- monad of a program (Base/Action), C strings in memory (Base/Text), and the decimals of sprintf and
-- atoi (Base/Decimal). The other modules under Packet, Timer, Receiver and Sender hold proofs, and
-- Tests applies the theorems to small inputs.
--
-- SmallFile puts packetize and the receiving program together for a file that fits one packet,
-- Network both programs over a network that loses, repeats, delays and reorders datagrams, and
-- Network/Programs the same from main on; Network/Content is about which of the file's bytes can
-- come to the receiver. Sender/Invariant has the rules, over the triples of
-- Base/Triple, by which a condition on the sender's globals is carried through the transfer;
-- Sender/Accounting and Sender/Occupied use them. Sender/Kept and Sender/Settled follow what a call
-- keeps, over the rules of Socket/Frame. Receiver/Genuine has them for the receiver's loop,
-- and Receiver/Finishing is about how that loop ends.
--
-- Network/Mains and Network/Dialogue are about both programs turn by turn, for a file that fits one
-- packet: what each has sent when it has been given what the other sent before. They rest on
-- Sender/Exchange and Receiver/Exchange, which use the triples for total correctness of Base/Total;
-- Sender/Marks is the timer list without what the clock and the polling thread decide, and
-- Sender/Exchange/Retries is about a SYN that is not answered in time.
--
-- The abstract views: Packet/Split reads the text of a packet by splitting it, without blocks or
-- counters, and Packet/Datagram a datagram; Sender/Plan cuts a file into chunks from its bytes
-- alone, without buffers or arrays; Timer/Lookup says what each call does to later lookups;
-- Receiver/Delivery sees a transfer as packets with their text.
--
-- What is fixed: the x86-64 ABI (pointers of 8 bytes, ints of 4, the lowest byte first), on which
-- the sizes of the allocated blocks depend, and CLOCKS_PER_SEC of POSIX. Ints, also the counters of
-- the statistics, are unbounded integers in the definitions; a theorem for which the int range
-- matters asks for it. A list of pointers is its entries before the first null pointer; a write
-- behind the array is undefined behaviour, and so is write_file with an array that is full. The
-- loops over the list of timers are those for a list that has a null pointer behind its entries,
-- which the array of MAX_TIMERS has for up to 49999 timers.
--
-- The parameters: a Heap gives the bytes of fresh blocks, by the number and size of the allocation,
-- and the string at the pointer that create_packet leaves unset. An Env gives the heap of each call,
-- what clock() returns, which sendto fails, and how many sweeps of the polling thread come before
-- each critical section of the main thread. The inbox of a Machine holds what recvfrom will give, a
-- datagram or a timeout. The theorems that ask for zeroed memory say so: deconstruct_string uses
-- fresh memory as an empty string.
--
-- Fuel: each round of the programs' loops takes one entry of the inbox, so one more than the entries
-- is enough; a program that finds the inbox empty is blocked.
--
-- A Host gives what the file system and the kernel answer to main, and a Screen what inet_ntoa,
-- asctime and malloc give to print_log.
--
-- Not modelled: the freeing of memory, and samplecode/, which is not built. The calls of print_log
-- and print_statistics are not part of the handlers, and are taken to return; Log says what a call does.
-- sprintf's arrays in construct_string are taken to be large enough. The loop over data_packets
-- after calloc in main of src/rdps.c has no bound: whether it meets a word that is not null is the
-- host's. The length of a file is taken as it is, not as an int, and divided exactly, which is what
-- main does for files below 2^24 bytes.
pub mod Base
pub mod Timer
pub mod Packet
pub mod Socket
pub mod Receiver
pub mod Sender
pub mod SmallFile
pub mod Network
pub mod Startup
pub mod Log
mod Tests
