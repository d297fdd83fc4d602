-- ===== src/Log/Report.antt =====
-- print_statistics of src/rdps.c and src/rdpr.c, print_contents of src/packet.c, and the two prints
-- of src/timer.c: what each puts on standard output.
use csc361_a.Base.{
  ℕ, not, Bool, List, [], ◌∷◌, ◌++◌, Result, ok, crash, ◌>>=◌, if◌then◌else◌, ltb, length,
}
use csc361_a.Base.Int.{pos}
use csc361_a.Base.Text.{Bytes, codes}
use csc361_a.Base.Decimal.{itoa}
use csc361_a.Packet.{Packet, payload_string}
use csc361_a.Timer.{PacketTimer}
use csc361_a.Sender.State.{Sender}
use csc361_a.Receiver.{Receiver}
use csc361_a.Log.Strings.{joined}

-- A label, the text of a value, and a newline.
abbrev pub row : Bytes → Bytes → Bytes
row label text = label ++ (text ++ codes "\n")

-- `show_seconds` is the %f of clock() in seconds. RST_packets_sent is never counted.
unfoldable pub sender_statistics : (ℕ → Bytes) → ℕ → Sender → Bytes
sender_statistics show_seconds clock s = joined (
    codes "Sender Statistics:\n"
    ∷ row (codes " Total data bytes sent: ") (itoa s.bytes_sent)
    ∷ row (codes " Unique data bytes sent: ") (itoa s.unique_bytes_sent)
    ∷ row (codes " Total data packets sent: ") (itoa (pos s.dat_packets_sent))
    ∷ row (codes " Unique data packets sent: ") (itoa (pos s.unique_dat_packets_sent))
    ∷ row (codes " SYN packets sent: ") (itoa (pos s.syn_packets_sent))
    ∷ row (codes " FIN packets sent: ") (itoa (pos s.fin_packets_sent))
    ∷ row (codes " RST packets sent: ") (itoa (pos 0))
    ∷ row (codes " ACK packets received: ") (itoa (pos s.ack_packets_received))
    ∷ row (codes " RST packets received: ") (itoa (pos s.rst_packets_received))
    ∷ row (codes " Transfer duration: ") (show_seconds clock)
    ∷ [])

unfoldable pub receiver_statistics : (ℕ → Bytes) → ℕ → Receiver → Bytes
receiver_statistics show_seconds clock r = joined (
    codes "Receiver Statistics:\n"
    ∷ row (codes " Total data bytes received: ") (itoa r.dat_bytes_received)
    ∷ row (codes " Unique data bytes received: ") (itoa r.unique_dat_bytes_received)
    ∷ row (codes " Total data packets received: ") (itoa (pos r.dat_packets_received))
    ∷ row (codes " Unique data packets received: ") (itoa (pos r.unique_dat_packets_received))
    ∷ row (codes " SYN packets received: ") (itoa (pos r.syn_packets_received))
    ∷ row (codes " FIN packets received: ") (itoa (pos r.fin_packets_received))
    ∷ row (codes " RST packets received: ") (itoa (pos r.rst_packets_received))
    ∷ row (codes " ACK packets sent: ") (itoa (pos r.ack_packets_sent))
    ∷ row (codes " RST packets sent: ") (itoa (pos 0))
    ∷ row (codes " Transfer duration: ") (show_seconds clock)
    ∷ [])

-- `char type[3]`: a type of more than two characters is printed over its end.
unfoldable pub print_contents : Packet → Result Bytes
print_contents p = do
  payload ← payload_string p
  _ ← (if ltb (length (itoa p.type)) 3 then ok (tt {0}) else crash)
  ok (
      joined (
        codes "Packet contents...\n"
        ∷ row (codes "magic: ") p.magic
        ∷ row (codes "type: ") (itoa p.type)
        ∷ row (codes "seqno: ") (itoa p.seqno)
        ∷ row (codes "ackno: ") (itoa p.ackno)
        ∷ row (codes "winsize: ") (itoa p.winsize)
        ∷ row (codes "payload: ") payload
        ∷ row (codes "payload_length: ") (itoa p.payload_length)
        ∷ []))

abbrev timer_row : PacketTimer → Bytes
timer_row t = codes "Timer: " ++ row (itoa t.pckt_ackno ++ codes " sent at ") (itoa t.time_sent)

-- The timers that run, or those that do not.
unfoldable pub timer_rows : (PacketTimer → Bool) → List PacketTimer → Bytes
timer_rows chosen [] = []
timer_rows chosen (t ∷ ts) =
    let rest = timer_rows chosen ts in if chosen t then timer_row t ++ rest else rest

unfoldable pub print_running_timers : List PacketTimer → Bytes
unfolding timer_rows
print_running_timers ts = codes "Running timers:\n" ++ timer_rows (λ t. t.running) ts

unfoldable pub print_stopped_timers : List PacketTimer → Bytes
unfolding timer_rows
print_stopped_timers ts = codes "Stopped timers:\n" ++ timer_rows (λ t. not t.running) ts
