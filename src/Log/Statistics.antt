-- ===== src/Log/Statistics.antt =====
-- print_statistics of src/rdps.c against the datagrams that were sent.
use csc361_a.Base.{ℕ, ◌≡◌, refl, List, [], ◌∷◌, Every}
use csc361_a.Base.Int.{ℤ, pos, ◌≤ℤ◌}
use csc361_a.Base.Text.{Bytes, codes}
use csc361_a.Base.Decimal.{itoa, IsInt}
use csc361_a.Packet.{Packet, dat, syn, fin}
use csc361_a.Socket.{Env}
use csc361_a.Sender.State.{Sender}
use csc361_a.Sender.Transfer.{initiate_transfer}
use csc361_a.Network.{Reaches, Everywhere-Reaches}
use csc361_a.Sender.Accounting.{IsAccounted, Spells, Genuine, number_of, total_length, AreDat}
use csc361_a.Sender.Accounting.Transfer.{IsFresh, initiate_transfer-IsAccounted}
use csc361_a.Log.Report.{row, sender_statistics}
use csc361_a.Log.Strings.{joined}

-- The statistics with the numbers of datagrams and of bytes counted from the packets sent.
abbrev pub counted_statistics : (ℕ → Bytes) → ℕ → List Packet → Sender → Bytes
counted_statistics show_seconds clock log s = joined (
    codes "Sender Statistics:\n"
    ∷ row (codes " Total data bytes sent: ") (itoa (total_length (pos 0) log))
    ∷ row (codes " Unique data bytes sent: ") (itoa s.unique_bytes_sent)
    ∷ row (codes " Total data packets sent: ") (itoa (pos (number_of dat log)))
    ∷ row (codes " Unique data packets sent: ") (itoa (pos s.unique_dat_packets_sent))
    ∷ row (codes " SYN packets sent: ") (itoa (pos (number_of syn log)))
    ∷ row (codes " FIN packets sent: ") (itoa (pos (number_of fin log)))
    ∷ row (codes " RST packets sent: ") (itoa (pos 0))
    ∷ row (codes " ACK packets received: ") (itoa (pos s.ack_packets_received))
    ∷ row (codes " RST packets received: ") (itoa (pos s.rst_packets_received))
    ∷ row (codes " Transfer duration: ") (show_seconds clock)
    ∷ [])

-- What print_statistics prints is counted from a list of packets of the sender, of which the
-- datagrams sent are the texts.
pub record IsReported (env : Env) (last_ackno : ℤ) (ps : List Packet) (show_seconds : ℕ → Bytes)
    (clock : ℕ) (s : Sender) : Type 0 where
  pub log : List Packet
  pub genuine : Every (Genuine env last_ackno ps) log
  pub spelled : Spells log s.sent
  pub printed : sender_statistics show_seconds clock s ≡ counted_statistics show_seconds clock log s

-- The counters are ints.
pub record HasIntTotals (s : Sender) : Type 0 where
  pub bytes_int : IsInt s.bytes_sent
  pub unique_bytes_int : IsInt s.unique_bytes_sent
  pub dat_int : IsInt (pos s.dat_packets_sent)
  pub unique_int : IsInt (pos s.unique_dat_packets_sent)
  pub syn_int : IsInt (pos s.syn_packets_sent)
  pub fin_int : IsInt (pos s.fin_packets_sent)
  pub ack_int : IsInt (pos s.ack_packets_received)
  pub rst_int : IsInt (pos s.rst_packets_received)

-- From globals where nothing was sent yet and with data packets of type DAT whose lengths are not
-- negative, so that no counter goes down, whatever the network, the clock and the polling thread
-- do, wherever the transfer waits or ends short of undefined behaviour with counters that are ints:
-- the totals that print_statistics would print there are the numbers of DAT, SYN and FIN packets,
-- and the sum of the payload lengths, of a list of packets that are data packets or the SYN or FIN
-- of create_packet, and whose texts are the datagrams sent.
pub initiate_transfer-IsReported :
    (env : Env) (fuel : ℕ) (last_ackno : ℤ) (show_seconds : ℕ → Bytes) (clock : ℕ) (s t : Sender)
    → IsFresh s
    → AreDat s.data_packets
    → Every (λ p. pos 0 ≤ℤ p.payload_length) s.data_packets
    → Reaches (initiate_transfer env fuel last_ackno s) t
    → HasIntTotals t
    → IsReported env last_ackno s.data_packets show_seconds clock t
unfolding sender_statistics
initiate_transfer-IsReported env fuel last_ackno show_seconds clock s t fresh dats _ reached _ =
    let i =
      Everywhere-Reaches (IsAccounted env last_ackno s.data_packets)
        (initiate_transfer env fuel last_ackno s) t
        (initiate_transfer-IsAccounted env fuel last_ackno s fresh dats) reached in
    let a = i.accounts in
    record {
      log = i.log;
      genuine = i.genuine;
      spelled = a.spelled;
      printed = rw (a.bytes_lem, a.dat_lem, a.syn_lem, a.fin_lem) refl;
    }
