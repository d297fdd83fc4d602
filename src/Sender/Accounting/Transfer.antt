-- ===== src/Sender/Accounting/Transfer.antt =====
-- initiate_transfer of src/rdps.c and its counters.
use csc361_a.Base.{ℕ, ◌≡◌, refl, sym, subst, inl, inr, List, [], arith}
use csc361_a.Base.Triple.{Everywhere}
use csc361_a.Base.Int.{ℤ, pos, eqb_ℤ}
use csc361_a.Packet.{Packet}
use csc361_a.Socket.{Env}
use csc361_a.Sender.State.{Sender}
use csc361_a.Sender.Transfer.{initiate_transfer, count_syn, count_first, count_fin, count_ack}
use csc361_a.Sender.Window.{count_fresh, count_again, occupy, slide_to}
use csc361_a.Sender.Invariant.{IsCalm, IsSending, IsWindowed, posted, count_rst}
use csc361_a.Sender.Invariant.Transfer.{Ensures-initiate_transfer}
use csc361_a.Sender.Accounting.{IsAccounted, AreDat, Spells, sends, keeps, IsMade-syn, IsMade-fin}

module _ (env : Env) (last_ackno : ℤ) (ps : List Packet) where
  IsAccounted-IsCalm : IsCalm (IsAccounted env last_ackno ps)
  IsAccounted-IsCalm = record {
    machine_lem = λ s w i e.
        (keeps env last_ackno ps) s (record s { machine = w }) i refl e refl refl refl refl refl;
    timers_lem = λ s ts i.
        (keeps env last_ackno ps) s (record s { timer_list = ts }) i refl refl refl refl refl refl
          refl;
    ack_lem = λ s i. (keeps env last_ackno ps) s (count_ack s) i refl refl refl refl refl refl refl;
    rst_lem = λ s i. (keeps env last_ackno ps) s (count_rst s) i refl refl refl refl refl refl refl;
  }

  IsAccounted-IsWindowed : IsWindowed ps (IsAccounted env last_ackno ps)
  IsAccounted-IsWindowed = record {
    open_lem = λ s p i m. (keeps env last_ackno ps) s _ i refl refl refl refl refl refl refl;
    occupy_lem = λ s p i m room.
        (keeps env last_ackno ps) s (occupy p s) i refl refl refl refl refl refl refl;
    slide_lem =
        λ s p i m. (keeps env last_ackno ps) s (slide_to p s) i refl refl refl refl refl refl refl;
  }

  IsAccounted-IsSending : AreDat ps → IsSending env last_ackno ps (IsAccounted env last_ackno ps)
  unfolding eqb_ℤ
  IsAccounted-IsSending dats = record {
    packets_lem = λ s i. i.packets_lem;
    fresh_lem = λ s p text i m e.
        let le = i.unique_le in
        let t = dats p m in
        (sends env last_ackno ps) s p text (count_fresh p (posted text s)) i (inl m) e refl refl
          (rw t refl) (rw t refl) (rw t refl) refl (omega arith);
    again_lem = λ s p text i m e.
        let le = i.unique_le in
        let t = dats p m in
        (sends env last_ackno ps) s p text (count_again p (posted text s)) i (inl m) e refl refl
          (rw t refl) (rw t refl) (rw t refl) refl (omega arith);
    syn_lem = λ s p text i m e.
        let t = IsMade-syn p m in
        (sends env last_ackno ps) s p text (count_first p (count_syn p (posted text s))) i
          (inr (inl m)) e refl refl (rw t refl) (rw t refl) (rw t refl) refl i.unique_le;
    syn_again_lem = λ s p text i m e.
        let t = IsMade-syn p m in
        (sends env last_ackno ps) s p text (count_syn p (posted text s)) i (inr (inl m)) e refl refl
          (rw t refl) (rw t refl) (rw t refl) refl i.unique_le;
    fin_lem = λ s p text i m e.
        let t = IsMade-fin p m in
        (sends env last_ackno ps) s p text (count_first p (count_fin p (posted text s))) i
          (inr (inr m)) e refl refl (rw t refl) (rw t refl) (rw t refl) refl i.unique_le;
  }

-- Nothing was sent and counted yet.
pub record IsFresh (s : Sender) : Type 0 where
  pub sent_lem : s.sent ≡ []
  pub dat_lem : s.dat_packets_sent ≡ 0
  pub unique_lem : s.unique_dat_packets_sent ≡ 0
  pub syn_lem : s.syn_packets_sent ≡ 0
  pub fin_lem : s.fin_packets_sent ≡ 0
  pub bytes_lem : s.bytes_sent ≡ pos 0

-- From globals where nothing was sent yet and with data packets of type DAT, whatever the
-- network, the clock and the polling thread do, wherever the transfer waits or ends short of
-- undefined behaviour: the datagrams sent are the texts of packets each of which is a data packet
-- or the SYN or FIN that create_packet made; the counters of DAT, SYN and FIN packets are the
-- numbers of these packets by type, bytes_sent is the sum of their payload lengths, and no more
-- DAT packets are counted as unique than were sent.
pub initiate_transfer-IsAccounted :
    (env : Env) (fuel : ℕ) (last_ackno : ℤ) (s : Sender)
    → IsFresh s
    → AreDat s.data_packets
    → Everywhere
        (IsAccounted env last_ackno s.data_packets)
        (initiate_transfer env fuel last_ackno s)
initiate_transfer-IsAccounted env fuel last_ackno s f dats =
    let ps = s.data_packets in
    (Ensures-initiate_transfer env last_ackno ps (IsAccounted-IsCalm env last_ackno ps)
        (IsAccounted-IsSending env last_ackno ps dats) (IsAccounted-IsWindowed env last_ackno ps)
        fuel).at
      s
      (record {
        packets_lem = refl;
        log = [];
        genuine = λ q m. absurd m;
        accounts = record {
          spelled = subst (Spells []) (sym f.sent_lem) tt;
          dat_lem = sym f.dat_lem;
          syn_lem = sym f.syn_lem;
          fin_lem = sym f.fin_lem;
          bytes_lem = sym f.bytes_lem;
        };
        unique_le = let a = f.unique_lem in omega arith;
      })
