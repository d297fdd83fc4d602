-- ===== src/Sender/Occupied.antt =====
-- The occupied space of the window of src/rdps.c, which fill_window and update_window_base change.
use csc361_a.Base.{Member, ℕ, ◌≡◌, refl, true, List, arith}
use csc361_a.Base.Triple.{Everywhere}
use csc361_a.Base.Int.{ℤ, pos, ◌≤ℤ◌, ◌+ℤ◌, ◌-ℤ◌, ltb_ℤ, +ℤ_parts, -ℤ_parts}
use csc361_a.Packet.{Packet, window_size}
use csc361_a.Socket.{Env}
use csc361_a.Sender.State.{Sender}
use csc361_a.Sender.Transfer.{initiate_transfer}
use csc361_a.Sender.Invariant.{IsCalm, IsSending, IsWindowed}
use csc361_a.Sender.Invariant.Transfer.{Ensures-initiate_transfer}

-- The payload lengths that packetize gives.
abbrev pub AreSized : List Packet → Type 0
AreSized ps =
    (p : Packet) → Member p ps → (pos 0 ≤ℤ p.payload_length) × (p.payload_length ≤ℤ pos 1024)

-- The occupied space is at most one packet over the size.
pub record IsBounded (ps : List Packet) (s : Sender) : Type 0 where
  pub packets_lem : s.data_packets ≡ ps
  pub occupied_le : s.window.occupied ≤ℤ s.window.size +ℤ pos 1023

add_le : (a n b : ℤ) → ltb_ℤ a b ≡ true → n ≤ℤ pos 1024 → a +ℤ n ≤ℤ b +ℤ pos 1023
add_le a n b h le = ground (arith, +ℤ_parts a n, +ℤ_parts b (pos 1023))

sub_le : (a n b : ℤ) → a ≤ℤ b → pos 0 ≤ℤ n → a -ℤ n ≤ℤ b
sub_le a n b h le = ground (arith, -ℤ_parts a n)

module _ (ps : List Packet) where
  IsBounded-IsCalm : IsCalm (IsBounded ps)
  IsBounded-IsCalm = record {
    machine_lem = λ s w i e. record { packets_lem = i.packets_lem; occupied_le = i.occupied_le };
    timers_lem = λ s ts i. record { packets_lem = i.packets_lem; occupied_le = i.occupied_le };
    ack_lem = λ s i. record { packets_lem = i.packets_lem; occupied_le = i.occupied_le };
    rst_lem = λ s i. record { packets_lem = i.packets_lem; occupied_le = i.occupied_le };
  }

  IsBounded-IsSending : (env : Env) (last_ackno : ℤ) → IsSending env last_ackno ps (IsBounded ps)
  IsBounded-IsSending env last_ackno = record {
    packets_lem = λ s i. i.packets_lem;
    fresh_lem =
        λ s p text i _ _. record { packets_lem = i.packets_lem; occupied_le = i.occupied_le };
    again_lem =
        λ s p text i _ _. record { packets_lem = i.packets_lem; occupied_le = i.occupied_le };
    syn_lem = λ s p text i _ _. record { packets_lem = i.packets_lem; occupied_le = i.occupied_le };
    syn_again_lem =
        λ s p text i _ _. record { packets_lem = i.packets_lem; occupied_le = i.occupied_le };
    fin_lem = λ s p text i _ _. record { packets_lem = i.packets_lem; occupied_le = i.occupied_le };
  }

  IsBounded-IsWindowed : AreSized ps → IsWindowed ps (IsBounded ps)
  IsBounded-IsWindowed sized = record {
    open_lem = λ s p i m. record {
      packets_lem = i.packets_lem;
      occupied_le = let e = +ℤ_parts (pos window_size) (pos 1023) in omega arith;
    };
    occupy_lem = λ s p i m room. record {
      packets_lem = i.packets_lem;
      occupied_le = add_le s.window.occupied p.payload_length s.window.size room (sized p m).1;
    };
    slide_lem = λ s p i m. record {
      packets_lem = i.packets_lem;
      occupied_le =
          sub_le s.window.occupied p.payload_length (s.window.size +ℤ pos 1023) i.occupied_le
            (sized p m).0;
    };
  }

-- With payload lengths from 0 to 1024 and a window that is within the bound before it is opened,
-- wherever the transfer waits or ends short of undefined behaviour, whatever the network, the
-- clock and the polling thread do: the occupied space of the window is at most 1023 bytes more
-- than its size, that is, the last packet that was let in overlaps the end of the window at most.
pub initiate_transfer-IsBounded :
    (env : Env) (fuel : ℕ) (last_ackno : ℤ) (s : Sender)
    → AreSized s.data_packets
    → s.window.occupied ≤ℤ s.window.size +ℤ pos 1023
    → Everywhere (IsBounded s.data_packets) (initiate_transfer env fuel last_ackno s)
initiate_transfer-IsBounded env fuel last_ackno s sized le =
    let ps = s.data_packets in
    (Ensures-initiate_transfer env last_ackno ps (IsBounded-IsCalm ps)
        (IsBounded-IsSending ps env last_ackno) (IsBounded-IsWindowed ps sized) fuel).at
      s (record { packets_lem = refl; occupied_le = le })
