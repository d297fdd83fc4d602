-- ===== src/Tests/Printing.antt =====
-- The theorems on what the programs print.
use csc361_a.Base.{ℕ, ◌≡◌, refl, true, false, [], ◌∷◌, ◌++◌, ok, crash, arith}
use csc361_a.Base.Int.{pos, eqb_ℤ, ◌≤ℤ◌}
use csc361_a.Base.Text.{codes, zeros, length-zeros}
use csc361_a.Base.Decimal.{itoa}
use csc361_a.Packet.{dat, type_itos}
use csc361_a.Startup.{Connection}
use csc361_a.Log.{Screen, get_adr_string, print_log}
use csc361_a.Log.Strings.{joined}
use csc361_a.Log.Parts.{address_text, event_text, line_parts}
use csc361_a.Log.Line.{IsOrderly, get_adr_string_overrun, print_log_lem}
use csc361_a.Log.Statistics.{IsReported, initiate_transfer-IsReported}
use csc361_a.Tests.{zero_heap, zero_heap-IsZeroed, hi_packet, quiet_env}
use csc361_a.Tests.Network.{
  at_start, at_start-IsFresh, only_hi, at_end, at_end-reached, at_end-HasIntTotals,
}

abbrev screen_of : ℕ → Screen
screen_of n = record {
  inet_ntoa = λ ip. codes "192.168.1.100";
  static_buffer = zeros n;
  asctime = codes "Wed" ++ 10 ∷ 0 ∷ [];
  heap = zero_heap;
}

screen_of-IsOrderly : (n : ℕ) → IsOrderly (screen_of n) n (codes "Wed")
screen_of-IsOrderly n = record {
  zeroed = zero_heap-IsZeroed;
  static_size = length-zeros n;
  ntoa_string = λ ip. ground arith;
  ntoa_short = λ ip. omega arith;
  time_is = refl;
  time_string = ground arith;
  time_line = ground arith;
  time_short = omega arith;
}

abbrev connection : Connection
connection = record {
  adr_sender = record { ip = 1; port = 2699 };
  adr_receiver = record { ip = 2; port = 81 };
}

print_log_lem_example :
    print_log (screen_of 32) connection true false (pos 0) (pos 2) (pos 7)
    ≡ ok (
        joined (
          codes "Wed"
          ∷ line_parts
              (event_text true false)
              (address_text (screen_of 32) connection.adr_receiver)
              (codes "DAT")
              (itoa (pos 2))
              (itoa (pos 7)))
        ++ codes "\n")
unfolding type_itos eqb_ℤ itoa
print_log_lem_example =
    print_log_lem (screen_of 32) 32 (codes "Wed") (screen_of-IsOrderly 32) connection true false
      (pos 0) (pos 2) (pos 7) (codes "DAT") refl (omega arith) (omega arith) (omega arith)
      (omega arith) (omega arith) (omega arith)

-- "192.168.1.100:2699" and its NUL in 18 bytes
get_adr_string_overrun_example :
    get_adr_string (screen_of 18) connection.adr_sender (zeros 18) ≡ crash
unfolding itoa
get_adr_string_overrun_example =
    get_adr_string_overrun (screen_of 18) 18 (codes "Wed") (screen_of-IsOrderly 18)
      connection.adr_sender (zeros 18) (length-zeros 18) (omega arith) (omega arith) (omega arith)

initiate_transfer-IsReported_example :
    IsReported quiet_env (pos 2) (hi_packet ∷ []) (λ clock. codes "0.1") 7 at_end
initiate_transfer-IsReported_example =
    initiate_transfer-IsReported quiet_env 3 (pos 2) (λ clock. codes "0.1") 7 at_start at_end
      at_start-IsFresh (only_hi (λ p. p.type ≡ dat) refl)
      (only_hi (λ p. pos 0 ≤ℤ p.payload_length) (omega arith)) at_end-reached at_end-HasIntTotals
