-- ===== src/Packet/Datagram.antt =====
-- receive_packet of src/packet.c on any datagram.
use csc361_a.Base.{
  ℕ, zero, suc, ◌-◌, ◌≤◌, ◌≡◌, refl, ◌∙◌, Bool, true, false, ◌&&◌, some, [], ◌∷◌, ◌++◌, arith, ◌==◌,
  le→leb, if◌then◌else◌, length, take, Result, ok, ◌>>=◌, or_crash, >>=-after,
}
use csc361_a.Base.Text.{
  Bytes, Lacks, c_string, overlay-append, zeros, zeros-suc, length-zeros, drop-zeros,
}
use csc361_a.Packet.{Heap, packet_size}
use csc361_a.Packet.Parse.{fill_buffer, deconstruct_string, check_packet, receive_packet}
use csc361_a.Packet.Scan.{IsZeroed}
use csc361_a.Packet.Split.{fields, behind, all_fit, guarded, make_packet, parse}
use csc361_a.Packet.Split.Cut.{length-behind}
use csc361_a.Packet.Reading.{deconstruct_string-parse}

-- The bytes up to a NUL or the end.
unfoldable pub upto_nul : Bytes → Bytes
upto_nul [] = []
upto_nul (c ∷ s) = if c == 0 then [] else c ∷ upto_nul s

-- What the program sees of a datagram.
abbrev pub text_of : Bytes → Bytes
text_of d = upto_nul (take packet_size d)

upto_nul-Lacks : (s : Bytes) → Lacks 0 (upto_nul s)
unfolding upto_nul
upto_nul-Lacks [] = tt
upto_nul-Lacks (c ∷ s) = ground (arith, upto_nul-Lacks s)

length-upto_nul : (s : Bytes) → length (upto_nul s) ≤ length s
unfolding upto_nul
length-upto_nul [] = omega arith
length-upto_nul (c ∷ s) = ground (arith, length-upto_nul s)

length-take : (n : ℕ) (s : Bytes) → length (take n s) ≤ n
length-take zero s = omega arith
length-take (suc n) [] = omega arith
length-take (suc n) (c ∷ s) = omega (arith, length-take n s)

c_string-upto_nul : (s rest : Bytes) → c_string (s ++ 0 ∷ rest) ≡ some (upto_nul s)
unfolding c_string upto_nul
c_string-upto_nul [] rest = refl
c_string-upto_nul (c ∷ s) rest = ground (arith, c_string-upto_nul s rest)

-- The string in the buffer.
buffer_text :
    (h : Heap) (d : Bytes)
    → IsZeroed h
    → (fill_buffer h (some d) >>= λ m. or_crash (c_string m)) ≡ ok (text_of d)
unfolding fill_buffer
buffer_text h d z =
    let t = take packet_size d in
    let short = length-take packet_size d in
    rw
      (
        z 32 12000,
        overlay-append t (zeros 12000) (omega (arith, length-zeros 12000)),
        drop-zeros (length t) 12000,
        zeros-suc (12000 - length t) (omega arith),
        c_string-upto_nul t (zeros (12000 - length t - 1)),
      )
      refl

and-true : (b : Bool) → (b && true) ≡ b
and-true true = refl
and-true false = refl

guarded_assoc :
    {A B C : Type 0} (b : Bool) (a : A) (f : A → Result B) (g : B → Result C)
    → (guarded b a >>= f >>= g) ≡ (guarded b a >>= λ x. f x >>= g)
guarded_assoc true a f g = refl
guarded_assoc false a f g = refl

text_of-le : (d : Bytes) → length (text_of d) ≤ 1500
text_of-le d = omega (arith, length-upto_nul (take packet_size d), length-take packet_size d)

-- A text that is short enough for the block in which its fields are gathered.
short_text :
    (h : Heap) (t : Bytes)
    → IsZeroed h
    → Lacks 0 t
    → length t ≤ 1500
    → (deconstruct_string h t >>= check_packet)
      ≡ (guarded (all_fit 0 (fields 7 t)) (fields 7 t) >>= λ fs. make_packet h fs >>= check_packet)
unfolding parse
short_text h t z zs short =
    rw
      (
        deconstruct_string-parse h t z zs,
        le→leb (length (behind 7 t)) 8192 (omega (arith, length-behind 7 t)),
        and-true (all_fit 0 (fields 7 t)),
      )
      (guarded_assoc (all_fit 0 (fields 7 t)) (fields 7 t) (make_packet h) check_packet)

-- Over zeroed memory receive_packet reads every datagram by its text, the first 1500 bytes up to a
-- NUL: where one of the fields that the first seven semicolons of the text end does not fit its
-- block the access is undefined, and otherwise the packet of these fields is made and checked.
pub receive_packet-fields :
    (h : Heap) (d : Bytes)
    → IsZeroed h
    → receive_packet h (some d) ≡ (
        guarded (all_fit 0 (fields 7 (text_of d))) (fields 7 (text_of d)) >>= λ fs.
        make_packet h fs >>= check_packet)
unfolding receive_packet
receive_packet-fields h d z =
    >>=-after (fill_buffer h (some d)) (λ m. or_crash (c_string m))
      (λ s. deconstruct_string h s >>= check_packet) (buffer_text h d z)
    ∙ short_text h (text_of d) z (upto_nul-Lacks (take packet_size d)) (text_of-le d)
