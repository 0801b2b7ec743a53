-- ===== src/Protocol/Flags.antt =====
-- include/vader5/protocol.hpp, `parse_buttons`: the button word of a report.
use flydigi_vader.Base.{ℕ, ◌+◌, ◌^◌, ◌<◌, ◌≡◌, ◌∙◌, arith, has}
use flydigi_vader.Base.Bits.{bit, has-bit, bit_or-shift}
use flydigi_vader.Protocol.{parse_buttons, set_flag}
use flydigi_vader.Protocol.Report.{Report, weight, weight-le, byte11, byte12, state_of, nibble-lt}

-- A flag above all that is set so far is added.
set_flag-add :
    (k byte flag btns : ℕ)
    → btns < 2 ^ k
    → set_flag byte flag (2 ^ k) btns ≡ btns + weight (has byte flag) (2 ^ k)
unfolding set_flag weight
set_flag-add k byte flag btns h = ground (arith, bit_or-shift k btns 1 h)

flags11 :
    (r : Report)
    → (has (byte11 r) 0x10 ≡ r.a)
      × (has (byte11 r) 0x20 ≡ r.b)
      × (has (byte11 r) 0x40 ≡ r.select)
      × (has (byte11 r) 0x80 ≡ r.x)
unfolding byte11 bit weight
flags11 r =
    let n = nibble-lt r.direction in
    (
      has-bit 4 (byte11 r) ∙ ground (arith, n),
      has-bit 5 (byte11 r) ∙ ground (arith, n),
      has-bit 6 (byte11 r) ∙ ground (arith, n),
      has-bit 7 (byte11 r) ∙ ground (arith, n),
    )

flags12 :
    (r : Report)
    → (has (byte12 r) 0x01 ≡ r.y)
      × (has (byte12 r) 0x02 ≡ r.start)
      × (has (byte12 r) 0x04 ≡ r.lb)
      × (has (byte12 r) 0x08 ≡ r.rb)
      × (has (byte12 r) 0x40 ≡ r.l3)
      × (has (byte12 r) 0x80 ≡ r.r3)
unfolding byte12 bit weight
flags12 r = (
  has-bit 0 (byte12 r) ∙ ground arith,
  has-bit 1 (byte12 r) ∙ ground arith,
  has-bit 2 (byte12 r) ∙ ground arith,
  has-bit 3 (byte12 r) ∙ ground arith,
  has-bit 6 (byte12 r) ∙ ground arith,
  has-bit 7 (byte12 r) ∙ ground arith,
)

-- The accumulated word is the sum of its flags.
parse_buttons-sum :
    (b11 b12 : ℕ)
    → parse_buttons b11 b12
      ≡ weight (has b11 0x10) 1
        + weight (has b11 0x20) 2
        + weight (has b11 0x80) 4
        + weight (has b12 0x01) 8
        + weight (has b12 0x04) 16
        + weight (has b12 0x08) 32
        + weight (has b11 0x40) 64
        + weight (has b12 0x02) 128
        + weight (has b12 0x40) 512
        + weight (has b12 0x80) 1024
unfolding parse_buttons
parse_buttons-sum b11 b12 =
    let w1 = 0 + weight (has b11 0x10) 1 in
    let w2 = w1 + weight (has b11 0x20) 2 in
    let w3 = w2 + weight (has b11 0x80) 4 in
    let w4 = w3 + weight (has b12 0x01) 8 in
    let w5 = w4 + weight (has b12 0x04) 16 in
    let w6 = w5 + weight (has b12 0x08) 32 in
    let w7 = w6 + weight (has b11 0x40) 64 in
    let w8 = w7 + weight (has b12 0x02) 128 in
    let w9 = w8 + weight (has b12 0x40) 512 in
    rw
      (
        set_flag-add 0 b11 0x10 0 (omega (arith, weight-le)),
        set_flag-add 1 b11 0x20 w1 (omega (arith, weight-le)),
        set_flag-add 2 b11 0x80 w2 (omega (arith, weight-le)),
        set_flag-add 3 b12 0x01 w3 (omega (arith, weight-le)),
        set_flag-add 4 b12 0x04 w4 (omega (arith, weight-le)),
        set_flag-add 5 b12 0x08 w5 (omega (arith, weight-le)),
        set_flag-add 6 b11 0x40 w6 (omega (arith, weight-le)),
        set_flag-add 7 b12 0x02 w7 (omega (arith, weight-le)),
        set_flag-add 9 b12 0x40 w8 (omega (arith, weight-le)),
        set_flag-add 10 b12 0x80 w9 (omega (arith, weight-le)),
      )
      (omega arith)

pub buttons_roundtrip : (r : Report) → parse_buttons (byte11 r) (byte12 r) ≡ (state_of r).buttons
unfolding state_of
buttons_roundtrip r =
    let f = flags11 r in
    let g = flags12 r in
    parse_buttons-sum (byte11 r) (byte12 r) ∙ rw (f.0, f.1, f.2, f.3, g.0, g.1, g.2, g.3, g.4, g.5)
