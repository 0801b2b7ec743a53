-- ===== src/Protocol/Bounds.antt =====
-- include/vader5/protocol.hpp: every read is within the packet, and every decoded field is in the
-- range of its C++ type.
use flydigi_vader.Base.{
  ℕ, zero, suc, ◌+◌, ◌<◌, ◌≤◌, ◌^◌, ◌≡◌, ◌∙◌, ◌↔◌, subst, List, [], ◌∷◌, some, Bool-cases, inl, inr,
  length, get_or, get_or-irrelevant, All, arith, bit_and, leb, ltb,
}
use flydigi_vader.Base.Bits.{bit_and-le, bit_or-shift, bit_or-bounds}
use flydigi_vader.Base.Int.{ℤ, IsInt16, signed16}
use flydigi_vader.Types.{GamepadState}
use flydigi_vader.Protocol.{
  read_s16, parse_dpad, parse_base, parse_motion, decode, parse, parse_buttons, flip_y, dpad_map,
  set_flag,
}

module _ (stray other : ℕ) (packet : List ℕ) where
  same_byte : (at : ℕ) → at < length packet → get_or packet at stray ≡ get_or packet at other
  same_byte at h = get_or-irrelevant packet at stray other h

  same_word :
      (at : ℕ) → at + 1 < length packet → read_s16 stray packet at ≡ read_s16 other packet at
  unfolding read_s16
  same_word at h = cc (same_byte at (omega arith), same_byte (at + 1) h)

  same_dpad : (b11 : ℕ) → parse_dpad stray b11 ≡ parse_dpad other b11
  unfolding parse_dpad
  same_dpad b11 =
      get_or-irrelevant dpad_map (bit_and b11 0x0f) stray other (omega (arith, bit_and-le b11 0x0f))

  same_base : 17 ≤ length packet → parse_base stray packet ≡ parse_base other packet
  unfolding parse_base
  same_base h = cc (
    same_byte 11 (omega arith),
    same_byte 12 (omega arith),
    same_byte 13 (omega arith),
    same_byte 14 (omega arith),
    same_byte 15 (omega arith),
    same_byte 16 (omega arith),
    same_word 3 (omega arith),
    same_word 5 (omega arith),
    same_word 7 (omega arith),
    same_word 9 (omega arith),
    same_dpad (get_or packet 11 other),
  )

  same_motion :
      (s : GamepadState)
      → 29 ≤ length packet
      → parse_motion stray packet s ≡ parse_motion other packet s
  unfolding parse_motion
  same_motion s h = cc (
    same_word 17 (omega arith),
    same_word 19 (omega arith),
    same_word 21 (omega arith),
    same_word 23 (omega arith),
    same_word 25 (omega arith),
    same_word 27 (omega arith),
  )

  same_decode : 17 ≤ length packet → decode stray packet ≡ decode other packet
  unfolding decode
  same_decode h = ground (arith, same_base h, same_motion (parse_base other packet))

  -- The decoder accepts, rejects and fills its fields without a read past the packet: its result
  -- is the same whatever such a read would yield.
  pub parse_in_bounds : parse stray packet ≡ parse other packet
  unfolding parse
  parse_in_bounds = elim (Bool-cases (ltb (length packet) 17)) [
    | inl short ↦ rw short
    | inr long ↦ ground (arith, same_byte 0, same_byte 1, same_byte 2, same_decode (ground arith))
  ]

pub record IsInRange (s : GamepadState) : Type 0 where
  pub left_x : IsInt16 s.left_x
  pub left_y : IsInt16 s.left_y
  pub right_x : IsInt16 s.right_x
  pub right_y : IsInt16 s.right_y
  pub left_trigger : s.left_trigger < 256
  pub right_trigger : s.right_trigger < 256
  pub buttons : s.buttons < 2 ^ 16
  pub dpad : s.dpad ≤ 8
  pub ext_buttons : s.ext_buttons < 256
  pub ext_buttons2 : s.ext_buttons2 < 256
  pub gyro_x : IsInt16 s.gyro_x
  pub gyro_y : IsInt16 s.gyro_y
  pub gyro_z : IsInt16 s.gyro_z
  pub accel_x : IsInt16 s.accel_x
  pub accel_y : IsInt16 s.accel_y
  pub accel_z : IsInt16 s.accel_z

abbrev pub IsByte : ℕ → Type 0
IsByte b = b < 256

get_or-IsByte :
    (packet : List ℕ) (at stray : ℕ)
    → All IsByte packet
    → IsByte stray
    → IsByte (get_or packet at stray)
get_or-IsByte [] at stray h d = d
get_or-IsByte (b ∷ packet) zero stray h d = h.0
get_or-IsByte (b ∷ packet) (suc at) stray h d = get_or-IsByte packet at stray h.1 d

signed16-IsInt16 : (w : ℕ) → w < 65536 → IsInt16 (signed16 w)
signed16-IsInt16 w h = ground arith

flip_y-IsInt16 : (y : ℤ) → IsInt16 y → IsInt16 (flip_y y)
flip_y-IsInt16 y h = ground arith

set_flag-lt :
    (byte flag mask btns : ℕ)
    → mask < 2 ^ 16
    → btns < 2 ^ 16
    → set_flag byte flag mask btns < 2 ^ 16
unfolding set_flag
set_flag-lt byte flag mask btns hm hb = ground (arith, bit_or-bounds 16 btns mask hb hm)

parse_buttons-lt : (b11 b12 : ℕ) → parse_buttons b11 b12 < 2 ^ 16
unfolding parse_buttons
parse_buttons-lt b11 b12 = set_flag-lt _ _ _ _ (omega arith) (
    set_flag-lt _ _ _ _ (omega arith) (
      set_flag-lt _ _ _ _ (omega arith) (
        set_flag-lt _ _ _ _ (omega arith) (
          set_flag-lt _ _ _ _ (omega arith) (
            set_flag-lt _ _ _ _ (omega arith) (
              set_flag-lt _ _ _ _ (omega arith) (
                set_flag-lt _ _ _ _ (omega arith) (
                  set_flag-lt _ _ _ _ (omega arith)
                    (set_flag-lt _ _ _ _ (omega arith) (omega arith))))))))))

get_or-le : (n : ℕ) (xs : List ℕ) (i : ℕ) → All (λ x. x ≤ n) xs → get_or xs i 0 ≤ n
get_or-le n [] i h = omega arith
get_or-le n (x ∷ xs) zero h = h.0
get_or-le n (x ∷ xs) (suc i) h = get_or-le n xs i h.1

dpad-le : (b11 : ℕ) → parse_dpad 0 b11 ≤ 8
unfolding parse_dpad
dpad-le b11 = get_or-le 8 dpad_map (bit_and b11 0x0f) (omega arith)

module _ (packet : List ℕ) (bytes : All IsByte packet) where
  byte_lt : (at : ℕ) → get_or packet at 0 < 256
  byte_lt at = get_or-IsByte packet at 0 bytes (omega arith)

  read_s16-IsInt16 : (at : ℕ) → IsInt16 (read_s16 0 packet at)
  unfolding read_s16
  read_s16-IsInt16 at = signed16-IsInt16 _ (
      omega (
        arith,
        byte_lt at,
        byte_lt (at + 1),
        bit_or-shift 8 (get_or packet at 0) (get_or packet (at + 1) 0) (byte_lt at),
      ))

  parse_base-IsInRange : IsInRange (parse_base 0 packet)
  unfolding parse_base
  parse_base-IsInRange = record {
    left_x = read_s16-IsInt16 3;
    left_y = flip_y-IsInt16 _ (read_s16-IsInt16 5);
    right_x = read_s16-IsInt16 7;
    right_y = flip_y-IsInt16 _ (read_s16-IsInt16 9);
    left_trigger = byte_lt 15;
    right_trigger = byte_lt 16;
    buttons = parse_buttons-lt _ _;
    dpad = dpad-le _;
    ext_buttons = byte_lt 13;
    ext_buttons2 = byte_lt 14;
    gyro_x = omega arith;
    gyro_y = omega arith;
    gyro_z = omega arith;
    accel_x = omega arith;
    accel_y = omega arith;
    accel_z = omega arith;
  }

  parse_motion-IsInRange : (s : GamepadState) → IsInRange s → IsInRange (parse_motion 0 packet s)
  unfolding parse_motion
  parse_motion-IsInRange s r = record {
    left_x = r.left_x;
    left_y = r.left_y;
    right_x = r.right_x;
    right_y = r.right_y;
    left_trigger = r.left_trigger;
    right_trigger = r.right_trigger;
    buttons = r.buttons;
    dpad = r.dpad;
    ext_buttons = r.ext_buttons;
    ext_buttons2 = r.ext_buttons2;
    gyro_x = read_s16-IsInt16 17;
    gyro_y = read_s16-IsInt16 19;
    gyro_z = read_s16-IsInt16 21;
    accel_x = read_s16-IsInt16 23;
    accel_y = read_s16-IsInt16 25;
    accel_z = read_s16-IsInt16 27;
  }

  decode-IsInRange : IsInRange (decode 0 packet)
  unfolding decode
  decode-IsInRange = elim (Bool-cases (leb 29 (length packet))) [
    | inl full ↦ rw full (parse_motion-IsInRange _ parse_base-IsInRange)
    | inr short ↦ rw short parse_base-IsInRange
  ]

parse_decodes :
    (stray : ℕ) (packet : List ℕ) (s : GamepadState)
    → parse stray packet ≡ some s
    → decode stray packet ≡ s
unfolding parse
parse_decodes stray packet s h = ground arith

-- Whatever bytes arrive, a decoded state has every field in the range of its C++ type; the stick
-- and motion fields are 16-bit, and the d-pad is one of the nine directions.
pub parse-IsInRange :
    (stray : ℕ) (packet : List ℕ) (s : GamepadState)
    → All IsByte packet
    → parse stray packet ≡ some s
    → IsInRange s
parse-IsInRange stray packet s bytes h =
    subst IsInRange (parse_decodes 0 packet s (parse_in_bounds 0 stray packet ∙ h))
      (decode-IsInRange packet bytes)

-- The decoder accepts exactly the packets of at least 17 bytes that start with the magic bytes.
pub parse_accepts :
    (stray : ℕ) (packet : List ℕ)
    → ((s : GamepadState) × (parse stray packet ≡ some s)) ↔ (
        (17 ≤ length packet)
        × (get_or packet 0 0 ≡ 0x5a)
        × (get_or packet 1 0 ≡ 0xa5)
        × (get_or packet 2 0 ≡ 0xef))
unfolding parse
parse_accepts stray packet = (
  λ found. ground (
    arith,
    found.1,
    same_byte stray 0 packet 0,
    same_byte stray 0 packet 1,
    same_byte stray 0 packet 2,
  ),
  λ h. (
    decode stray packet,
    ground
        (arith, same_byte stray 0 packet 0, same_byte stray 0 packet 1, same_byte stray 0 packet 2),
  ),
)
