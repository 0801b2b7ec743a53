-- ===== src/Gamepad/Rumble.antt =====
-- src/gamepad.cpp, `send_rumble`, and src/uinput.cpp, `Uinput::poll_ff`: force feedback from the host.
pub mod Spaced
use flydigi_vader.Base.{
  ℕ, ◌+◌, ◌-◌, ◌/◌, ◌%◌, ◌^◌, Bool, true, false, ◌&&◌, List, [], ◌∷◌, Option, none, some,
  if◌then◌else◌, ltb, ◌==◌, length, set, get_or, take, drop,
}
use flydigi_vader.Base.Int.{ℤ, pos, ltb_ℤ, leb_ℤ, pos_part}
use flydigi_vader.Kernel.{InputEvent}
use flydigi_vader.Kernel.Codes
use flydigi_vader.Protocol.{magic_5a, magic_a5}
use flydigi_vader.Uinput.{Uinput, RumbleEffect}
use flydigi_vader.Hidraw.{Hidraw, packet, write}
use flydigi_vader.Gamepad.{Gamepad}

-- `RUMBLE_MIN_INTERVAL` in nanoseconds.
abbrev pub rumble_min_interval : ℕ
rumble_min_interval = 10_000_000

-- `checksum += pkt.at(i)` over these bytes, in 8 bits.
unfoldable pub add_bytes : ℕ → List ℕ → ℕ
add_bytes checksum [] = checksum
add_bytes checksum (b ∷ rest) = add_bytes ((checksum + b) % 2 ^ 8) rest

-- The packet of `send_rumble`: the checksum runs over the six bytes from index 2.
unfoldable pub rumble_packet : ℕ → ℕ → List ℕ
unfolding add_bytes
rumble_packet left right =
    let pkt = packet (magic_5a ∷ magic_a5 ∷ 0x12 ∷ 0x06 ∷ left ∷ right ∷ []) in
    set pkt 8 (add_bytes 0 (take 6 (drop 2 pkt)))

-- What the kernel tells through the descriptor: an event, and what `ioctl` answers to the request
-- that it may stand for (`none`: the request has failed).
pub record Upload : Type 0 where
  pub type : ℕ
  pub id : ℤ
  pub magnitudes : RumbleEffect

pub data Message : Type 0 where
  upload : Option Upload → Message
  erase : Option ℕ → Message
  force : ℕ → ℤ → Message
  other : Message

abbrev pub silent : RumbleEffect
silent = record { strong = 0; weak = 0 }

unfoldable pub on_upload : Option Upload → List RumbleEffect → List RumbleEffect
on_upload none effects = effects
on_upload (some u) effects =
    if (u.type == Codes.ff_rumble) && leb_ℤ (pos 0) u.id && ltb (pos_part u.id) (length effects)
    then set effects (pos_part u.id) u.magnitudes
    else effects

unfoldable pub on_erase : Option ℕ → List RumbleEffect → List RumbleEffect
on_erase none effects = effects
on_erase (some id) effects = if ltb id (length effects) then set effects id silent else effects

-- `if (ev.type == EV_FF && ev.code < ff_effects_.size()) result = ...;`
unfoldable pub on_force : ℕ → ℤ → List RumbleEffect → Option RumbleEffect → Option RumbleEffect
on_force code value effects result =
    if ltb code (length effects)
    then some (if ltb_ℤ (pos 0) value then get_or effects code silent else silent)
    else result

-- The loop of `Uinput::poll_ff`, until nothing is left to read.
unfoldable pub poll_ff_loop :
    List Message → List RumbleEffect → Option RumbleEffect → List RumbleEffect × Option RumbleEffect
poll_ff_loop [] effects result = (effects, result)
poll_ff_loop (upload u ∷ rest) effects result = poll_ff_loop rest (on_upload u effects) result
poll_ff_loop (erase e ∷ rest) effects result = poll_ff_loop rest (on_erase e effects) result
poll_ff_loop (force code value ∷ rest) effects result =
    poll_ff_loop rest effects (on_force code value effects result)
poll_ff_loop (other ∷ rest) effects result = poll_ff_loop rest effects result

unfoldable pub uinput_poll_ff : List Message → Uinput → Uinput × Option RumbleEffect
uinput_poll_ff messages u =
    let (effects, result) = poll_ff_loop messages u.ff_effects none in
    (record u { ff_effects = effects }, result)

module _ {F : Type 0} where
  -- `send_rumble`, with the clock's reading in nanoseconds, which does not run backwards. The second
  -- part is the Boolean that it returns.
  unfoldable pub send_rumble : ℕ → ℕ → ℕ → Gamepad F × Hidraw → (Gamepad F × Hidraw) × Bool
  unfolding rumble_packet
  send_rumble now left right (g, h) =
      let (h', ok) = write (rumble_packet left right) h in
      if ltb (now - g.last_rumble_time) rumble_min_interval
      then ((g, h), true)
      else ((record g { last_rumble_time = now }, h'), ok)

  unfoldable pub send_result : ℕ → Option RumbleEffect → Gamepad F × Hidraw → Gamepad F × Hidraw
  send_result now none s = s
  send_result now (some e) s =
      (send_rumble now ((e.strong / 2 ^ 8) % 2 ^ 8) ((e.weak / 2 ^ 8) % 2 ^ 8) s).0

  -- `Gamepad::poll_ff`
  unfoldable pub poll_ff : List Message → ℕ → Gamepad F × Hidraw → Gamepad F × Hidraw
  poll_ff messages now (g, h) =
      let (u, rumble) = uinput_poll_ff messages g.uinput in
      send_result now rumble (record g { uinput = u }, h)
