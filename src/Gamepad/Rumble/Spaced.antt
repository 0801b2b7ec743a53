-- ===== src/Gamepad/Rumble/Spaced.antt =====
-- src/gamepad.cpp, `send_rumble`, and src/uinput.cpp, `poll_ff`: the packet, the rate limit, effects.
use flydigi_vader.Base.{
  ℕ, suc, zero, ◌+◌, ◌-◌, ◌%◌, ◌^◌, ◌<◌, ◌≤◌, ◌≡◌, refl, ap, ◌∙◌, true, List, [], ◌∷◌, ◌++◌, Option,
  none, some, arith, length, set, get_or,
}
use flydigi_vader.Base.Int.{pos, pos_part}
use flydigi_vader.Kernel.Codes
use flydigi_vader.Uinput.{Uinput, RumbleEffect}
use flydigi_vader.Hidraw.{Hidraw}
use flydigi_vader.Gamepad.{Gamepad}
use flydigi_vader.Gamepad.Rumble.{
  add_bytes, rumble_packet, rumble_min_interval, Message, Upload, upload, erase, force, other,
  silent, on_upload, on_erase, on_force, poll_ff_loop, uinput_poll_ff, send_rumble,
}

-- A rumble command as the controller checks it.
pub record IsRumble (left right : ℕ) (pkt : List ℕ) : Type 0 where
  pub size : length pkt ≡ 32
  pub strong : get_or pkt 4 0 ≡ left
  pub weak : get_or pkt 5 0 ≡ right
  pub sum : get_or pkt 8 0 ≡ (0x12 + 0x06 + left + right) % 2 ^ 8

-- A rumble packet has 32 bytes, carries the two magnitudes at indices 4 and 5, and its byte 8 is the
-- sum of the command, its length and the magnitudes in 8 bits.
pub rumble_packet-IsRumble : (left right : ℕ) → IsRumble left right (rumble_packet left right)
unfolding rumble_packet add_bytes
rumble_packet-IsRumble left right = record {
  size = refl;
  strong = refl;
  weak = refl;
  sum = omega arith;
}

module _ {F : Type 0} where
  -- Behind a rumble command that was not dropped, every command within 10 ms is dropped: it reports
  -- success and changes nothing, whatever it asks for.
  pub send_rumble-spaced :
      (now later l r l' r' : ℕ) (g : Gamepad F) (h : Hidraw)
      → rumble_min_interval ≤ now - g.last_rumble_time
      → later - now < rumble_min_interval
      → let s = (send_rumble now l r (g, h)).0 in send_rumble later l' r' s ≡ (s, true)
  unfolding send_rumble
  send_rumble-spaced now later l r l' r' g h first second = ground arith

length-set : {A : Type 0} (xs : List A) (i : ℕ) (v : A) → length (set xs i v) ≡ length xs
length-set [] i v = refl
length-set (x ∷ xs) zero v = refl
length-set (x ∷ xs) (suc i) v = ap suc (length-set xs i v)

get_or-set :
    {A : Type 0} (xs : List A) (i : ℕ) (v d : A) → i < length xs → get_or (set xs i v) i d ≡ v
get_or-set [] i v d h = absurd (omega arith)
get_or-set (x ∷ xs) zero v d h = refl
get_or-set (x ∷ xs) (suc i) v d h = get_or-set xs i v d (omega arith)

length-on_upload :
    (u : Option Upload) (effects : List RumbleEffect)
    → length (on_upload u effects) ≡ length effects
unfolding on_upload
length-on_upload none effects = refl
length-on_upload (some u) effects = ground (arith, length-set effects (pos_part u.id) u.magnitudes)

length-on_erase :
    (e : Option ℕ) (effects : List RumbleEffect) → length (on_erase e effects) ≡ length effects
unfolding on_erase
length-on_erase none effects = refl
length-on_erase (some id) effects = ground (arith, length-set effects id silent)

length-poll_ff_loop :
    (messages : List Message) (effects : List RumbleEffect) (result : Option RumbleEffect)
    → length (poll_ff_loop messages effects result).0 ≡ length effects
unfolding poll_ff_loop
length-poll_ff_loop [] effects result = refl
length-poll_ff_loop (upload u ∷ rest) effects result =
    length-poll_ff_loop rest (on_upload u effects) result ∙ length-on_upload u effects
length-poll_ff_loop (erase e ∷ rest) effects result =
    length-poll_ff_loop rest (on_erase e effects) result ∙ length-on_erase e effects
length-poll_ff_loop (force code value ∷ rest) effects result =
    length-poll_ff_loop rest effects (on_force code value effects result)
length-poll_ff_loop (other ∷ rest) effects result = length-poll_ff_loop rest effects result

poll_ff_loop-append :
    (ms ns : List Message) (effects : List RumbleEffect) (result : Option RumbleEffect)
    → poll_ff_loop (ms ++ ns) effects result
      ≡ (let r = poll_ff_loop ms effects result in poll_ff_loop ns r.0 r.1)
unfolding poll_ff_loop
poll_ff_loop-append [] ns effects result = refl
poll_ff_loop-append (upload u ∷ ms) ns effects result = poll_ff_loop-append ms ns _ _
poll_ff_loop-append (erase e ∷ ms) ns effects result = poll_ff_loop-append ms ns _ _
poll_ff_loop-append (force code value ∷ ms) ns effects result = poll_ff_loop-append ms ns _ _
poll_ff_loop-append (other ∷ ms) ns effects result = poll_ff_loop-append ms ns _ _

play_uploaded :
    (effects : List RumbleEffect) (result : Option RumbleEffect) (id times : ℕ) (e : RumbleEffect)
    → id < length effects
    → (poll_ff_loop
        (upload (some (record { type = Codes.ff_rumble; id = pos id; magnitudes = e }))
          ∷ force id (pos (suc times))
          ∷ [])
        effects
        result).1
      ≡ some e
unfolding poll_ff_loop on_upload on_force
play_uploaded effects result id times e h =
    ground (arith, length-set effects id e, get_or-set effects id e silent h)

-- Whatever the kernel said before, a rumble effect that is uploaded to a slot of the table and then
-- played is what `poll_ff` returns, with the magnitudes that were uploaded.
pub uinput_poll_ff-plays :
    (before : List Message) (u : Uinput) (id times : ℕ) (e : RumbleEffect)
    → id < length u.ff_effects
    → (uinput_poll_ff
        (before
          ++ upload (some (record { type = Codes.ff_rumble; id = pos id; magnitudes = e }))
            ∷ force id (pos (suc times))
            ∷ [])
        u).1
      ≡ some e
unfolding uinput_poll_ff
uinput_poll_ff-plays before u id times e h =
    ap (λ r. r.1) (poll_ff_loop-append before _ u.ff_effects none)
    ∙ play_uploaded (poll_ff_loop before u.ff_effects none).0
        (poll_ff_loop before u.ff_effects none).1 id times e
        (let same = length-poll_ff_loop before u.ff_effects none in omega arith)
