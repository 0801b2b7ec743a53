-- ===== src/Witness/Reports.antt =====
-- The theorems on the decoders of the other programs, at a report of each kind.
use flydigi_vader.Base.{ℕ, ◌≡◌, ◌≢◌, refl, arith, true, false, has, get_or, List, [], ◌∷◌}
use flydigi_vader.Base.Int.{pos, negsuc}
use flydigi_vader.Types.{zero_state}
use flydigi_vader.Protocol.{decode, read_s16}
use flydigi_vader.Driver.{flydigi_parse, hat_x, hat_y, le16}
use flydigi_vader.Hidraw.Report.{parse_report_24g}
use flydigi_vader.Hidraw.Report.Agree.{driver_events, flydigi_parse-agrees}
use flydigi_vader.Debug.{Globals, parse_ext_report}
use flydigi_vader.Debug.Same.{shown, parse_ext_report-agrees}
use flydigi_vader.Witness.Decode.{are_bytes, are_bytes-All}

-- Up, START, A, half of the left trigger, the left stick down.
abbrev packet_24g : List ℕ
packet_24g =
    0 ∷ 0x14 ∷ 0x11 ∷ 0x10 ∷ 128 ∷ 0 ∷ 0 ∷ 0 ∷ 0xff ∷ 0x7f ∷ 0 ∷ 0 ∷ 0 ∷ 0 ∷ 0 ∷ 0 ∷ 0 ∷ 0 ∷ 0 ∷ 0
    ∷ []

packet_24g-are_bytes : are_bytes packet_24g ≡ true
unfolding are_bytes
packet_24g-are_bytes = refl

left_y-whole : le16 0 packet_24g 8 ≢ negsuc 32767
unfolding le16
left_y-whole e = cc e

right_y-whole : le16 0 packet_24g 12 ≢ negsuc 32767
unfolding le16
right_y-whole e = cc e

flydigi_parse-agrees_example :
    flydigi_parse 0 packet_24g
    ≡ driver_events
        (hat_x (get_or packet_24g 2 0))
        (hat_y (get_or packet_24g 2 0))
        (has (get_or packet_24g 3 0) 0x04)
        (parse_report_24g 0 packet_24g)
flydigi_parse-agrees_example =
    flydigi_parse-agrees 0 packet_24g (are_bytes-All packet_24g packet_24g-are_bytes) refl
      left_y-whole right_y-whole

-- A full extended report: A pressed, the sticks and the gyro moved.
abbrev report_buffer : List ℕ
report_buffer =
    0x5a ∷ 0xa5 ∷ 0xef ∷ 1 ∷ 0 ∷ 2 ∷ 0 ∷ 3 ∷ 0 ∷ 4 ∷ 0 ∷ 0x10 ∷ 0 ∷ 0 ∷ 0 ∷ 9 ∷ 8 ∷ 5 ∷ 0 ∷ 6 ∷ 0
    ∷ 7 ∷ 0 ∷ 1 ∷ 0 ∷ 2 ∷ 0 ∷ 3 ∷ 0 ∷ 0 ∷ 0 ∷ 0 ∷ []

abbrev globals : Globals
globals = record {
  g_running = true;
  g_state = zero_state;
  g_test_mode = true;
  g_test_mode_changed = false;
  g_ext_buttons = 0;
  g_ext_buttons2 = 0;
  g_logs = [];
  g_imu = record {
    gyro_x = pos 0;
    gyro_y = pos 0;
    gyro_z = pos 0;
    accel_x = pos 0;
    accel_y = pos 0;
    accel_z = pos 0;
  };
}

buffer_left-whole : read_s16 0 report_buffer 5 ≢ negsuc 32767
unfolding read_s16
buffer_left-whole e = cc e

buffer_right-whole : read_s16 0 report_buffer 9 ≢ negsuc 32767
unfolding read_s16
buffer_right-whole e = cc e

parse_ext_report-agrees_example :
    shown (parse_ext_report 0 report_buffer globals) ≡ decode 0 report_buffer
parse_ext_report-agrees_example =
    parse_ext_report-agrees 0 report_buffer globals (omega arith) buffer_left-whole
      buffer_right-whole
