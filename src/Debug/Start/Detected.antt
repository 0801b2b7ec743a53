-- ===== src/Debug/Start/Detected.antt =====
-- Which interface the debug tool detects.
use flydigi_vader.Base.{
  ℕ, zero, suc, ◌≡◌, refl, Bool, true, false, ◌&&◌, ◌||◌, ◌⊎◌, inl, inr, List, [], ◌∷◌, Option,
  none, some, if◌then◌else◌, ◌==◌, length, get_or, take, arith,
}
use flydigi_vader.Base.Int.{ℤ, pos}
use flydigi_vader.Hidraw.{ReadResult, read_failed, read_bytes, read_next, zeros}
use flydigi_vader.Debug.{filled}
use flydigi_vader.Debug.Start.{detects, detect, find_among, find_input_interface}

-- A report of the controller: 20 bytes, the second of which is 0x14.
abbrev pub is_report : ReadResult → Bool
is_report (read_failed errno) = false
is_report (read_bytes bytes) = length bytes == 20 && (get_or bytes 1 0 == 0x14)

abbrev pub any_report : List ReadResult → Bool
any_report [] = false
any_report (r ∷ rest) = is_report r || any_report rest

-- What opening an interface yields has a report among the first reads.
abbrev pub answers : ℕ → ℕ ⊎ List ReadResult → Bool
answers n (inl errno) = false
answers n (inr reads) = any_report (take n reads)

abbrev pub first_answering : (ℤ → ℕ ⊎ List ReadResult) → List ℤ → Option ℤ
first_answering open_iface [] = none
first_answering open_iface (i ∷ rest) =
    if answers 50 (open_iface i) then some i else first_answering open_iface rest

-- The bytes of an earlier read are not seen again.
second-filled :
    (bytes buf : List ℕ) → length bytes ≡ 20 → get_or (filled bytes buf) 1 0 ≡ get_or bytes 1 0
second-filled [] buf h = absurd (omega arith)
second-filled (a ∷ []) buf h = absurd (omega arith)
second-filled (a ∷ b ∷ rest) buf h = refl

detects-is_report : (r : ReadResult) (buf : List ℕ) → (detects r buf).1 ≡ is_report r
unfolding detects
detects-is_report (read_failed errno) buf = refl
detects-is_report (read_bytes bytes) buf = ground (arith, second-filled bytes buf)

-- Without more bytes nothing is found.
detect_none : (n : ℕ) (buf : List ℕ) → detect n buf [] ≡ false
unfolding detect read_next detects
detect_none zero buf = refl
detect_none (suc n) buf = rw (detect_none n buf) refl

detect-any_report :
    (n : ℕ) (buf : List ℕ) (reads : List ReadResult)
    → detect n buf reads ≡ any_report (take n reads)
unfolding detect read_next
detect-any_report zero buf reads = refl
detect-any_report (suc n) buf [] = detect_none (suc n) buf
detect-any_report (suc n) buf (r ∷ rest) =
    ground (arith, detects-is_report r buf, detect-any_report n (detects r buf).0 rest)

-- A round of the loop over the interfaces.
find-round :
    (n : ℕ) (buf : List ℕ) (i : ℤ) (o : ℕ ⊎ List ReadResult) (later later' : Option ℤ)
    → later ≡ later'
    → elim o [
      | inl errno ↦ later
      | inr reads ↦ elim (detect n buf reads) [ true ↦ some i | false ↦ later ]
    ]
      ≡ (if answers n o then some i else later')
find-round n buf i (inl errno) later later' e = e
find-round n buf i (inr reads) later later' e = ground (arith, e, detect-any_report n buf reads)

find_among-first :
    (open_iface : ℤ → ℕ ⊎ List ReadResult) (ifaces : List ℤ)
    → find_among open_iface ifaces ≡ first_answering open_iface ifaces
unfolding find_among
find_among-first open_iface [] = refl
find_among-first open_iface (i ∷ rest) =
    find-round 50 (zeros 32) i (open_iface i) _ _ (find_among-first open_iface rest)

-- The interface that is detected is the first of 0, 2 and 3 that can be opened and of which one of the
-- first 50 reads, by itself, is a report of the controller; where there is none, none is detected.
pub find_input_interface-first :
    (open_iface : ℤ → ℕ ⊎ List ReadResult)
    → find_input_interface open_iface ≡ first_answering open_iface (pos 0 ∷ pos 2 ∷ pos 3 ∷ [])
unfolding find_input_interface
find_input_interface-first open_iface = find_among-first open_iface (pos 0 ∷ pos 2 ∷ pos 3 ∷ [])
