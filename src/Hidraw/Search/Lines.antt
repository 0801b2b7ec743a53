-- ===== src/Hidraw/Search/Lines.antt =====
-- The search for the device file, on the lines that the kernel writes.
use mathlib.Core.List.{append_assoc, append-nil}
use flydigi_vader.Base.{
  ℕ, suc, ◌+◌, ◌^◌, ◌<◌, ◌≡◌, refl, subst, ap, ◌∙◌, true, false, [], ◌∷◌, ◌++◌, some, if◌then◌else◌,
  ◌==◌, length, length-append, All, All-append, arith,
}
use flydigi_vader.Base.Int.{ℤ, pos, ltb_ℤ, ◌==ℤ◌}
use flydigi_vader.Base.Texts.{
  Text, codes, starts_with, find, rfind, substr, substr_from, Lacks, find-append, rfind-append,
  drop-length-append, take-length-append,
}
use flydigi_vader.Base.Numerals.{
  numeral, is_digit, digit_value, numeral-IsDigits, length-numeral, stoul_16-numeral, stoi-numeral,
}
use flydigi_vader.Hidraw.Search.{Matched, hex_at, on_id, on_phys, on_line}
use flydigi_vader.Hidraw.Search.Kernel.{Node, id_line, phys_line, IsNode}

-- A numeral has no character that is no digit.
numeral-Lacks :
    (base c : ℕ) (s : Text)
    → is_digit base c ≡ false
    → All (λ d. is_digit base d ≡ true) s
    → Lacks c s
numeral-Lacks base c [] other h = tt
numeral-Lacks base c (d ∷ s) other h =
    (ground (arith, other, h.0), numeral-Lacks base c s other h.1)

substr-middle : (a b c : Text) → substr (a ++ (b ++ c)) (length a) (length b) ≡ some b
unfolding substr
substr-middle a b c =
    rw (drop-length-append a (b ++ c), take-length-append b c)
      (ground (arith, length-append a (b ++ c)))

substr_from-end : (a b : Text) → substr_from (a ++ b) (length a) ≡ some b
unfolding substr_from
substr_from-end a b = rw (drop-length-append a b) (ground (arith, length-append a b))

hex_at-numeral :
    (a c line : Text) (v i : ℕ)
    → v < 16 ^ 8
    → line ≡ a ++ (numeral 16 8 v ++ c)
    → length a ≡ i
    → hex_at line i ≡ some v
unfolding hex_at
hex_at-numeral a c line v i fits e long =
    let cut : substr (a ++ (numeral 16 8 v ++ c)) (length a) 8 ≡ some (numeral 16 8 v) =
      subst (λ k. substr (a ++ (numeral 16 8 v ++ c)) (length a) k ≡ some (numeral 16 8 v))
        (length-numeral 16 8 v) (substr-middle a (numeral 16 8 v) c) in
    rw (e, ← long) (ground (arith, cut, stoul_16-numeral v fits))

module _ (n : Node) (well : IsNode n) where
  bus-Lacks : Lacks b':' (numeral 16 4 n.bus)
  unfolding digit_value
  bus-Lacks =
      numeral-Lacks 16 b':' (numeral 16 4 n.bus) refl
        (numeral-IsDigits 16 (omega arith) (omega arith) 4 n.bus)

  find-id_line : find b':' (id_line n) ≡ some 11
  unfolding id_line
  find-id_line =
      find-append b':' (codes "HID_ID=" ++ numeral 16 4 n.bus)
        (numeral 16 8 n.vendor ++ b':' ∷ numeral 16 8 n.product)
        (All-append _ (codes "HID_ID=") (numeral 16 4 n.bus)
          (refl, (refl, (refl, (refl, (refl, (refl, (refl, tt))))))) bus-Lacks)
      ∙ ap some (omega (arith, length-numeral 16 4 n.bus))

  -- Up to the second field, and up to the third.
  abbrev head : Text
  head = codes "HID_ID=" ++ (numeral 16 4 n.bus ++ b':' ∷ [])

  length-head : length head ≡ 12
  length-head =
      omega (arith, length-append (numeral 16 4 n.bus) (b':' ∷ []), length-numeral 16 4 n.bus)

  id_line-eq : id_line n ≡ head ++ (numeral 16 8 n.vendor ++ b':' ∷ numeral 16 8 n.product)
  unfolding id_line
  id_line-eq = simp append_assoc

  vendor_at : hex_at (id_line n) 12 ≡ some n.vendor
  vendor_at =
      hex_at-numeral head (b':' ∷ numeral 16 8 n.product) (id_line n) n.vendor 12 well.vendor_fits
        id_line-eq length-head

  product_at : hex_at (id_line n) 21 ≡ some n.product
  product_at =
      hex_at-numeral (head ++ (numeral 16 8 n.vendor ++ b':' ∷ [])) [] (id_line n) n.product 21
        well.product_fits (id_line-eq ∙ simp (append_assoc, append-nil))
        (omega (
          arith,
          length-head,
          length-append head (numeral 16 8 n.vendor ++ b':' ∷ []),
          length-append (numeral 16 8 n.vendor) (b':' ∷ []),
          length-numeral 16 8 n.vendor,
        ))

  id_line-starts :
      (starts_with (codes "HID_ID=") (id_line n) ≡ true)
      × (starts_with (codes "HID_PHYS=") (id_line n) ≡ false)
  unfolding id_line starts_with
  id_line-starts = (refl, refl)

  phys_line-starts :
      (starts_with (codes "HID_ID=") (phys_line n) ≡ false)
      × (starts_with (codes "HID_PHYS=") (phys_line n) ≡ true)
  unfolding phys_line starts_with
  phys_line-starts = (refl, refl)

  number-Lacks : Lacks b'/' (codes "input" ++ numeral 10 (suc n.digits) n.interface)
  unfolding digit_value
  number-Lacks =
      All-append _ (codes "input") (numeral 10 (suc n.digits) n.interface)
        (refl, (refl, (refl, (refl, (refl, tt)))))
        (numeral-Lacks 10 b'/' (numeral 10 (suc n.digits) n.interface) refl
          (numeral-IsDigits 10 (omega arith) (omega arith) (suc n.digits) n.interface))

  -- The path's place.
  abbrev at : ℕ
  at = length (codes "HID_PHYS=" ++ n.path)

  phys_line-eq :
      phys_line n
      ≡ (codes "HID_PHYS=" ++ n.path) ++ (codes "/input" ++ numeral 10 (suc n.digits) n.interface)
  unfolding phys_line
  phys_line-eq = simp append_assoc

  rfind-phys_line : rfind (codes "/input") (phys_line n) ≡ some at
  rfind-phys_line = rw phys_line-eq (
      rfind-append b'/' (codes "input") (codes "HID_PHYS=" ++ n.path)
        (numeral 10 (suc n.digits) n.interface) number-Lacks)

  number_at : substr_from (phys_line n) (at + 6) ≡ some (numeral 10 (suc n.digits) n.interface)
  number_at =
      let whole : phys_line n
          ≡ ((codes "HID_PHYS=" ++ n.path) ++ codes "/input")
            ++ numeral 10 (suc n.digits) n.interface =
        phys_line-eq ∙ simp append_assoc in
      rw (whole, ← length-append (codes "HID_PHYS=" ++ n.path) (codes "/input"))
        (substr_from-end ((codes "HID_PHYS=" ++ n.path) ++ codes "/input")
          (numeral 10 (suc n.digits) n.interface))

  module _ (vid pid : ℕ) (iface : ℤ) (m : Matched) where
    on_id-id_line :
        on_id vid pid iface (id_line n) m
        ≡ (record m { vid_match = n.vendor == vid; pid_match = n.product == pid }, false)
    unfolding on_id
    on_id-id_line = ground (arith, find-id_line, vendor_at, product_at)

    on_phys-phys_line :
        on_phys vid pid iface (phys_line n) m ≡ record m { iface_match = pos n.interface ==ℤ iface }
    unfolding on_phys
    on_phys-phys_line = ground (
      arith,
      rfind-phys_line,
      number_at,
      stoi-numeral n.digits n.interface well.digits_fit well.interface_fits,
    )

    pub on_line-id_line :
        on_line vid pid iface (id_line n) m
        ≡ record m { vid_match = n.vendor == vid; pid_match = n.product == pid }
    unfolding on_line
    on_line-id_line = rw (on_line, id_line-starts.0, id_line-starts.1, on_id-id_line) (ground arith)

    pub on_line-phys_line : on_line vid pid iface (phys_line n) m ≡ record m {
      iface_match = if ltb_ℤ iface (pos 0) then m.iface_match else pos n.interface ==ℤ iface;
    }
    unfolding on_line
    on_line-phys_line =
        rw (on_line, phys_line-starts.0, phys_line-starts.1, on_phys-phys_line) (ground arith)
