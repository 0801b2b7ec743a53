-- ===== src/Hidraw/Search/Found.antt =====
-- The search for the device file, in a directory of USB devices.
use flydigi_vader.Base.{
  ℕ, ◌≡◌, refl, ap, ◌∙◌, false, inl, inr, List, [], ◌∷◌, ◌++◌, map, if◌then◌else◌, ◌==◌, All, arith,
  Bool-cases,
}
use flydigi_vader.Base.Int.{ℤ, pos, ltb_ℤ, ◌==ℤ◌}
use flydigi_vader.Base.Texts.{Text}
use flydigi_vader.Hidraw.Search.Lines.{on_line-id_line, on_line-phys_line}
use flydigi_vader.Hidraw.Search.{Matched, on_line, on_lines, is_device, find_hidraw_device}
use flydigi_vader.Hidraw.Search.Kernel.{
  Node, id_line, phys_line, uevent_lines, entry_of, IsOther, IsNode, is_wanted, first_wanted,
  path_of,
}

module _ (vid pid : ℕ) (iface : ℤ) where
  on_lines-append :
      (ls ks : List Text) (m : Matched)
      → on_lines vid pid iface (ls ++ ks) m
        ≡ on_lines vid pid iface ks (on_lines vid pid iface ls m)
  unfolding on_lines
  on_lines-append [] ks m = refl
  on_lines-append (l ∷ ls) ks m = on_lines-append ls ks (on_line vid pid iface l m)

  on_line_other : (l : Text) (m : Matched) → IsOther l → on_line vid pid iface l m ≡ m
  unfolding on_line
  on_line_other l m (no_id, no_phys) = rw (on_line, no_id, no_phys) (ground arith)

  on_lines_others :
      (ls : List Text) (m : Matched) → All IsOther ls → on_lines vid pid iface ls m ≡ m
  unfolding on_lines
  on_lines_others [] m h = refl
  on_lines_others (l ∷ ls) m h = rw (on_line_other l m h.0) (on_lines_others ls m h.1)

  on_lines-split :
      (ls : List Text) (l : Text) (ks : List Text) (m m' : Matched)
      → All IsOther ls
      → on_line vid pid iface l m ≡ m'
      → on_lines vid pid iface (ls ++ l ∷ ks) m ≡ on_lines vid pid iface ks m'
  unfolding on_lines
  on_lines-split ls l ks m m' h e =
      on_lines-append ls (l ∷ ks) m
      ∙ rw (on_lines_others ls m h) (ap (λ k. on_lines vid pid iface ks k) e)

  -- Behind the line of the identifiers.
  abbrev seen : Node → Matched → Matched
  seen n m = record m { vid_match = n.vendor == vid; pid_match = n.product == pid }

  -- The lines of a device leave whether its numbers are those asked for.
  on_lines-uevent :
      (n : Node) (m : Matched)
      → IsNode n
      → on_lines vid pid iface (uevent_lines n) m ≡ record {
        vid_match = n.vendor == vid;
        pid_match = n.product == pid;
        iface_match = if ltb_ℤ iface (pos 0) then m.iface_match else pos n.interface ==ℤ iface;
      }
  unfolding uevent_lines
  on_lines-uevent n m well =
      on_lines-split n.before (id_line n) (n.between ++ phys_line n ∷ n.after) m (seen n m)
        well.before_other (on_line-id_line n well vid pid iface m)
      ∙ on_lines-split n.between (phys_line n) n.after (seen n m) _ well.between_other
          (on_line-phys_line n well vid pid iface (seen n m))
      ∙ on_lines_others n.after _ well.after_other

  is_device-entry :
      (n : Node) → IsNode n → is_device vid pid iface (entry_of n) ≡ is_wanted vid pid iface n
  unfolding is_device entry_of
  is_device-entry n well = ground (
    arith,
    on_lines-uevent n
        (record { vid_match = false; pid_match = false; iface_match = ltb_ℤ iface (pos 0) }) well,
  )

  -- In a directory of USB devices, each with a HID_ID line and behind it a HID_PHYS line that ends
  -- in /input and the number of its interface, the search finds the first readable device with the
  -- vendor, the product and (unless the number is negative) the interface that are asked for,
  -- wherever their lines stand among the others, and fails with ENODEV where there is none.
  pub find_hidraw_device-first :
      (nodes : List Node)
      → All IsNode nodes
      → find_hidraw_device vid pid iface (map entry_of nodes)
        ≡ path_of (first_wanted vid pid iface nodes)
  unfolding find_hidraw_device first_wanted entry_of
  find_hidraw_device-first [] h = refl
  find_hidraw_device-first (n ∷ rest) h = elim (Bool-cases (is_wanted vid pid iface n)) [
    | inl e ↦ rw (is_device-entry n h.0, e) refl
    | inr e ↦ rw (is_device-entry n h.0, e) (find_hidraw_device-first rest h.1)
  ]
