-- ===== src/Gamepad/Redundant/Sibling.antt =====
-- Which device `block_redundant_input` grabs, for a controller's path.
use flydigi_vader.Base.{
  ℕ, ◌≡◌, ◌≢◌, refl, ap, subst, ◌∙◌, true, false, ◌⊎◌, inl, inr, List, [], ◌∷◌, ◌++◌, Option, none,
  some, All, arith, Bool-cases, Option-cases, length,
}
use flydigi_vader.Base.Int.{pos, negsuc}
use flydigi_vader.Base.Texts.{
  Text, codes, same_text, same_text_iff, starts_with, starts_with-append, rfind, rfind-append,
  Lacks, take-length-append, drop-length-append,
}
use flydigi_vader.Handles.Calls.{close}
use flydigi_vader.Handles.UniqueFd
use flydigi_vader.Gamepad.Redundant.{
  InputEntry, find_input_device, Inputs, Blocked, grab_input, block_sibling, block_redundant_input,
}

-- An event device at this path.
abbrev pub StandsAt : Text → InputEntry → Type 0
StandsAt path e = (starts_with (codes "event") e.name ≡ true) × (e.phys ≡ some path)

abbrev pub StandsElsewhere : Text → InputEntry → Type 0
StandsElsewhere path e = (starts_with (codes "event") e.name ≡ false) ⊎ (e.phys ≢ some path)

-- The first event device at a path.
pub record IsFirst (path : Text) (entries : List InputEntry) (e : InputEntry) : Type 0 where
  pub before : List InputEntry
  pub after : List InputEntry
  pub split : entries ≡ before ++ e ∷ after
  pub none_before : All (StandsElsewhere path) before
  pub stands : StandsAt path e

abbrev pub node_path : InputEntry → Text
node_path e = codes "/dev/input/" ++ e.name

-- The ways in which the device at a path is grabbed. `left_open` is the descriptor that stays open.
pub data Outcome (k : Inputs) (path : Text) (entries : List InputEntry) : Blocked → Type 0 where
  absent : All (StandsElsewhere path) entries → Outcome k path entries (inr (negsuc 0), [])
  not_opened :
      (e : InputEntry) (errno : ℕ)
      → IsFirst path entries e
      → k.open_file (node_path e) ≡ inl errno
      → Outcome k path entries (inl errno, [])
  not_grabbed :
      (e : InputEntry) (fd errno : ℕ)
      → IsFirst path entries e
      → k.open_file (node_path e) ≡ inr fd
      → k.grab fd ≡ some errno
      → Outcome k path entries (inl errno, close fd ∷ [])
  grabbed :
      (e : InputEntry) (fd : ℕ)
      → IsFirst path entries e
      → k.open_file (node_path e) ≡ inr fd
      → k.grab fd ≡ none
      → Outcome k path entries (inr (pos fd), [])

-- What the search finds.
data Finds (path : Text) (entries : List InputEntry) : Option Text → Type 0 where
  nothing : All (StandsElsewhere path) entries → Finds path entries none
  node : (e : InputEntry) → IsFirst path entries e → Finds path entries (some (node_path e))

elsewhere :
    (path : Text) (e : InputEntry) (rest : List InputEntry) {o : Option Text}
    → StandsElsewhere path e
    → Finds path rest o
    → Finds path (e ∷ rest) o
elsewhere path e rest h (nothing hs) = nothing (h, hs)
elsewhere path e rest h (node d first) = node d (record {
  before = e ∷ first.before;
  after = first.after;
  split = ap (◌∷◌ e) first.split;
  none_before = (h, first.none_before);
  stands = first.stands;
})

-- The rounds of the search.
module _ (path : Text) (e : InputEntry) (rest : List InputEntry) where
  passes_by :
      StandsElsewhere path e → find_input_device path (e ∷ rest) ≡ find_input_device path rest
  unfolding find_input_device
  passes_by (inl h) = rw h refl
  passes_by (inr h) = elim (Option-cases e.phys) [
    | inl gone ↦ ground (arith, gone)
    | inr (p, there) ↦ ground (arith, there, (same_text_iff p path).0, h)
  ]

  stops : StandsAt path e → find_input_device path (e ∷ rest) ≡ some (node_path e)
  unfolding find_input_device
  stops (named, there) = ground (arith, named, there, (same_text_iff path path).1)

StandsAt-cases : (path : Text) (e : InputEntry) → StandsAt path e ⊎ StandsElsewhere path e
StandsAt-cases path e = elim (Bool-cases (starts_with (codes "event") e.name)) [
  | inr other ↦ inr (inl other)
  | inl named ↦ elim (Option-cases e.phys) [
    | inl gone ↦ inr (inr (λ h. cc (gone, h)))
    | inr (p, there) ↦ elim (Bool-cases (same_text p path)) [
      | inl same ↦ inl (named, there ∙ ap some ((same_text_iff p path).0 same))
      | inr differ ↦ inr (inr (λ h. ground (arith, there, differ, h, (same_text_iff p path).1)))
    ]
  ]
]

find_input_device-Finds :
    (path : Text) (entries : List InputEntry) → Finds path entries (find_input_device path entries)
unfolding find_input_device
find_input_device-Finds path [] = nothing tt
find_input_device-Finds path (e ∷ rest) = elim (StandsAt-cases path e) [
  | inl here ↦
      rw (stops path e rest here) (
        node e
          (record { before = []; after = rest; split = refl; none_before = tt; stands = here }))
  | inr other ↦
      rw (passes_by path e rest other)
        (elsewhere path e rest other (find_input_device-Finds path rest))
]

grab_input-Outcome :
    (k : Inputs) (path : Text) (entries : List InputEntry) (e : InputEntry) (r : ℕ ⊎ ℕ)
    → IsFirst path entries e
    → k.open_file (node_path e) ≡ r
    → Outcome k path entries (grab_input k r)
unfolding grab_input UniqueFd.destroy
grab_input-Outcome k path entries e (inl errno) first opened = not_opened e errno first opened
grab_input-Outcome k path entries e (inr fd) first opened = elim (Option-cases (k.grab fd)) [
  | inl ok ↦ rw (ok, grab_input) (grabbed e fd first opened ok)
  | inr (errno, failed) ↦
      subst (Outcome k path entries) (ground (arith, failed))
        (not_grabbed e fd errno first opened failed)
]

abbrev after_search : Inputs → Option Text → Blocked
after_search k none = (inr (negsuc 0), [])
after_search k (some p) = grab_input k (k.open_file p)

search-Outcome :
    (k : Inputs) (path : Text) (entries : List InputEntry) (o : Option Text)
    → Finds path entries o
    → Outcome k path entries (after_search k o)
search-Outcome k path entries none (nothing h) = absent h
search-Outcome k path entries (some _) (node e first) =
    grab_input-Outcome k path entries e _ first refl

-- For a controller whose own path ends in the number of its interface, the device that is grabbed is the
-- first event device at interface 0 of the same path: it is opened and grabbed, and its descriptor
-- returned; no descriptor where there is none; the errno where it cannot be opened or grabbed, and in
-- the second case its descriptor is closed again.
pub block_redundant_input-Outcome :
    (k : Inputs) (path number : Text) (entries : List InputEntry)
    → Lacks b'/' number
    → Outcome k
        (path ++ codes "/input0")
        entries
        (block_redundant_input k (inr (path ++ (codes "/input" ++ number))) entries)
unfolding block_redundant_input block_sibling
block_redundant_input-Outcome k path number entries h =
    let slash : rfind (codes "/") (path ++ (codes "/input" ++ number)) ≡ some (length path) =
      rfind-append b'/' [] path (codes "input" ++ number)
        (refl, (refl, (refl, (refl, (refl, h))))) in
    let whole : block_redundant_input k (inr (path ++ (codes "/input" ++ number))) entries
        ≡ after_search k (find_input_device (path ++ codes "/input0") entries) =
      ground (
        arith,
        slash,
        drop-length-append path (codes "/input" ++ number),
        take-length-append path (codes "/input" ++ number),
        starts_with-append (codes "/input") number,
      ) in
    rw whole
      (search-Outcome k (path ++ codes "/input0") entries _ (find_input_device-Finds _ entries))
