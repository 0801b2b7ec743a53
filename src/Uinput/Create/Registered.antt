-- ===== src/Uinput/Create/Registered.antt =====
-- src/uinput.cpp, `Uinput::create`: the codes that it announces, beside the controls of
-- `emit`.
use flydigi_vader.Base.{
  ℕ, zero, suc, ◌<◌, ◌≡◌, refl, ap, ◌∙◌, Bool, true, false, ◌||◌, ◌&&◌, List, [], ◌∷◌, ◌++◌, Option,
  none, some, Option-cases, inl, inr, arith, get_or, All, All-append, ==_iff, take,
}
use flydigi_vader.Base.Int.{ℤ, pos, IsInt16}
use flydigi_vader.Kernel.Codes
use flydigi_vader.Kernel.Setup.{
  Request, sets_key, sets_abs, covers, asks, asks-append, set_keys, set_keybit, before_create,
  sets_ev,
}
use flydigi_vader.Types.{GamepadState}
use flydigi_vader.Kernel.{WriteResult}
use flydigi_vader.Uinput.{ext_code, default_ext_codes}
use flydigi_vader.Uinput.Diff.{
  Control, axis, key, controls, axes, buttons, ext_buttons, ext2_buttons, hat,
}
use flydigi_vader.Uinput.Create.{mapped_keys, fixed_keys, axes_and_id, requests, new_uinput, copies}
use flydigi_vader.Protocol.Bounds.{IsInRange}

-- A key is announced with its type and by its code, an axis with its type, by its code and with a range
-- that no decoded report leaves.
abbrev pub Announced : List Request → Control → Type 0
Announced rs (key code reading) =
    (asks (sets_ev Codes.ev_key) rs ≡ true) × (asks (sets_key code) rs ≡ true)
Announced rs (axis code reading) =
    (asks (sets_ev Codes.ev_abs) rs ≡ true)
    × (asks (sets_abs code) rs ≡ true)
    × ((s : GamepadState) → IsInRange s → asks (covers code (reading s) (reading s)) rs ≡ true)

get_or-take :
    (m : List (Option ℕ)) (n idx : ℕ) → idx < n → get_or (take n m) idx none ≡ get_or m idx none
get_or-take m zero idx h = absurd (omega arith)
get_or-take [] (suc n) idx h = refl
get_or-take (o ∷ m) (suc n) zero h = refl
get_or-take (o ∷ m) (suc n) (suc idx) h = get_or-take m n idx (omega arith)

get_or-copies : {A : Type 0} (x : A) (n idx : ℕ) → get_or (copies n x) idx x ≡ x
unfolding copies
get_or-copies x zero idx = refl
get_or-copies x (suc n) zero = refl
get_or-copies x (suc n) (suc idx) = get_or-copies x n idx

get_or-padded :
    (m : List (Option ℕ)) (n idx : ℕ) → get_or (m ++ copies n none) idx none ≡ get_or m idx none
get_or-padded [] n idx = get_or-copies none n idx
get_or-padded (o ∷ m) n zero = refl
get_or-padded (o ∷ m) n (suc idx) = get_or-padded m n idx

-- The constructor keeps the first eight mappings.
mapping-kept :
    (script : List WriteResult) (m : List (Option ℕ)) (idx : ℕ)
    → idx < 8
    → get_or (new_uinput script m).ext_mappings idx none ≡ get_or m idx none
unfolding new_uinput
mapping-kept script m idx h = get_or-take (m ++ copies 8 none) 8 idx h ∙ get_or-padded m 8 idx

asks-mapped :
    (m : List (Option ℕ)) (idx code : ℕ)
    → get_or m idx none ≡ some code
    → asks (sets_key code) (mapped_keys m) ≡ true
unfolding asks mapped_keys
asks-mapped [] idx code e = cc e
asks-mapped (none ∷ m) zero code e = cc e
asks-mapped (some c ∷ m) zero code e = let same : c ≡ code = cc e in ground (arith, ==_iff c code)
asks-mapped (none ∷ m) (suc idx) code e = asks-mapped m idx code e
asks-mapped (some c ∷ m) (suc idx) code e = ground (arith, asks-mapped m idx code e)

asks-three :
    (p : Request → Bool) (xs ys zs : List Request)
    → asks p (xs ++ ys ++ zs) ≡ ((asks p xs || asks p ys) || asks p zs)
asks-three p xs ys zs = asks-append p (xs ++ ys) zs ∙ ap (λ b. b || asks p zs) (asks-append p xs ys)

before_create-mapped :
    (m : List (Option ℕ)) (rest : List Request)
    → before_create (mapped_keys m ++ rest) ≡ mapped_keys m ++ before_create rest
unfolding mapped_keys before_create
before_create-mapped [] rest = refl
before_create-mapped (none ∷ m) rest = before_create-mapped m rest
before_create-mapped (some c ∷ m) rest = ap (◌∷◌ (set_keybit c)) (before_create-mapped m rest)

module _ (m : List (Option ℕ)) (elite : Bool) where
  -- What the device is made with.
  abbrev made : List Request
  made = before_create (requests m elite)

  last_part : List Request
  last_part = before_create (axes_and_id elite)

  before_create-requests : made ≡ fixed_keys ++ mapped_keys m ++ last_part
  unfolding requests fixed_keys set_keys before_create last_part
  before_create-requests = ap (◌++◌ fixed_keys) (before_create-mapped m (axes_and_id elite))

  asks-requests :
      (p : Request → Bool)
      → asks p made ≡ ((asks p fixed_keys || asks p (mapped_keys m)) || asks p last_part)
  asks-requests p =
      ap (asks p) before_create-requests ∙ asks-three p fixed_keys (mapped_keys m) last_part

  -- What one of the three parts asks for, all of them do.
  asks-fixed : (p : Request → Bool) → asks p fixed_keys ≡ true → asks p made ≡ true
  asks-fixed p e = ground (arith, asks-requests p)

  asks-middle : (p : Request → Bool) → asks p (mapped_keys m) ≡ true → asks p made ≡ true
  asks-middle p e = ground (arith, asks-requests p)

  asks-rest : (p : Request → Bool) → asks p last_part ≡ true → asks p made ≡ true
  asks-rest p e = ground (arith, asks-requests p)

  -- A mapped extended button by its configured code, another by its default code.
  ext-Announced :
      (script : List WriteResult) (idx : ℕ)
      → idx < 8
      → asks (sets_key (get_or default_ext_codes idx 0)) fixed_keys ≡ true
      → asks (sets_key (ext_code (new_uinput script m).ext_mappings idx)) made ≡ true
  unfolding ext_code
  ext-Announced script idx h fixed = elim (Option-cases (get_or m idx none)) [
    | inl e ↦ rw (mapping-kept script m idx h, e) (asks-fixed _ fixed)
    | inr (code, e) ↦ rw (mapping-kept script m idx h, e) (asks-middle _ (asks-mapped m idx code e))
  ]

  ev_key-Announced : asks (sets_ev Codes.ev_key) made ≡ true
  unfolding asks fixed_keys
  ev_key-Announced = asks-fixed (sets_ev Codes.ev_key) refl

  ev_abs-Announced : asks (sets_ev Codes.ev_abs) made ≡ true
  unfolding asks fixed_keys
  ev_abs-Announced = asks-fixed (sets_ev Codes.ev_abs) refl

  stick-Announced :
      (reading : GamepadState → ℤ)
      → ((s : GamepadState) → IsInRange s → IsInt16 (reading s))
      → Announced made (axis Codes.abs_x reading)
        × Announced made (axis Codes.abs_y reading)
        × Announced made (axis Codes.abs_rx reading)
        × Announced made (axis Codes.abs_ry reading)
  unfolding axes_and_id asks before_create last_part
  stick-Announced reading h = (
    (ev_abs-Announced, asks-rest _ refl, λ s r. asks-rest _ (let i = h s r in ground arith)),
    (ev_abs-Announced, asks-rest _ refl, λ s r. asks-rest _ (let i = h s r in ground arith)),
    (ev_abs-Announced, asks-rest _ refl, λ s r. asks-rest _ (let i = h s r in ground arith)),
    (ev_abs-Announced, asks-rest _ refl, λ s r. asks-rest _ (let i = h s r in ground arith)),
  )

  trigger-Announced :
      (reading : GamepadState → ℕ)
      → ((s : GamepadState) → IsInRange s → reading s < 256)
      → Announced made (axis Codes.abs_z (λ s. pos (reading s)))
        × Announced made (axis Codes.abs_rz (λ s. pos (reading s)))
  unfolding axes_and_id asks before_create last_part
  trigger-Announced reading h = (
    (ev_abs-Announced, asks-rest _ refl, λ s r. asks-rest _ (let i = h s r in ground arith)),
    (ev_abs-Announced, asks-rest _ refl, λ s r. asks-rest _ (let i = h s r in ground arith)),
  )

  axes-Announced : All (Announced made) axes
  axes-Announced =
      let (x, _, _, _) = stick-Announced (λ s. s.left_x) (λ s r. r.left_x) in
      let (_, y, _, _) = stick-Announced (λ s. s.left_y) (λ s r. r.left_y) in
      let (_, _, rx, _) = stick-Announced (λ s. s.right_x) (λ s r. r.right_x) in
      let (_, _, _, ry) = stick-Announced (λ s. s.right_y) (λ s r. r.right_y) in
      let (z, _) = trigger-Announced (λ s. s.left_trigger) (λ s r. r.left_trigger) in
      let (_, rz) = trigger-Announced (λ s. s.right_trigger) (λ s r. r.right_trigger) in
      (x, (y, (rx, (ry, (z, (rz, tt))))))

  -- A list of keys that the fixed part, or the last part, asks for.
  all_keys : List Request → List Control → Bool
  all_keys rs [] = true
  all_keys rs (axis code reading ∷ cs) = false
  all_keys rs (key code reading ∷ cs) = asks (sets_key code) rs && all_keys rs cs

  fixed-Announced : (cs : List Control) → all_keys fixed_keys cs ≡ true → All (Announced made) cs
  unfolding all_keys
  fixed-Announced [] e = tt
  fixed-Announced (axis code reading ∷ cs) e = ground arith
  fixed-Announced (key code reading ∷ cs) e = (
    (ev_key-Announced, asks-fixed (sets_key code) (ground arith)),
    fixed-Announced cs (ground arith),
  )

  rest-Announced : (cs : List Control) → all_keys last_part cs ≡ true → All (Announced made) cs
  unfolding all_keys
  rest-Announced [] e = tt
  rest-Announced (axis code reading ∷ cs) e = ground arith
  rest-Announced (key code reading ∷ cs) e = (
    (ev_key-Announced, asks-rest (sets_key code) (ground arith)),
    rest-Announced cs (ground arith),
  )

  exts-Announced :
      (script : List WriteResult)
      → All (Announced made) (ext_buttons (new_uinput script m).ext_mappings)
  unfolding fixed_keys asks set_keys
  exts-Announced script =
      let on = ev_key-Announced in
      let ext = ext-Announced script in
      (
        (on, ext 0 (omega arith) refl),
        (
          (on, ext 1 (omega arith) refl),
          (
            (on, ext 2 (omega arith) refl),
            (
              (on, ext 3 (omega arith) refl),
              (
                (on, ext 4 (omega arith) refl),
                (
                  (on, ext 5 (omega arith) refl),
                  ((on, ext 6 (omega arith) refl), ((on, ext 7 (omega arith) refl), tt)),
                ),
              ),
            ),
          ),
        ),
      )

-- In front of the request that creates it, the virtual gamepad announces every code that its
-- `emit` reports, and the event type of it: each key under its configured or default code, each
-- axis with a range that no decoded report leaves.
pub requests-Announced :
    (script : List WriteResult) (m : List (Option ℕ)) (elite : Bool)
    → All
        (Announced (before_create (requests m elite)))
        (controls (new_uinput script m).ext_mappings)
unfolding controls asks fixed_keys axes_and_id set_keys all_keys last_part before_create
requests-Announced script m elite =
    let P = Announced (made m elite) in
    let exts = ext_buttons (new_uinput script m).ext_mappings in
    All-append P (axes ++ buttons ++ exts ++ ext2_buttons) hat
      (All-append P (axes ++ buttons ++ exts) ext2_buttons
        (All-append P (axes ++ buttons) exts
          (All-append P axes buttons (axes-Announced m elite)
            (fixed-Announced m elite buttons refl))
          (exts-Announced m elite script))
        (fixed-Announced m elite ext2_buttons refl))
      (rest-Announced m elite hat refl)
