-- ===== src/Handles/Owned.antt =====
-- Who holds which descriptor in a program of owning objects.
pub mod Classes
pub mod Steps
use flydigi_vader.Base.{
  ℕ, ◌≡◌, refl, Bool, true, false, List, [], ◌∷◌, Option, none, some, is_some, if◌then◌else◌, ◌==◌,
  arith, ==_iff, ◌∙◌, sym, ap, ◌≢◌, Option-cases, Bool-cases, inl, inr,
}
use flydigi_vader.Base.Int.{ℤ, pos, negsuc, leb_ℤ, pos_part}
use flydigi_vader.Handles.Calls.{
  Call, dev_destroy, close, Fds, update, run_calls, descriptor, opened,
}
use flydigi_vader.Handles.Objects.{
  Object, hidraw, uinput, input_device, mouse, unique_fd, fd_of, destroy_object, move_object,
  assign_object,
}

-- The descriptor that the object at an address holds.
abbrev pub holds : Option Object → Option ℕ
holds none = none
holds (some o) = descriptor (fd_of o)

pub record Sound (held : ℕ → Option ℕ) (fds : Fds) : Type 0 where
  pub owned : (d : ℕ) → fds d ≡ true → (i : ℕ) × (held i ≡ some d)
  pub live : (i d : ℕ) → held i ≡ some d → fds d ≡ true
  pub sole : (i j d : ℕ) → held i ≡ some d → held j ≡ some d → i ≡ j

-- Only the values count.
pub Sound-ext :
    (held held' : ℕ → Option ℕ) (fds : Fds)
    → Sound held fds
    → ((k : ℕ) → held' k ≡ held k)
    → Sound held' fds
Sound-ext held held' fds s e = record {
  owned = λ d h. let (i, k) = s.owned d h in (i, e i ∙ k);
  live = λ i d h. s.live i d (sym (e i) ∙ h);
  sole = λ i j d h k. s.sole i j d (sym (e i) ∙ h) (sym (e j) ∙ k);
}

pub gain :
    (held held' : ℕ → Option ℕ) (fds : Fds) (i d : ℕ)
    → Sound held fds
    → held i ≡ none
    → fds d ≡ false
    → ((k : ℕ) → held' k ≡ update held i (some d) k)
    → Sound held' (update fds d true)
gain held held' fds i d s free fresh e = record {
  owned = λ d' h. elim (Bool-cases (d == d')) [
    | inl same ↦ (i, ground (arith, e i))
    | inr other ↦ let (j, k) = s.owned d' (ground arith) in (j, ground (arith, e j, free, k))
  ];
  live = λ j d' h. ground (arith, e j, s.live j d');
  sole = λ j k d' h h'. ground (arith, e j, e k, s.sole j k d', s.live j d', s.live k d');
}

pub lose :
    (held held' : ℕ → Option ℕ) (fds : Fds) (i d : ℕ)
    → Sound held fds
    → held i ≡ some d
    → ((k : ℕ) → held' k ≡ update held i none k)
    → Sound held' (update fds d false)
lose held held' fds i d s own e = record {
  owned = λ d' h. let (j, k) = s.owned d' (ground arith) in (j, ground (arith, e j, own, k, h));
  live = λ j d' h. ground (arith, e j, s.live j d', s.sole i j d);
  sole = λ j k d' h h'. ground (arith, e j, e k, s.sole j k d');
}

pub give :
    (held held' : ℕ → Option ℕ) (fds : Fds) (i j : ℕ)
    → Sound held fds
    → held i ≡ none
    → ((k : ℕ) → held' k ≡ update (update held i (held j)) j none k)
    → (i == j) ≡ false
    → Sound held' fds
give held held' fds i j s free e apart = record {
  owned = λ d h.
      let (k, own) = s.owned d h in
      elim (Bool-cases (j == k)) [
        | inl same ↦ (i, ground (arith, e i, own, free))
        | inr other ↦ (k, ground (arith, e k, own, free))
      ];
  live = λ k d h. ground (arith, e k, s.live k d, s.live j d);
  sole = λ k l d h h'. ground (arith, e k, e l, s.sole k l d, s.sole j l d, s.sole k j d);
}
