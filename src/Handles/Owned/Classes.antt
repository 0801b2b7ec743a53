-- ===== src/Handles/Owned/Classes.antt =====
-- What the member functions of the owning classes do with the descriptor.
use flydigi_vader.Base.{
  ℕ, ◌≡◌, refl, sym, subst, true, false, List, [], ◌∷◌, Option, none, some, if◌then◌else◌, arith,
}
use flydigi_vader.Base.Int.{ℤ, pos, negsuc, pos_part, leb_ℤ}
use flydigi_vader.Handles.Calls.{Call, dev_destroy, close, Fds, update, run_calls, descriptor}
use flydigi_vader.Handles.Objects.{
  Object, hidraw, uinput, input_device, mouse, unique_fd, fd_of, destroy_object, move_object,
  assign_object,
}

-- The table behind the release of what a field holds.
abbrev pub released : Option ℕ → Fds → Option Fds
released none fds = some fds
released (some d) fds = if fds d then some (update fds d false) else none

abbrev pub held_by : Object → Option ℕ
held_by o = descriptor (fd_of o)

close_field :
    (x : ℤ) (fds : Fds)
    → run_calls (if leb_ℤ (pos 0) x then close (pos_part x) ∷ [] else []) fds
      ≡ released (descriptor x) fds
unfolding run_calls
close_field (pos d) fds = ground arith
close_field (negsuc n) fds = ground arith

end_field :
    (x : ℤ) (fds : Fds)
    → run_calls
        (if leb_ℤ (pos 0) x then dev_destroy (pos_part x) ∷ close (pos_part x) ∷ [] else [])
        fds
      ≡ released (descriptor x) fds
unfolding run_calls
end_field (pos d) fds = ground arith
end_field (negsuc n) fds = ground arith

pub destroy_object-releases :
    (o : Object) (fds : Fds) → run_calls (destroy_object o) fds ≡ released (held_by o) fds
unfolding destroy_object fd_of
destroy_object-releases (hidraw h) fds = close_field h.fd fds
destroy_object-releases (uinput u) fds = end_field u.fd fds
destroy_object-releases (input_device d) fds = end_field d.fd fds
destroy_object-releases (mouse m) fds = end_field m.fd fds
destroy_object-releases (unique_fd u) fds = close_field u.fd fds

pub move_object-takes :
    (o : Object) → (held_by (move_object o).0 ≡ held_by o) × (held_by (move_object o).1 ≡ none)
unfolding move_object fd_of
move_object-takes (hidraw h) = (refl, refl)
move_object-takes (uinput u) = (refl, refl)
move_object-takes (input_device d) = (refl, refl)
move_object-takes (mouse m) = (refl, refl)
move_object-takes (unique_fd u) = (refl, refl)

-- An assignment to another object releases what was held and takes what the other holds.
pub record Takes (a b : Object) (r : List Call × (Object × Object)) : Type 0 where
  pub releases : (fds : Fds) → run_calls r.0 fds ≡ released (held_by a) fds
  pub takes : held_by r.1.0 ≡ held_by b
  pub leaves : held_by r.1.1 ≡ none

some_inj : {A : Type 0} {x y : A} → some x ≡ some y → x ≡ y
some_inj h = cc

pub assign_object-Takes :
    (a b : Object) (r : List Call × (Object × Object))
    → assign_object false a b ≡ some r
    → Takes a b r
unfolding assign_object fd_of
assign_object-Takes (hidraw a) (hidraw b) r h =
    subst (Takes (hidraw a) (hidraw b)) (some_inj h)
      (record { releases = close_field a.fd; takes = refl; leaves = refl })
assign_object-Takes (uinput a) (uinput b) r h =
    subst (Takes (uinput a) (uinput b)) (some_inj h)
      (record { releases = end_field a.fd; takes = refl; leaves = refl })
assign_object-Takes (input_device a) (input_device b) r h =
    subst (Takes (input_device a) (input_device b)) (some_inj h)
      (record { releases = end_field a.fd; takes = refl; leaves = refl })
assign_object-Takes (mouse a) (mouse b) r h =
    subst (Takes (mouse a) (mouse b)) (some_inj h)
      (record { releases = end_field a.fd; takes = refl; leaves = refl })
assign_object-Takes _ _ r h = cc h

pub assign_object_self :
    (a b : Object) (r : List Call × (Object × Object))
    → assign_object true a b ≡ some r
    → r ≡ ([], (a, b))
unfolding assign_object
assign_object_self (hidraw a) (hidraw b) r h = sym (some_inj h)
assign_object_self (uinput a) (uinput b) r h = sym (some_inj h)
assign_object_self (input_device a) (input_device b) r h = sym (some_inj h)
assign_object_self (mouse a) (mouse b) r h = sym (some_inj h)
assign_object_self _ _ r h = cc h
