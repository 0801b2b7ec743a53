-- ===== src/Handles/Owned/Steps.antt =====
-- A program of owning objects, run.
use flydigi_vader.Base.{
  ℕ, ◌≡◌, refl, true, false, List, [], ◌∷◌, Option, none, some, is_some, ◌==◌, arith, ◌∙◌, ap,
  subst, Option-cases, Bool-cases, inl, inr,
}
use flydigi_vader.Base.Int.{ℤ, pos, negsuc}
use flydigi_vader.Handles.Calls.{Call, Fds, update, run_calls, descriptor, opened}
use flydigi_vader.Handles.Objects.{Object, fd_of, move_object, assign_object}
use flydigi_vader.Handles.{
  Program, Action, construct, move_construct, move_assign, destroy, step, run, Allowed, AllAllowed,
  After,
}
use flydigi_vader.Handles.Owned.Classes.{
  released, held_by, destroy_object-releases, move_object-takes, Takes, assign_object-Takes,
  assign_object_self,
}
use flydigi_vader.Handles.Owned.{holds, Sound, Sound-ext, gain, lose, give}

-- Every open descriptor is held by an object, a descriptor that an object holds is open, and no two
-- objects hold the same one.
abbrev pub IsOwned : Program → Type 0
IsOwned p = Sound (λ k. holds (p.slots k)) p.fds

-- An action that is defined, and leaves such a program.
abbrev pub Keeps : Option Program → Type 0
Keeps o = (q : Program) × (o ≡ some q) × IsOwned q

release :
    (held : ℕ → Option ℕ) (fds : Fds) (x : Option ℕ) (i : ℕ)
    → Sound held fds
    → held i ≡ x
    → (fds' : Fds) × (released x fds ≡ some fds') × Sound (update held i none) fds'
release held fds none i s e =
    (fds, refl, Sound-ext held (update held i none) fds s (λ k. ground (arith, e)))
release held fds (some d) i s e = (
  update fds d false,
  rw (s.live i d e) refl,
  lose held (update held i none) fds i d s e (λ k. refl),
)

open_field :
    (held : ℕ → Option ℕ) (fds : Fds) (x : ℤ) (i : ℕ)
    → Sound held fds
    → held i ≡ none
    → ((d : ℕ) → descriptor x ≡ some d → fds d ≡ false)
    → Sound (update held i (descriptor x)) (opened x fds)
open_field held fds (pos d) i s free fresh =
    gain held (update held i (some d)) fds i d s free (fresh d refl) (λ k. refl)
open_field held fds (negsuc n) i s free fresh =
    Sound-ext held (update held i none) fds s (λ k. ground (arith, free))

construct-Keeps :
    (i : ℕ) (o : Object) (p : Program)
    → IsOwned p
    → Allowed (construct i o) p
    → Keeps (step (construct i o) p)
unfolding step
construct-Keeps i o p s (free, fresh) = (
  record { slots = update p.slots i (some o); fds = opened (fd_of o) p.fds },
  refl,
  Sound-ext _ _ _ (open_field (λ k. holds (p.slots k)) p.fds (fd_of o) i s (ap holds free) fresh)
      (λ k. ground arith),
)

move_construct-Keeps :
    (i j : ℕ) (p : Program)
    → IsOwned p
    → Allowed (move_construct i j) p
    → Keeps (step (move_construct i j) p)
unfolding step move_object
move_construct-Keeps i j p s (free, live) = elim (Option-cases (p.slots j)) [
  | inl e ↦ absurd (cc (e, live))
  | inr (b, e) ↦ (
    record p {
      slots = update (update p.slots i (some (move_object b).0)) j (some (move_object b).1);
    },
    ground (arith, e),
    give (λ k. holds (p.slots k)) _ p.fds i j s (ap holds free)
        (λ k. ground (arith, e, move_object-takes b)) (ground (arith, e, free)),
  )
]

step-destroy :
    (i : ℕ) (p : Program) (a : Object) (fds : Fds)
    → p.slots i ≡ some a
    → released (held_by a) p.fds ≡ some fds
    → step (destroy i) p ≡ some (record { slots = update p.slots i none; fds = fds })
unfolding step
step-destroy i p a fds e freed = ground (arith, e, destroy_object-releases a p.fds, freed)

step-move_assign :
    (i j : ℕ) (p : Program) (a b : Object) (r : List Call × (Object × Object)) (fds : Fds)
    → p.slots i ≡ some a
    → p.slots j ≡ some b
    → assign_object (i == j) a b ≡ some r
    → run_calls r.0 p.fds ≡ some fds
    → step (move_assign i j) p
      ≡ some (record { slots = update (update p.slots i (some r.1.0)) j (some r.1.1); fds = fds })
unfolding step
step-move_assign i j p a b r fds hi hj assigned ran = ground (arith, hi, hj, assigned, ran)

destroy-Keeps :
    (i : ℕ) (p : Program) → IsOwned p → Allowed (destroy i) p → Keeps (step (destroy i) p)
destroy-Keeps i p s live = elim (Option-cases (p.slots i)) [
  | inl e ↦ absurd (cc (e, live))
  | inr (a, e) ↦
      let (fds, freed, sound) =
        release (λ k. holds (p.slots k)) p.fds (held_by a) i s (ap holds e) in
      (
        record { slots = update p.slots i none; fds = fds },
        step-destroy i p a fds e freed,
        Sound-ext _ _ fds sound (λ k. ground arith),
      )
]

-- An assignment to the object itself.
self_assign-Keeps :
    (i j : ℕ) (p : Program) (a b : Object)
    → IsOwned p
    → p.slots i ≡ some a
    → p.slots j ≡ some b
    → is_some (assign_object (i == j) a b) ≡ true
    → (i == j) ≡ true
    → Keeps (step (move_assign i j) p)
unfolding run_calls
self_assign-Keeps i j p a b s hi hj fits same = elim (Option-cases (assign_object true a b)) [
  | inl e ↦ absurd (ground (arith, e))
  | inr (r, e) ↦
      let gone : r ≡ ([], (a, b)) = assign_object_self a b r e in
      (
        record { slots = update (update p.slots i (some a)) j (some b); fds = p.fds },
        step-move_assign i j p a b ([], (a, b)) p.fds hi hj (rw same (e ∙ ap some gone)) (refl),
        Sound-ext _ _ p.fds s (λ k. ground (arith, hi, hj)),
      )
]

other_assign-Keeps :
    (i j : ℕ) (p : Program) (a b : Object)
    → IsOwned p
    → p.slots i ≡ some a
    → p.slots j ≡ some b
    → is_some (assign_object (i == j) a b) ≡ true
    → (i == j) ≡ false
    → Keeps (step (move_assign i j) p)
other_assign-Keeps i j p a b s hi hj fits apart = elim (Option-cases (assign_object false a b)) [
  | inl e ↦ absurd (ground (arith, e))
  | inr (r, e) ↦
      let t : Takes a b r = assign_object-Takes a b r e in
      let (fds, freed, sound) =
        release (λ k. holds (p.slots k)) p.fds (held_by a) i s (ap holds hi) in
      (
        record { slots = update (update p.slots i (some r.1.0)) j (some r.1.1); fds = fds },
        step-move_assign i j p a b r fds hi hj (rw apart e) (t.releases p.fds ∙ freed),
        give (update (λ k. holds (p.slots k)) i none) _ fds i j sound (ground arith)
            (λ k. ground (arith, t.takes, t.leaves, hi, hj)) apart,
      )
]

move_assign-Keeps :
    (i j : ℕ) (p : Program)
    → IsOwned p
    → Allowed (move_assign i j) p
    → Keeps (step (move_assign i j) p)
move_assign-Keeps i j p s (a, b, hi, hj, fits) = elim (Bool-cases (i == j)) [
  | inl same ↦ self_assign-Keeps i j p a b s hi hj fits same
  | inr apart ↦ other_assign-Keeps i j p a b s hi hj fits apart
]

pub step-Keeps : (a : Action) (p : Program) → IsOwned p → Allowed a p → Keeps (step a p)
step-Keeps (construct i o) p s h = construct-Keeps i o p s h
step-Keeps (move_construct i j) p s h = move_construct-Keeps i j p s h
step-Keeps (move_assign i j) p s h = move_assign-Keeps i j p s h
step-Keeps (destroy i) p s h = destroy-Keeps i p s h

-- From a program in which every open descriptor has one owner: whatever it does with its objects, as
-- long as each action is allowed where it is taken (objects are made of fresh descriptors at free
-- addresses, and live ones are moved, assigned to another or to themselves, and destroyed), each action
-- is defined and makes no call on a descriptor that is not open, and at the end again every open
-- descriptor is held by exactly one object, and every object holds an open one or none.
pub run-IsOwned :
    (actions : List Action) (p : Program) → IsOwned p → AllAllowed actions p → Keeps (run actions p)
unfolding run
run-IsOwned [] p s h = (p, refl, s)
run-IsOwned (a ∷ rest) p s (h, hs) =
    let (q, e, kept) = step-Keeps a p s h in
    let (r, e', kept') = run-IsOwned rest q kept (subst (After (AllAllowed rest)) e hs) in
    (r, rw (e, run) e', kept')

-- Once no object is alive, no descriptor is open.
pub IsOwned-released :
    (p : Program) → IsOwned p → ((i : ℕ) → p.slots i ≡ none) → (d : ℕ) → p.fds d ≡ false
IsOwned-released p s dead d = elim (Bool-cases (p.fds d)) [
  | inl e ↦ let (i, own) = s.owned d e in absurd (cc (own, dead i))
  | inr e ↦ e
]
