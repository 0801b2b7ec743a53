-- ===== src/Base/Maps.antt =====
-- Association lists as maps: a property of every entry, and one entry for each key.
use flydigi_vader.Base.{
  ◌≡◌, refl, sym, subst, String, ◌is◌, is_iff, List, [], ◌∷◌, none, arith, inl, inr, Bool-cases,
  All, lookup, insert, lookup-insert,
}

module _ {ℓ} {V : Type ℓ} where
  pub All-insert {κ} :
      (P : String × V → Type κ) (k : String) (v : V) (m : List (String × V))
      → P (k, v)
      → All P m
      → All P (insert k v m)
  unfolding insert
  All-insert P k v [] p h = (p, tt)
  All-insert P k v ((j, w) ∷ m) p h = elim (Bool-cases (j is k)) [
    | inl e ↦ rw e (subst (λ i. P (i, v)) (sym ((is_iff j k).0 e)) p, h.1)
    | inr e ↦ rw e (h.0, All-insert P k v m p h.1)
  ]

  -- No key stands twice.
  unfoldable pub IsMap : List (String × V) → Type ℓ
  IsMap [] = Unit
  IsMap ((k, v) ∷ m) = (lookup k m ≡ none) × IsMap m

  pub insert-IsMap : (k : String) (v : V) (m : List (String × V)) → IsMap m → IsMap (insert k v m)
  unfolding insert IsMap lookup
  insert-IsMap k v [] h = (refl, tt)
  insert-IsMap k v ((j, w) ∷ m) h = elim (Bool-cases (j is k)) [
    | inl e ↦ rw e h
    | inr e ↦
        rw e (
          ground (arith, is_iff j k, is_iff k j, h.0, lookup-insert k j v m),
          insert-IsMap k v m h.1,
        )
  ]
