-- ===== src/Common/GoMap/Every.antt =====
-- Properties of all entries of a map, by what a lookup finds.
use mathlib.Core.Path.{subst₂}
use iot_api.Common.{
  List, All, Option-cases, String, ◌≡◌, ◌==◌, eq_iff, Bool, some, [], arith, Bool-cases, inl, inr,
}
use iot_api.Common.GoMap.{
  GoMap, lookup, lookup_or, insert, delete, delete_if, IsMap, lookup-insert, lookup-delete,
  lookup-delete_if,
}

module _ {V : Type 0} where
  -- Every entry that a lookup finds has the property.
  pub record Every (P : String → V → Type 0) (m : GoMap V) : Type 0 where
    pub at : (k : String) (v : V) → lookup k m ≡ some v → P k v

  module _ {P : String → V → Type 0} where
    pub Every-empty : Every P []
    unfolding lookup
    Every-empty = record { at = λ k v e. cc }

    pub Every-insert :
        (k : String) (v : V) (m : GoMap V) → P k v → Every P m → Every P (insert k v m)
    Every-insert k v m p h = record {
      at = λ j w e. elim (Bool-cases (k == j)) [
        | inl same ↦ subst₂ P ((eq_iff k j).0 same) (ground (arith, lookup-insert k j v m)) p
        | inr other ↦ h.at j w (ground (arith, lookup-insert k j v m))
      ];
    }

    pub Every-delete : (k : String) (m : GoMap V) → Every P m → Every P (delete k m)
    Every-delete k m h = record { at = λ j w e. h.at j w (ground (arith, lookup-delete k j m)) }

    pub Every-delete_if :
        (q : V → Bool) (m : GoMap V) → IsMap m → Every P m → Every P (delete_if q m)
    Every-delete_if q m u h = record {
      at = λ j w e. h.at j w (ground (arith, lookup-delete_if q j m u));
    }

    pub Every-map :
        {Q : String → V → Type 0} (m : GoMap V)
        → ((k : String) (v : V) → P k v → Q k v)
        → Every P m
        → Every Q m
    Every-map m f h = record { at = λ k v e. f k v (h.at k v e) }

-- A missing slice reads as the empty one, of which everything holds.
pub All-lookup_or :
    {V : Type 0} {P : String → V → Type 0} (k : String) (m : GoMap (List V))
    → Every (λ j xs. All (P j) xs) m
    → All (P k) (lookup_or [] k m)
All-lookup_or k m h = elim (Option-cases (lookup k m)) [
  | inl e ↦ rw (e, All, lookup_or) tt
  | inr (xs, e) ↦ rw (e, All, lookup_or) (h.at k xs e)
]
