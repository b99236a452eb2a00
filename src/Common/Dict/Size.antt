-- ===== src/Common/Dict/Size.antt =====
-- len(m) of a map, whose keys are distinct.
use Prim.Native.Nat.{suc}
use mathlib.Core.Path.{◌≡◌, refl}
use mathlib.Core.List.{[], ◌∷◌}
use mathlib.Core.Logic.{inl, inr}
use mathlib.Core.Option.{none, some}
use native.Mathlib.Omega.{arith}
use lynx_dns.Common.Tests.{Bool-cases}
use lynx_dns.Common.Lists.{length}
use lynx_dns.Common.Text.{Bytes, text_eq, text_eq_iff}
use lynx_dns.Common.Dict.{Dict, lookup, insert, delete, lookup-insert, lookup-delete}

module _ {ℓ} {V : Type ℓ} where
  abbrev pub DistinctKeys : Dict V → Type ℓ
  DistinctKeys [] = Unit
  DistinctKeys ((k, v) ∷ m) = (lookup k m ≡ none) × DistinctKeys m

  pub length-insert_new :
      (k : Bytes) (v : V) (m : Dict V) → lookup k m ≡ none → length (insert k v m) ≡ suc (length m)
  unfolding lookup insert
  length-insert_new k v [] h = refl
  length-insert_new k v ((j, w) ∷ m) h = ground (arith, length-insert_new k v m)

  pub length-insert_old :
      (k : Bytes) (v w : V) (m : Dict V) → lookup k m ≡ some w → length (insert k v m) ≡ length m
  unfolding lookup insert
  length-insert_old k v w [] h = cc
  length-insert_old k v w ((j, u) ∷ m) h = ground (arith, length-insert_old k v w m)

  pub delete_absent : (k : Bytes) (m : Dict V) → lookup k m ≡ none → delete k m ≡ m
  unfolding lookup delete
  delete_absent k [] h = refl
  delete_absent k ((j, u) ∷ m) h = ground (arith, delete_absent k m)

  pub length-delete :
      (k : Bytes) (w : V) (m : Dict V)
      → DistinctKeys m
      → lookup k m ≡ some w
      → suc (length (delete k m)) ≡ length m
  unfolding lookup delete
  length-delete k w [] d h = cc
  length-delete k w ((j, u) ∷ m) d h =
      ground (arith, text_eq_iff j k, delete_absent k m, length-delete k w m d.1)

  pub insert-DistinctKeys :
      (k : Bytes) (v : V) (m : Dict V) → DistinctKeys m → DistinctKeys (insert k v m)
  unfolding insert
  insert-DistinctKeys k v [] d = (unfold lookup in refl, tt)
  insert-DistinctKeys k v ((j, w) ∷ m) d = elim (Bool-cases (text_eq j k)) [
    | inl e ↦ rw e (rw (← (text_eq_iff j k).0 e) d.0, d.1)
    | inr n ↦ rw n (
      ground (arith, lookup-insert k j v m, text_eq_iff k j, text_eq_iff j k, d.0),
      insert-DistinctKeys k v m d.1,
    )
  ]

  pub delete-DistinctKeys : (k : Bytes) (m : Dict V) → DistinctKeys m → DistinctKeys (delete k m)
  unfolding delete
  delete-DistinctKeys k [] d = tt
  delete-DistinctKeys k ((j, w) ∷ m) d = elim (Bool-cases (text_eq j k)) [
    | inl e ↦ rw e (delete-DistinctKeys k m d.1)
    | inr n ↦ rw n (ground (arith, lookup-delete k j m, d.0), delete-DistinctKeys k m d.1)
  ]
