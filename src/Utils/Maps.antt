-- ===== src/Utils/Maps.antt =====
-- A Map whose keys are texts, as the list of its entries in the order of insertion.
use prisma_pglite_bridge.Prelude.{
  ◌≡◌, refl, if◌then◌else◌, true, Option, none, some, List, [], ◌∷◌, eq→==, arith,
}
use prisma_pglite_bridge.Duplex.CopyIn.{Text, same}

pub same→eq : (xs ys : Text) → same xs ys ≡ true → xs ≡ ys
same→eq [] [] h = refl
same→eq [] (y ∷ ys) h = cc
same→eq (x ∷ xs) [] h = cc
same→eq (x ∷ xs) (y ∷ ys) h = ground (arith, same→eq xs ys)

pub same_self : (xs : Text) → same xs xs ≡ true
same_self [] = refl
same_self (x ∷ xs) = rw (eq→== x x refl) (same_self xs)

abbrev pub Map {ℓ} : Type ℓ → Type ℓ
Map V = List (Text × V)

module _ {ℓ} {V : Type ℓ} where
  unfoldable pub get : Text → Map V → Option V
  get k [] = none
  get k ((j, v) ∷ m) = if same j k then some v else get k m

  unfoldable pub put : Text → V → Map V → Map V
  put k v [] = (k, v) ∷ []
  put k v ((j, w) ∷ m) = if same j k then (j, v) ∷ m else (j, w) ∷ put k v m

  unfoldable pub remove : Text → Map V → Map V
  remove k [] = []
  remove k ((j, w) ∷ m) = if same j k then m else (j, w) ∷ remove k m

  pub get-put_self : (k : Text) (v : V) (m : Map V) → get k (put k v m) ≡ some v
  unfolding get put
  get-put_self k v [] = rw (same_self k)
  get-put_self k v ((j, w) ∷ m) = ground (arith, get-put_self k v m)
