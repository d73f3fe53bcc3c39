-- ===== src/Device/Log/Shared/Shuffles.antt =====
-- What two lists of calls of a `Log` (examples/ws-discovery/log.cpp) have in common with an order of both.
use onvifxx.Base.{◌+◌, ◌≡◌, refl, List, [], ◌∷◌, ◌++◌, arith, All}
use onvifxx.Device.Log.Shared.{
  Insertion, byte, priority, flush, Shuffle, nothing, from_left, from_right, bytes, ends, IsClosed,
  IsClosed-tail,
}

pub Shuffle-All :
    (P : Insertion → Type 0) {xs ys zs : List Insertion}
    → Shuffle xs ys zs
    → All P xs
    → All P ys
    → All P zs
Shuffle-All P nothing left right = tt
Shuffle-All P (from_left s) (x, left) right = (x, Shuffle-All P s left right)
Shuffle-All P (from_right s) left (y, right) = (y, Shuffle-All P s left right)

-- What begins one of two lists begins their order.
module _ {Item : Type 0} where
  pub left_first :
      {xs ys zs : List Item} (t : List Item) → Shuffle xs ys zs → Shuffle (t ++ xs) ys (t ++ zs)
  left_first [] s = s
  left_first (c ∷ t) s = from_left (left_first t s)

  pub right_first :
      {xs ys zs : List Item} (t : List Item) → Shuffle xs ys zs → Shuffle xs (t ++ ys) (t ++ zs)
  right_first [] s = s
  right_first (c ∷ t) s = from_right (right_first t s)

  pub all_left : (t : List Item) → Shuffle t [] t
  all_left [] = nothing
  all_left (c ∷ t) = from_left (all_left t)

  pub all_right : (t : List Item) → Shuffle [] t t
  all_right [] = nothing
  all_right (c ∷ t) = from_right (all_right t)

pub Shuffle-bytes :
    {xs ys zs : List Insertion} → Shuffle xs ys zs → Shuffle (bytes xs) (bytes ys) (bytes zs)
Shuffle-bytes nothing = nothing
Shuffle-bytes (from_left {x = byte c} s) = from_left (Shuffle-bytes s)
Shuffle-bytes (from_left {x = priority p} s) = Shuffle-bytes s
Shuffle-bytes (from_left {x = flush} s) = Shuffle-bytes s
Shuffle-bytes (from_right {y = byte c} s) = from_right (Shuffle-bytes s)
Shuffle-bytes (from_right {y = priority p} s) = Shuffle-bytes s
Shuffle-bytes (from_right {y = flush} s) = Shuffle-bytes s

pub Shuffle-ends : {xs ys zs : List Insertion} → Shuffle xs ys zs → ends zs ≡ ends xs + ends ys
Shuffle-ends nothing = refl
Shuffle-ends (from_left {x = byte c} s) = Shuffle-ends s
Shuffle-ends (from_left {x = priority p} s) = Shuffle-ends s
Shuffle-ends (from_left {x = flush} s) = omega (arith, Shuffle-ends s)
Shuffle-ends (from_right {y = byte c} s) = Shuffle-ends s
Shuffle-ends (from_right {y = priority p} s) = Shuffle-ends s
Shuffle-ends (from_right {y = flush} s) = omega (arith, Shuffle-ends s)

pub Shuffle-IsClosed :
    {xs ys zs : List Insertion} → Shuffle xs ys zs → IsClosed xs → IsClosed ys → IsClosed zs
Shuffle-IsClosed nothing left right = tt
Shuffle-IsClosed (from_left nothing) left right = left
Shuffle-IsClosed (from_left {x = x} {xs = xs} (from_left s)) left right =
    Shuffle-IsClosed (from_left s) (IsClosed-tail x xs left) right
Shuffle-IsClosed (from_left {x = x} {xs = xs} (from_right s)) left right =
    Shuffle-IsClosed (from_right s) (IsClosed-tail x xs left) right
Shuffle-IsClosed (from_right nothing) left right = right
Shuffle-IsClosed (from_right {y = y} {ys = ys} (from_left s)) left right =
    Shuffle-IsClosed (from_left s) left (IsClosed-tail y ys right)
Shuffle-IsClosed (from_right {y = y} {ys = ys} (from_right s)) left right =
    Shuffle-IsClosed (from_right s) left (IsClosed-tail y ys right)
