-- ===== src/Base/Sort.antt =====
-- Python's `sorted(xs, key=…)`: a stable sort by a key, over an order that is an interface.
use Prim.Native.Nat.{ℕ, ◌+◌}
use Prim.Native.Char.{code}
use Prim.Native.String.{String}
use mathlib.Core.Path.{◌≡◌, refl}
use mathlib.Core.Bool.{Bool, true, false, ◌&&◌, ◌||◌, not}
use mathlib.Core.List.{List, [], ◌∷◌}
use mathlib.Core.Logic.{inl, inr}
use native.Mathlib.Omega.{arith}
use intelli_attend_smart_boa.Base.Tests.{if◌then◌else◌, ltb, leb, ◌==◌, Bool-cases}
use intelli_attend_smart_boa.Base.Lists.{count_where, sum_by}

-- A total preorder by a Boolean test.
pub record Order (K : Type 0) : Type 0 where
  pub le : K → K → Bool
  pub total : (a b : K) → le a b ≡ false → le b a ≡ true
  pub trans : (a b c : K) → le a b ≡ true → le b c ≡ true → le a c ≡ true

-- `reverse=True`
abbrev pub descending : {K : Type 0} → Order K → Order K
descending o = record {
  le = λ a b. o.le b a;
  total = λ a b. o.total b a;
  trans = λ a b c h k. o.trans c b a k h;
}

pub leb_total : (a b : ℕ) → leb a b ≡ false → leb b a ≡ true
leb_total a b h = ground arith

pub leb_trans : (a b c : ℕ) → leb a b ≡ true → leb b c ≡ true → leb a c ≡ true
leb_trans a b c h k = ground arith

abbrev pub number_order : Order ℕ
number_order = record { le = leb; total = leb_total; trans = leb_trans }

-- Python's `<=` on texts, by code points.
unfoldable pub text_le : String → String → Bool
text_le String.[] t = true
text_le (String.◌∷◌ c s) String.[] = false
text_le (String.◌∷◌ c s) (String.◌∷◌ d t) =
    ltb (code c) (code d) || (code c == code d && text_le s t)

pub text_le_total : (s t : String) → text_le s t ≡ false → text_le t s ≡ true
unfolding text_le
text_le_total String.[] t h = absurd (ground arith)
text_le_total (String.◌∷◌ c s) String.[] h = refl
text_le_total (String.◌∷◌ c s) (String.◌∷◌ d t) h = ground (arith, text_le_total s t)

pub text_le_trans : (s t u : String) → text_le s t ≡ true → text_le t u ≡ true → text_le s u ≡ true
unfolding text_le
text_le_trans String.[] t u h k = refl
text_le_trans (String.◌∷◌ c s) String.[] u h k = absurd (ground arith)
text_le_trans (String.◌∷◌ c s) (String.◌∷◌ d t) String.[] h k = absurd (ground arith)
text_le_trans (String.◌∷◌ c s) (String.◌∷◌ d t) (String.◌∷◌ e u) h k =
    ground (arith, text_le_trans s t u)

abbrev pub text_order : Order String
text_order = record { le = text_le; total = text_le_total; trans = text_le_trans }

-- `ORDER BY` two columns: ties of the first are ordered by the second.
abbrev pub pair_le : {K L : Type 0} → Order K → Order L → (K × L) → (K × L) → Bool
pair_le o p (a, b) (c, d) = o.le a c && (not (o.le c a) || p.le b d)

pub pair_le_total :
    {K L : Type 0} (o : Order K) (p : Order L) (x y : K × L)
    → pair_le o p x y ≡ false
    → pair_le o p y x ≡ true
pair_le_total o p (a, b) (c, d) h = ground (arith, o.total a c, o.total c a, p.total b d)

pub pair_le_trans :
    {K L : Type 0} (o : Order K) (p : Order L) (x y z : K × L)
    → pair_le o p x y ≡ true
    → pair_le o p y z ≡ true
    → pair_le o p x z ≡ true
pair_le_trans o p (a, b) (c, d) (e, f) h k =
    ground (arith, o.trans a c e, o.trans e a c, o.trans c e a, p.trans b d f)

abbrev pub pair_order : {K L : Type 0} → Order K → Order L → Order (K × L)
pair_order o p = record { le = pair_le o p; total = pair_le_total o p; trans = pair_le_trans o p }

module _ {A K : Type 0} (o : Order K) (key : A → K) where
  -- An item goes before the first that is not smaller, so that equal items keep their order.
  pub place : A → List A → List A
  place x [] = x ∷ []
  place x (y ∷ ys) = if o.le (key x) (key y) then x ∷ y ∷ ys else y ∷ place x ys

  unfoldable pub sort_by : List A → List A
  unfolding place
  sort_by [] = []
  sort_by (x ∷ xs) = place x (sort_by xs)

  -- Every item of a list has a key that is not smaller.
  abbrev pub IsAbove : K → List A → Type 0
  IsAbove k [] = Unit
  IsAbove k (x ∷ xs) = (o.le k (key x) ≡ true) × IsAbove k xs

  -- Each item stands before items that are not smaller.
  abbrev pub IsSorted : List A → Type 0
  IsSorted [] = Unit
  IsSorted (x ∷ xs) = IsAbove (key x) xs × IsSorted xs

  IsAbove-trans : (j k : K) (xs : List A) → o.le j k ≡ true → IsAbove k xs → IsAbove j xs
  IsAbove-trans j k [] h above = tt
  IsAbove-trans j k (x ∷ xs) h (a, above) = (o.trans j k (key x) h a, IsAbove-trans j k xs h above)

  IsAbove-place :
      (k : K) (x : A) (xs : List A) → o.le k (key x) ≡ true → IsAbove k xs → IsAbove k (place x xs)
  unfolding place
  IsAbove-place k x [] h above = (h, tt)
  IsAbove-place k x (y ∷ ys) h (a, above) = elim (Bool-cases (o.le (key x) (key y))) [
    | inl e ↦ rw e (h, (a, above))
    | inr e ↦ rw e (a, IsAbove-place k x ys h above)
  ]

  place-IsSorted : (x : A) (xs : List A) → IsSorted xs → IsSorted (place x xs)
  unfolding place
  place-IsSorted x [] h = (tt, tt)
  place-IsSorted x (y ∷ ys) (above, h) = elim (Bool-cases (o.le (key x) (key y))) [
    | inl e ↦ rw e ((e, IsAbove-trans (key x) (key y) ys e above), (above, h))
    | inr e ↦
        rw e (IsAbove-place (key y) x ys (o.total (key x) (key y) e) above, place-IsSorted x ys h)
  ]

  pub sort_by-IsSorted : (xs : List A) → IsSorted (sort_by xs)
  unfolding sort_by
  sort_by-IsSorted [] = tt
  sort_by-IsSorted (x ∷ xs) = place-IsSorted x (sort_by xs) (sort_by-IsSorted xs)

  count_where-place :
      (p : A → Bool) (x : A) (xs : List A) → count_where p (place x xs) ≡ count_where p (x ∷ xs)
  unfolding place
  count_where-place p x [] = refl
  count_where-place p x (y ∷ ys) = ground (arith, count_where-place p x ys)

  -- Sorting loses and adds nothing.
  pub count_where-sort_by :
      (p : A → Bool) (xs : List A) → count_where p (sort_by xs) ≡ count_where p xs
  unfolding sort_by
  count_where-sort_by p [] = refl
  count_where-sort_by p (x ∷ xs) =
      ground (arith, count_where-place p x (sort_by xs), count_where-sort_by p xs)

  sum_by-place : (f : A → ℕ) (x : A) (xs : List A) → sum_by f (place x xs) ≡ f x + sum_by f xs
  unfolding place
  sum_by-place f x [] = refl
  sum_by-place f x (y ∷ ys) = ground (arith, sum_by-place f x ys)

  pub sum_by-sort_by : (f : A → ℕ) (xs : List A) → sum_by f (sort_by xs) ≡ sum_by f xs
  unfolding sort_by
  sum_by-sort_by f [] = refl
  sum_by-sort_by f (x ∷ xs) = omega (arith, sum_by-place f x (sort_by xs), sum_by-sort_by f xs)
