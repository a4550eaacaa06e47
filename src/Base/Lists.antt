-- ===== src/Base/Lists.antt =====
-- Lists as the tables and Python lists of the program use them.
use Prim.Native.Nat.{ℕ, zero, suc, ◌+◌, ◌-◌, ◌≤◌}
use mathlib.Core.Path.{◌≡◌, refl, sym, ap, ◌∙◌}
use mathlib.Core.Bool.{Bool, true, false}
use mathlib.Core.Option.{Option, none, some}
use mathlib.Core.List.{List, [], ◌∷◌, ◌++◌}
use native.Mathlib.Omega.{arith}
use intelli_attend_smart_boa.Base.Tests.{if◌then◌else◌}

module _ {ℓ} {A : Type ℓ} where
  abbrev pub length : List A → ℕ
  length [] = 0
  length (x ∷ xs) = suc (length xs)

  -- The first row that passes the test: a `select … where …` on a unique column, or `limit(1)`.
  abbrev pub find : (A → Bool) → List A → Option A
  find p [] = none
  find p (x ∷ xs) = if p x then some x else find p xs

  -- `[x for x in xs if p x]`
  abbrev pub keep : (A → Bool) → List A → List A
  keep p [] = []
  keep p (x ∷ xs) = if p x then x ∷ keep p xs else keep p xs

  -- A change of the object that `find` returned, in its place in the table.
  abbrev pub modify_first : (A → Bool) → (A → A) → List A → List A
  modify_first p f [] = []
  modify_first p f (x ∷ xs) = if p x then f x ∷ xs else x ∷ modify_first p f xs

  -- `session.delete` of the object that `find` returned.
  abbrev pub remove_first : (A → Bool) → List A → List A
  remove_first p [] = []
  remove_first p (x ∷ xs) = if p x then xs else x ∷ remove_first p xs

  -- `update … where …`: every row that passes the test.
  abbrev pub modify_where : (A → Bool) → (A → A) → List A → List A
  modify_where p f [] = []
  modify_where p f (x ∷ xs) = (if p x then f x else x) ∷ modify_where p f xs

  abbrev pub count_where : (A → Bool) → List A → ℕ
  count_where p [] = 0
  count_where p (x ∷ xs) = if p x then suc (count_where p xs) else count_where p xs

  -- `xs[:n]` and `xs[n:]`
  abbrev pub take : ℕ → List A → List A
  take zero xs = []
  take (suc n) [] = []
  take (suc n) (x ∷ xs) = x ∷ take n xs

  abbrev pub drop : ℕ → List A → List A
  drop zero xs = xs
  drop (suc n) [] = []
  drop (suc n) (x ∷ xs) = drop n xs

  -- `sum(f(x) for x in xs)`
  abbrev pub sum_by : (A → ℕ) → List A → ℕ
  sum_by f [] = 0
  sum_by f (x ∷ xs) = f x + sum_by f xs

  abbrev pub some? : (A → Bool) → List A → Bool
  some? p [] = false
  some? p (x ∷ xs) = if p x then true else some? p xs

module _ {ℓ} {A : Type ℓ} where
  pub length-append : (xs ys : List A) → length (xs ++ ys) ≡ length xs + length ys
  length-append [] ys = omega arith
  length-append (x ∷ xs) ys = omega (arith, length-append xs ys)

  pub find-append_none :
      (p : A → Bool) (xs ys : List A) → find p xs ≡ none → find p (xs ++ ys) ≡ find p ys
  find-append_none p [] ys h = refl
  find-append_none p (x ∷ xs) ys h = ground (arith, find-append_none p xs ys)

  pub find_holds : (p : A → Bool) (xs : List A) (a : A) → find p xs ≡ some a → p a ≡ true
  find_holds p [] a h = ground arith
  find_holds p (x ∷ xs) a h = ground (arith, find_holds p xs a)

  -- The row is found again after a change that keeps it in the selection.
  pub find-modify_first :
      (p : A → Bool) (f : A → A) (xs : List A) (a : A)
      → find p xs ≡ some a
      → p (f a) ≡ true
      → find p (modify_first p f xs) ≡ some (f a)
  find-modify_first p f [] a h k = ground arith
  find-modify_first p f (x ∷ xs) a h k = ground (arith, find-modify_first p f xs a)

  pub modify_first-none :
      (p : A → Bool) (f : A → A) (xs : List A) → find p xs ≡ none → modify_first p f xs ≡ xs
  modify_first-none p f [] h = refl
  modify_first-none p f (x ∷ xs) h = ground (arith, modify_first-none p f xs)

  pub length-modify_first :
      (p : A → Bool) (f : A → A) (xs : List A) → length (modify_first p f xs) ≡ length xs
  length-modify_first p f [] = refl
  length-modify_first p f (x ∷ xs) = ground (arith, length-modify_first p f xs)

  pub length-modify_where :
      (p : A → Bool) (f : A → A) (xs : List A) → length (modify_where p f xs) ≡ length xs
  length-modify_where p f [] = refl
  length-modify_where p f (x ∷ xs) = ground (arith, length-modify_where p f xs)

  pub count_where-append :
      (p : A → Bool) (xs ys : List A)
      → count_where p (xs ++ ys) ≡ count_where p xs + count_where p ys
  count_where-append p [] ys = omega arith
  count_where-append p (x ∷ xs) ys = ground (arith, count_where-append p xs ys)

  -- A selection that is within an empty one is empty.
  pub find_of_some? :
      (p q : A → Bool) (xs : List A)
      → some? p xs ≡ false
      → ((x : A) → q x ≡ true → p x ≡ true)
      → find q xs ≡ none
  find_of_some? p q [] h k = refl
  find_of_some? p q (x ∷ xs) h k =
      ground (arith, k x, λ (e : some? p xs ≡ false). find_of_some? p q xs e k)

  pub remove_first-append :
      (p : A → Bool) (xs : List A) (y : A)
      → find p xs ≡ none
      → p y ≡ true
      → remove_first p (xs ++ y ∷ []) ≡ xs
  remove_first-append p [] y h k = ground arith
  remove_first-append p (x ∷ xs) y h k = ground (arith, remove_first-append p xs y)

  pub modify_first-append :
      (p : A → Bool) (f : A → A) (xs : List A) (y : A)
      → find p xs ≡ none
      → p y ≡ true
      → modify_first p f (xs ++ y ∷ []) ≡ xs ++ f y ∷ []
  modify_first-append p f [] y h k = ground arith
  modify_first-append p f (x ∷ xs) y h k = ground (arith, modify_first-append p f xs y)

  pub find-append_ne :
      (p : A → Bool) (xs : List A) (y : A) → p y ≡ false → find p (xs ++ y ∷ []) ≡ find p xs
  find-append_ne p [] y h = ground arith
  find-append_ne p (x ∷ xs) y h = ground (arith, find-append_ne p xs y h)

  -- A change of a row that another selection holds neither before nor after it.
  pub find-modify_first_ne :
      (p q : A → Bool) (f : A → A) (xs : List A)
      → ((x : A) → q x ≡ true → (p x ≡ false) × (p (f x) ≡ false))
      → find p (modify_first q f xs) ≡ find p xs
  find-modify_first_ne p q f [] h = refl
  find-modify_first_ne p q f (x ∷ xs) h = ground (arith, h x, find-modify_first_ne p q f xs h)

  pub count_where-modify_first :
      (p q : A → Bool) (f : A → A) (xs : List A)
      → ((x : A) → p (f x) ≡ p x)
      → count_where p (modify_first q f xs) ≡ count_where p xs
  count_where-modify_first p q f [] h = refl
  count_where-modify_first p q f (x ∷ xs) h =
      ground (arith, h x, count_where-modify_first p q f xs h)

  pub count_where-find-none : (p : A → Bool) (xs : List A) → find p xs ≡ none → count_where p xs ≡ 0
  count_where-find-none p [] h = refl
  count_where-find-none p (x ∷ xs) h = ground (arith, count_where-find-none p xs)

  take_empty : (n : ℕ) → take {A = A} n [] ≡ []
  take_empty zero = refl
  take_empty (suc n) = refl

  pub take-add : (m n : ℕ) (xs : List A) → take (m + n) xs ≡ take m xs ++ take n (drop m xs)
  take-add zero n xs = let e : zero + n ≡ n = omega arith in ap (λ k. take k xs) e
  take-add (suc m) n [] = let e = take_empty (suc m + n) in e ∙ sym (take_empty n)
  take-add (suc m) n (x ∷ xs) =
      let e : suc m + n ≡ suc (m + n) = omega arith in
      ap (λ k. take k (x ∷ xs)) e ∙ ap (λ ys. x ∷ ys) (take-add m n xs)

  pub length-take : (n : ℕ) (xs : List A) → n ≤ length xs → length (take n xs) ≡ n
  length-take zero xs h = refl
  length-take (suc n) [] h = omega arith
  length-take (suc n) (x ∷ xs) h = omega (arith, length-take n xs)

  pub length-drop : (n : ℕ) (xs : List A) → length (drop n xs) ≡ length xs - n
  length-drop zero xs = omega arith
  length-drop (suc n) [] = omega arith
  length-drop (suc n) (x ∷ xs) = omega (arith, length-drop n xs)

  pub take_all : (n : ℕ) (xs : List A) → length xs ≤ n → take n xs ≡ xs
  take_all zero [] h = refl
  take_all zero (x ∷ xs) h = absurd (omega arith)
  take_all (suc n) [] h = refl
  take_all (suc n) (x ∷ xs) h = ap (λ ys. x ∷ ys) (take_all n xs (omega arith))
