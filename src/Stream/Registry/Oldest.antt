-- ===== src/Stream/Registry/Oldest.antt =====
-- The sealed streams that `StreamRegistry::open` of crates/tinybus/src/stream/mod.rs removes: those
-- that it takes from the sorted list are entries of the table, each once.
use tinybus.Prelude.{
  ℕ, zero, suc, ◌≡◌, refl, ap, ◌∙◌, inl, inr, Bool, false, none, some, [], ◌∷◌, arith, Map, get,
  remove, get-remove, IsDistinct, leb, nat_eq, ◌==◌, eq_iff, eq_refl, Bool-cases, list_eq, length,
  take, filter, All,
}
use tinybus.Text.{Str}
use tinybus.Stream.Registry.{insert_by, sort_by_key}

module _ (key : Str × ℕ → ℕ) where
  length-insert_by : (x : Str × ℕ) (ys : Map Str ℕ) → length (insert_by key x ys) ≡ suc (length ys)
  unfolding insert_by
  length-insert_by x [] = refl
  length-insert_by x (y ∷ ys) = ground (arith, length-insert_by x ys)

  pub length-sort_by_key : (xs : Map Str ℕ) → length (sort_by_key key xs) ≡ length xs
  unfolding sort_by_key
  length-sort_by_key [] = refl
  length-sort_by_key (x ∷ xs) =
      length-insert_by x (sort_by_key key xs) ∙ ap suc (length-sort_by_key xs)

  insert_by-absent :
      (k j : Str) (a : ℕ) (ys : Map Str ℕ)
      → get ys k ≡ none
      → (j == k) ≡ false
      → get (insert_by key (j, a) ys) k ≡ none
  unfolding insert_by get
  insert_by-absent k j a [] h n = ground (arith, h, n)
  insert_by-absent k j a ((i, b) ∷ ys) h n = ground (arith, h, n, insert_by-absent k j a ys)

  insert_by-IsDistinct :
      (j : Str) (a : ℕ) (ys : Map Str ℕ)
      → get ys j ≡ none
      → IsDistinct ys
      → IsDistinct (insert_by key (j, a) ys)
  unfolding insert_by get
  insert_by-IsDistinct j a [] h d = (h, tt)
  insert_by-IsDistinct j a ((i, b) ∷ ys) h (e, d) =
      elim (Bool-cases (leb (key (j, a)) (key (i, b)))) [
        | inl y ↦ rw y (h, (e, d))
        | inr n ↦ rw n (
          insert_by-absent i j a ys e (ground (arith, h, eq_iff i j, eq_iff j i)),
          insert_by-IsDistinct j a ys (ground (arith, h)) d,
        )
      ]

  sort_by_key-absent :
      (k : Str) (xs : Map Str ℕ) → get xs k ≡ none → get (sort_by_key key xs) k ≡ none
  unfolding sort_by_key get
  sort_by_key-absent k [] h = h
  sort_by_key-absent k ((j, a) ∷ xs) h =
      insert_by-absent k j a (sort_by_key key xs) (sort_by_key-absent k xs (ground (arith, h)))
        (ground (arith, h))

  pub sort_by_key-IsDistinct : (xs : Map Str ℕ) → IsDistinct xs → IsDistinct (sort_by_key key xs)
  unfolding sort_by_key
  sort_by_key-IsDistinct [] h = tt
  sort_by_key-IsDistinct ((j, a) ∷ xs) (e, d) =
      insert_by-IsDistinct j a (sort_by_key key xs) (sort_by_key-absent j xs e)
        (sort_by_key-IsDistinct xs d)

  insert_by-All :
      (P : Str × ℕ → Type 0) (x : Str × ℕ) (ys : Map Str ℕ)
      → P x
      → All P ys
      → All P (insert_by key x ys)
  unfolding insert_by
  insert_by-All P x [] p h = (p, tt)
  insert_by-All P x (y ∷ ys) p (q, h) = elim (Bool-cases (leb (key x) (key y))) [
    | inl e ↦ rw e (p, (q, h))
    | inr e ↦ rw e (q, insert_by-All P x ys p h)
  ]

  pub sort_by_key-All :
      (P : Str × ℕ → Type 0) (xs : Map Str ℕ) → All P xs → All P (sort_by_key key xs)
  unfolding sort_by_key
  sort_by_key-All P [] h = tt
  sort_by_key-All P (x ∷ xs) (p, h) =
      insert_by-All P x (sort_by_key key xs) p (sort_by_key-All P xs h)

pub take-All : (P : Str × ℕ → Type 0) (n : ℕ) (xs : Map Str ℕ) → All P xs → All P (take n xs)
take-All P zero xs h = tt
take-All P (suc n) [] h = tt
take-All P (suc n) (x ∷ xs) (p, h) = (p, take-All P n xs h)

take-absent : (n : ℕ) (k : Str) (xs : Map Str ℕ) → get xs k ≡ none → get (take n xs) k ≡ none
unfolding get
take-absent zero k xs h = refl
take-absent (suc n) k [] h = refl
take-absent (suc n) k ((j, a) ∷ xs) h = ground (arith, h, take-absent n k xs)

pub take-IsDistinct : (n : ℕ) (xs : Map Str ℕ) → IsDistinct xs → IsDistinct (take n xs)
take-IsDistinct zero xs h = tt
take-IsDistinct (suc n) [] h = tt
take-IsDistinct (suc n) ((j, a) ∷ xs) (e, d) = (take-absent n j xs e, take-IsDistinct n xs d)

filter-absent :
    (p : Str × ℕ → Bool) (k : Str) (xs : Map Str ℕ) → get xs k ≡ none → get (filter p xs) k ≡ none
unfolding get
filter-absent p k [] h = refl
filter-absent p k ((j, a) ∷ xs) h = ground (arith, h, filter-absent p k xs)

pub filter-IsDistinct :
    (p : Str × ℕ → Bool) (xs : Map Str ℕ) → IsDistinct xs → IsDistinct (filter p xs)
filter-IsDistinct p [] h = tt
filter-IsDistinct p ((j, a) ∷ xs) (e, d) = elim (Bool-cases (p (j, a))) [
  | inl y ↦ rw y (filter-absent p j xs e, filter-IsDistinct p xs d)
  | inr n ↦ rw n (filter-IsDistinct p xs d)
]

-- Each entry of a table is what is found under its key.
abbrev pub IsListed : Map Str ℕ → Str × ℕ → Type 0
IsListed m (k, a) = get m k ≡ some a

cons-IsListed :
    (m rest : Map Str ℕ) (k : Str) (a : ℕ)
    → get rest k ≡ none
    → All (IsListed m) rest
    → All (IsListed ((k, a) ∷ m)) rest
unfolding get
cons-IsListed m [] k a h l = tt
cons-IsListed m ((j, b) ∷ rest) k a h (e, l) =
    (ground (arith, e, h, eq_iff k j, eq_iff j k), cons-IsListed m rest k a (ground (arith, h)) l)

pub All-IsListed : (m : Map Str ℕ) → IsDistinct m → All (IsListed m) m
unfolding get
All-IsListed [] h = tt
All-IsListed ((k, a) ∷ m) (e, d) =
    (ground (arith, eq_refl k), cons-IsListed m m k a e (All-IsListed m d))

pub remove-IsListed :
    (m rest : Map Str ℕ) (k : Str)
    → get rest k ≡ none
    → All (IsListed m) rest
    → All (IsListed (remove m k)) rest
unfolding get
remove-IsListed m [] k h l = tt
remove-IsListed m ((j, b) ∷ rest) k h (e, l) = (
  ground (arith, e, h, eq_iff k j, eq_iff j k, get-remove m k j),
  remove-IsListed m rest k (ground (arith, h)) l,
)
