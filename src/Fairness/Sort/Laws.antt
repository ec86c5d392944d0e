-- ===== src/Fairness/Sort/Laws.antt =====
-- Sorting keeps what does not depend on the order, and orders; `unique` keeps the members; ranks by
-- `lower_bound` compare as the values do.
use ispass2026_concurrent_qu.Common.{
  ℕ, suc, length, ◌≤◌, ◌≡◌, refl, ap, ◌∙◌, ◌⊎◌, inl, inr, List, [], ◌∷◌, Bool, true, ◌==◌, All, In,
  arith, Bool-cases, ==_iff,
}
use ispass2026_concurrent_qu.Fairness.Sort.{insert_before, stable_sort, keep_new, unique}

second_first : {P Q R S : Type 0} → (P ⊎ R → S) → P ⊎ (Q ⊎ R) → Q ⊎ S
second_first f (inl p) = inr (f (inl p))
second_first f (inr (inl q)) = inl q
second_first f (inr (inr r)) = inr (f (inr r))

map_second : {P R S : Type 0} → (R → S) → P ⊎ R → P ⊎ S
map_second f (inl p) = inl p
map_second f (inr r) = inr (f r)

-- A fold from the right.
abbrev pub gather {ℓ κ} : {A : Type ℓ} {B : Type κ} → (A → B → B) → B → List A → B
gather op e [] = e
gather op e (x ∷ xs) = op x (gather op e xs)

module _ {A B : Type 0} (less : A → A → Bool) (op : A → B → B) (e : B)
    (swap : (x y : A) (b : B) → op x (op y b) ≡ op y (op x b)) where
  gather-insert_before :
      (x : A) (l : List A) → gather op e (insert_before less x l) ≡ op x (gather op e l)
  unfolding insert_before
  gather-insert_before x [] = refl
  gather-insert_before x (y ∷ ys) = elim (Bool-cases (less y x)) [
    | inl below ↦ rw below (ap (op y) (gather-insert_before x ys) ∙ swap y x (gather op e ys))
    | inr other ↦ rw other
  ]

  -- A fold that does not depend on the order is the same after sorting.
  pub gather-stable_sort : (l : List A) → gather op e (stable_sort less l) ≡ gather op e l
  unfolding stable_sort
  gather-stable_sort [] = refl
  gather-stable_sort (x ∷ xs) =
      gather-insert_before x (stable_sort less xs) ∙ ap (op x) (gather-stable_sort xs)

module _ {A : Type 0} (less : A → A → Bool) where
  All-insert_before :
      (P : A → Type 0) (x : A) (l : List A) → P x → All P l → All P (insert_before less x l)
  unfolding insert_before
  All-insert_before P x [] px pl = (px, tt)
  All-insert_before P x (y ∷ ys) px pl = elim (Bool-cases (less y x)) [
    | inl below ↦ rw below (pl.0, All-insert_before P x ys px pl.1)
    | inr other ↦ rw other (px, pl)
  ]

  pub All-stable_sort : (P : A → Type 0) (l : List A) → All P l → All P (stable_sort less l)
  unfolding stable_sort
  All-stable_sort P [] h = tt
  All-stable_sort P (x ∷ xs) h =
      All-insert_before P x (stable_sort less xs) h.0 (All-stable_sort P xs h.1)

  In-insert_before : (v x : A) (l : List A) → (v ≡ x) ⊎ In v l → In v (insert_before less x l)
  unfolding insert_before
  In-insert_before v x [] h = h
  In-insert_before v x (y ∷ ys) h = elim (Bool-cases (less y x)) [
    | inl below ↦ rw below (second_first (λ q. In-insert_before v x ys q) h)
    | inr other ↦ rw other h
  ]

  pub In-stable_sort : (v : A) (l : List A) → In v l → In v (stable_sort less l)
  unfolding stable_sort
  In-stable_sort v [] h = h
  In-stable_sort v (x ∷ xs) (inl p) = In-insert_before v x (stable_sort less xs) (inl p)
  In-stable_sort v (x ∷ xs) (inr p) =
      In-insert_before v x (stable_sort less xs) (inr (In-stable_sort v xs p))

-- Ascending by a key.
abbrev pub IsAscending {ℓ} : {A : Type ℓ} → (A → ℕ) → List A → Type 0
IsAscending key [] = Unit
IsAscending key (x ∷ xs) = All (λ y. key x ≤ key y) xs × IsAscending key xs

module _ {A : Type 0} (less : A → A → Bool) (key : A → ℕ)
    (less_key : (x y : A) → less x y ≡ true → key x ≤ key y)
    (not_less_key : (x y : A) → less x y ≡ Bool.false → key y ≤ key x) where
  All-le : (a b : ℕ) (l : List A) → a ≤ b → All (λ y. b ≤ key y) l → All (λ y. a ≤ key y) l
  All-le a b [] h k = tt
  All-le a b (x ∷ xs) h k = (omega (arith, k.0), All-le a b xs h k.1)

  insert_before-IsAscending :
      (x : A) (l : List A) → IsAscending key l → IsAscending key (insert_before less x l)
  unfolding insert_before
  insert_before-IsAscending x [] h = (tt, tt)
  insert_before-IsAscending x (y ∷ ys) h = elim (Bool-cases (less y x)) [
    | inl below ↦ rw below (
      All-insert_before less (λ z. key y ≤ key z) x ys (less_key y x below) h.0,
      insert_before-IsAscending x ys h.1,
    )
    | inr other ↦
        rw other
          ((not_less_key y x other, All-le (key x) (key y) ys (not_less_key y x other) h.0), h)
  ]

  pub stable_sort-IsAscending : (l : List A) → IsAscending key (stable_sort less l)
  unfolding stable_sort
  stable_sort-IsAscending [] = tt
  stable_sort-IsAscending (x ∷ xs) =
      insert_before-IsAscending x (stable_sort less xs) (stable_sort-IsAscending xs)

In-keep_new : (v x : ℕ) (l : List ℕ) → (v ≡ x) ⊎ In v l → In v (keep_new x l)
unfolding keep_new
In-keep_new v x [] h = h
In-keep_new v x (y ∷ ys) h = elim (Bool-cases (x == y)) [
  | inl same ↦ rw same (In-keep_new v x ys (merged ((==_iff x y).0 same) h))
  | inr other ↦ rw other (map_second (λ q. In-keep_new v y ys q) h)
]
  where
    merged : x ≡ y → (v ≡ x) ⊎ In v (y ∷ ys) → (v ≡ x) ⊎ In v ys
    merged e (inl p) = inl p
    merged e (inr (inl p)) = inl (cc)
    merged e (inr (inr p)) = inr p

pub In-unique : (v : ℕ) (l : List ℕ) → In v l → In v (unique l)
unfolding unique
In-unique v [] h = h
In-unique v (x ∷ xs) h = In-keep_new v x xs h

All-keep_new : (P : ℕ → Type 0) (x : ℕ) (l : List ℕ) → P x → All P l → All P (keep_new x l)
unfolding keep_new
All-keep_new P x [] px pl = (px, tt)
All-keep_new P x (y ∷ ys) px pl = elim (Bool-cases (x == y)) [
  | inl same ↦ rw same (All-keep_new P x ys px pl.1)
  | inr other ↦ rw other (px, All-keep_new P y ys pl.0 pl.1)
]

keep_new-IsAscending :
    (x : ℕ) (l : List ℕ) → IsAscending (λ n. n) (x ∷ l) → IsAscending (λ n. n) (keep_new x l)
unfolding keep_new
keep_new-IsAscending x [] h = h
keep_new-IsAscending x (y ∷ ys) h = elim (Bool-cases (x == y)) [
  | inl same ↦ rw same (keep_new-IsAscending x ys (h.0.1, h.1.1))
  | inr other ↦ rw other (All-keep_new (λ n. x ≤ n) y ys h.0.0 h.0.1, keep_new-IsAscending y ys h.1)
]

pub unique-IsAscending : (l : List ℕ) → IsAscending (λ n. n) l → IsAscending (λ n. n) (unique l)
unfolding unique
unique-IsAscending [] h = h
unique-IsAscending (x ∷ xs) h = keep_new-IsAscending x xs h

length-keep_new : (x : ℕ) (l : List ℕ) → length (keep_new x l) ≤ suc (length l)
unfolding keep_new
length-keep_new x [] = omega arith
length-keep_new x (y ∷ ys) = ground (arith, length-keep_new x ys, length-keep_new y ys)

pub length-unique : (l : List ℕ) → length (unique l) ≤ length l
unfolding unique
length-unique [] = omega arith
length-unique (x ∷ xs) = length-keep_new x xs
