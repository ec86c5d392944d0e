-- ===== src/Common/Family.antt =====
-- Families indexed by thread: an update at one index.
use Prim.Native.Nat.{ℕ}
use mathlib.Core.Path.{◌≡◌, refl, sym, subst, ap, ◌∙◌}
use mathlib.Core.Logic.{◌≢◌, ite, if_pos, if_neg}
use native.Mathlib.Decide.{ℕ_discrete}

abbrev pub update {ℓ} : {A : Type ℓ} → (ℕ → A) → ℕ → A → ℕ → A
update f i a j = ite (ℕ_discrete i j) a (f j)

pub update_here {ℓ} : {A : Type ℓ} (f : ℕ → A) (i : ℕ) (a : A) → update f i a i ≡ a
update_here f i a = if_pos (ℕ_discrete i i) refl a (f i)

pub update_there {ℓ} :
    {A : Type ℓ} (f : ℕ → A) (i : ℕ) (a : A) (j : ℕ) → i ≢ j → update f i a j ≡ f j
update_there f i a j ne = if_neg (ℕ_discrete i j) ne a (f j)

-- A property of an updated family at `j`: of the new value if `j` is the index, else of the old.
pub update_elim {ℓ κ} :
    {A : Type ℓ} (P : A → Type κ) (f : ℕ → A) (i : ℕ) (a : A) (j : ℕ)
    → (i ≡ j → P a)
    → (i ≢ j → P (f j))
    → P (update f i a j)
update_elim P f i a j here there = elim (ℕ_discrete i j) [
  | yes p ↦ rw (if_pos (ℕ_discrete i j) p) (here p)
  | no p ↦ rw (if_neg (ℕ_discrete i j) p) (there p)
]

-- The same for three families that are updated at one index.
pub update_elim_three {ℓ κ μ ν} :
    {A : Type ℓ} {B : Type κ} {C : Type μ} (P : A → B → C → Type ν) (f : ℕ → A) (g : ℕ → B)
    (h : ℕ → C) (i : ℕ) (a : A) (b : B) (c : C) (j : ℕ)
    → (i ≡ j → P a b c)
    → (i ≢ j → P (f j) (g j) (h j))
    → P (update f i a j) (update g i b j) (update h i c j)
update_elim_three P f g h i a b c j here there =
    update_elim (λ x. P x (update g i b j) (update h i c j)) f i a j
      (λ e.
        update_elim (λ y. P a y (update h i c j)) g i b j
          (λ _. update_elim (P a b) h i c j here (λ ne. absurd (ne e))) (λ ne. absurd (ne e)))
      (λ ne.
        update_elim (λ y. P (f j) y (update h i c j)) g i b j (λ e. absurd (ne e))
          (λ _. update_elim (P (f j) (g j)) h i c j (λ e. absurd (ne e)) there))

-- The same for a family of two indices that is updated at one place.
pub update_two_elim {ℓ κ} :
    {A : Type ℓ} (P : A → Type κ) (f : ℕ → ℕ → A) (i j : ℕ) (a : A) (i' j' : ℕ)
    → (i ≡ i' → j ≡ j' → P a)
    → ((i ≡ i' → j ≢ j') → P (f i' j'))
    → P (update f i (update (f i) j a) i' j')
update_two_elim P f i j a i' j' here there =
    update_elim (λ h. P (h j')) f i (update (f i) j a) i'
      (λ e.
        update_elim P (f i) j a j' (here e)
          (λ ne. subst (λ m. P (f m j')) (sym e) (there (λ _. ne))))
      (λ ne. there (λ e. absurd (ne e)))

-- Member `j` moves from `x` to `a`, and member `i`, which was `y`, is `z` after: then `y` is `z`, or
-- `i` is the one that moved.
pub update_moved {ℓ κ} :
    {A : Type ℓ} {R : Type κ} (f : ℕ → A) (i j : ℕ) {x y z : A} (a : A)
    → f j ≡ x
    → f i ≡ y
    → update f j a i ≡ z
    → (y ≡ z → R)
    → (j ≡ i → x ≡ y → a ≡ z → R)
    → R
update_moved {A} {R} f i j {x} {y} {z} a was at now stay move =
    update_elim (λ q. q ≡ z → R) f j a i (λ e q. move e (sym was ∙ ap f e ∙ at) q)
      (λ _ q. stay (sym at ∙ q)) now
