-- ===== src/Common/Count.antt =====
-- Counting the rows of a table, and what an update does to the counts.
use lftpweb.Common.{
  ◌+◌, ◌≤◌, ◌<◌, ◌≡◌, refl, Bool, true, false, ◌&&◌, not, List, [], ◌∷◌, ◌++◌, inl, inr, arith,
  count, update, Bool-cases,
}

module _ {ℓ} {A : Type ℓ} where
  pub count-append : (p : A → Bool) (xs ys : List A) → count p (xs ++ ys) ≡ count p xs + count p ys
  unfolding count
  count-append p [] ys = ground arith
  count-append p (x ∷ xs) ys = ground (arith, count-append p xs ys)

  pub count_le :
      (p q : A → Bool) (xs : List A) → ((x : A) → p x ≡ true → q x ≡ true) → count p xs ≤ count q xs
  unfolding count
  count_le p q [] h = ground arith
  count_le p q (x ∷ xs) h = ground (arith, count_le p q xs h, h x)

  pub count_split :
      (p q : A → Bool) (xs : List A)
      → count q xs ≡ count (λ x. q x && p x) xs + count (λ x. q x && not (p x)) xs
  unfolding count
  count_split p q [] = ground arith
  count_split p q (x ∷ xs) = ground (arith, count_split p q xs)

  -- An update that leaves a property of the rows it changes leaves the count.
  pub count-update_kept :
      (p q : A → Bool) (f : A → A) (xs : List A)
      → ((x : A) → p x ≡ true → q (f x) ≡ q x)
      → count q (update p f xs) ≡ count q xs
  unfolding count update
  count-update_kept p q f [] h = refl
  count-update_kept p q f (x ∷ xs) h = elim (Bool-cases (p x)) [
    | inl e ↦ rw e (ground (arith, h x e, count-update_kept p q f xs h))
    | inr e ↦ rw e (ground (arith, count-update_kept p q f xs h))
  ]

  -- An update after which the rows it changes lack the property counts no more rows than before.
  pub count-update_lost :
      (p q : A → Bool) (f : A → A) (xs : List A)
      → ((x : A) → p x ≡ true → q (f x) ≡ false)
      → count q (update p f xs) ≡ count (λ x. not (p x) && q x) xs
  unfolding count update
  count-update_lost p q f [] h = refl
  count-update_lost p q f (x ∷ xs) h = elim (Bool-cases (p x)) [
    | inl e ↦ rw e (ground (arith, h x e, count-update_lost p q f xs h))
    | inr e ↦ rw e (ground (arith, count-update_lost p q f xs h))
  ]

  -- An update whose rows all have `act`, and that leaves the property of a row with `act`, leaves the
  -- count.
  pub count-update_within :
      (p act q : A → Bool) (f : A → A) (xs : List A)
      → count (λ x. p x && not (act x)) xs ≡ 0
      → ((x : A) → p x ≡ true → act x ≡ true → q (f x) ≡ q x)
      → count q (update p f xs) ≡ count q xs
  unfolding count update
  count-update_within p act q f [] z h = refl
  count-update_within p act q f (x ∷ xs) z h = elim (Bool-cases (p x)) [
    | inl e ↦ elim (Bool-cases (act x)) [
      | inl a ↦
          let below : count (λ y. p y && not (act y)) xs ≡ 0 = ground arith in
          rw e (ground (arith, h x e a, count-update_within p act q f xs below h))
      | inr a ↦ absurd (ground arith)
    ]
    | inr e ↦
        let below : count (λ y. p y && not (act y)) xs ≡ 0 = ground arith in
        rw e (ground (arith, count-update_within p act q f xs below h))
  ]

  -- A row with `p` and `r` has the property after the update.
  pub count-update_gained :
      (p r q : A → Bool) (f : A → A) (xs : List A)
      → ((x : A) → p x ≡ true → r x ≡ true → q (f x) ≡ true)
      → count (λ x. p x && r x) xs ≤ count q (update p f xs)
  unfolding count update
  count-update_gained p r q f [] h = ground arith
  count-update_gained p r q f (x ∷ xs) h = elim (Bool-cases (p x)) [
    | inl e ↦ elim (Bool-cases (r x)) [
      | inl a ↦ rw (e, a) (ground (arith, h x e a, count-update_gained p r q f xs h))
      | inr a ↦ rw (e, a) (ground (arith, count-update_gained p r q f xs h))
    ]
    | inr e ↦ rw e (ground (arith, count-update_gained p r q f xs h))
  ]

  -- A row that is the only one with `p` and has `act`: no row with `p` lacks it.
  pub all_of_one :
      (p act : A → Bool) (xs : List A)
      → count p xs ≤ 1
      → 0 < count (λ x. p x && act x) xs
      → count (λ x. p x && not (act x)) xs ≡ 0
  all_of_one p act xs one some_act = omega (arith, count_split act p xs)
