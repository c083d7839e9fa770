-- ===== src/Permutation/Building.antt =====
-- Permutation.cc: image and inverse while the cycles are written.
use sat_symmetry.Prelude.{
  ℕ, zero, suc, ◌+◌, ◌-◌, ◌≤◌, ◌<◌, ◌≡◌, refl, arith, Bool, true, false, not, ◌&&◌, ◌==◌,
  if◌then◌else◌, Bool-cases, inl, inr, some, List, [], ◌∷◌, ◌++◌, length, get_or, length-append,
  contains, contains-append, has_key, insert_lem, has_key-insert, ltb,
}
use sat_symmetry.Literal.{Literal}
use sat_symmetry.Permutation.{
  Permutation, new_permutation, add_to_current_cycle, link, back_or_zero,
}

-- Some literals of the last cycle are written, and it is not closed.
abbrev pub is_open : Permutation → Bool
is_open p = not (back_or_zero p.cycles_lim == length p.cycles)

-- The last literal that was written, and the first one of the open cycle.
abbrev pub last_written : Permutation → Literal
last_written p = get_or p.cycles (length p.cycles - 1) 0

abbrev pub first_open : Permutation → Literal
first_open p = get_or p.cycles (back_or_zero p.cycles_lim) 0

-- Image and inverse are inverse to one another. All literals written have an image, but for the
-- last one of an open cycle, and an inverse, but for its first one.
pub record IsBuilding (p : Permutation) : Type 0 where
  pub limit : back_or_zero p.cycles_lim ≤ length p.cycles
  pub inverse_image : (e i : Literal) → p.image e ≡ some i → p.inverse i ≡ some e
  pub image_inverse : (e i : Literal) → p.inverse i ≡ some e → p.image e ≡ some i
  pub has_image :
      (e : Literal)
      → has_key p.image e ≡ (contains p.cycles e && not (is_open p && last_written p == e))
  pub has_inverse :
      (i : Literal)
      → has_key p.inverse i ≡ (contains p.cycles i && not (is_open p && first_open p == i))

pub new_permutation-IsBuilding : (n : ℕ) → IsBuilding (new_permutation n)
unfolding new_permutation
new_permutation-IsBuilding n = record {
  limit = omega arith;
  inverse_image = λ e i h. cc;
  image_inverse = λ e i h. cc;
  has_image = λ e. refl;
  has_inverse = λ i. refl;
}

pub contains-get_or : (xs : List ℕ) (i d : ℕ) → i < length xs → contains xs (get_or xs i d) ≡ true
contains-get_or [] i d h = absurd (omega arith)
contains-get_or (x ∷ xs) zero d h = ground arith
contains-get_or (x ∷ xs) (suc i) d h = ground (arith, contains-get_or xs i d)

pub get_or-append_left :
    (xs ys : List ℕ) (i d : ℕ) → i < length xs → get_or (xs ++ ys) i d ≡ get_or xs i d
get_or-append_left [] ys i d h = absurd (omega arith)
get_or-append_left (x ∷ xs) ys zero d h = refl
get_or-append_left (x ∷ xs) ys (suc i) d h = get_or-append_left xs ys i d (omega arith)

pub get_or-append_last : (xs : List ℕ) (x i d : ℕ) → i ≡ length xs → get_or (xs ++ x ∷ []) i d ≡ x
get_or-append_last [] x i d h = rw h
get_or-append_last (y ∷ xs) x zero d h = absurd (omega arith)
get_or-append_last (y ∷ xs) x (suc i) d h = get_or-append_last xs x i d (omega arith)

pub back_or_zero-append : (ns : List ℕ) (n : ℕ) → back_or_zero (ns ++ n ∷ []) ≡ n
back_or_zero-append [] n = refl
back_or_zero-append (m ∷ []) n = refl
back_or_zero-append (m ∷ k ∷ ns) n = back_or_zero-append (k ∷ ns) n

-- One new pair keeps image and inverse inverse to one another.
module _ (e i : Literal) (p : Permutation) where
  abbrev pub Inverted : Permutation → Type 0
  Inverted q =
      ((a b : Literal) → q.image a ≡ some b → q.inverse b ≡ some a)
      × ((a b : Literal) → q.inverse b ≡ some a → q.image a ≡ some b)

  pub link-Inverted :
      has_key p.image e ≡ false → has_key p.inverse i ≡ false → Inverted p → Inverted (link e i p)
  link-Inverted free_e free_i h = (
    λ a b.
        ground
          (arith, h.0 a b, h.1 a b, h.0 a i, insert_lem e a i p.image, insert_lem i b e p.inverse),
    λ a b.
        ground
          (arith, h.0 a b, h.1 a b, h.1 e b, insert_lem e a i p.image, insert_lem i b e p.inverse),
  )

module _ (x : Literal) (p : Permutation) where
  abbrev pub pushed : Permutation
  pushed = record p { cycles = p.cycles ++ x ∷ [] }

  -- The literal is linked to the one before it, unless it begins a cycle.
  pub add_lem :
      back_or_zero p.cycles_lim ≤ length p.cycles
      → add_to_current_cycle x p ≡ (if is_open p then link (last_written p) x pushed else pushed)
  unfolding add_to_current_cycle
  add_lem limit = elim (Bool-cases (is_open p)) [
    | inl opened ↦
        let before : get_or (p.cycles ++ x ∷ []) (length p.cycles - 1) 0 ≡ last_written p =
          get_or-append_left p.cycles (x ∷ []) (length p.cycles - 1) 0 (ground arith) in
        let added = get_or-append_last p.cycles x (length p.cycles) 0 refl in
        rw (test, opened, before, added)
    | inr closed ↦ rw (test, closed)
  ]
    where
      test :
          (ltb 0 (length (p.cycles ++ x ∷ []))
            && not (length p.cycles == back_or_zero p.cycles_lim))
          ≡ is_open p
      test = ground (arith, length-append p.cycles (x ∷ []))

  module _ (new : contains p.cycles x ≡ false) (h : IsBuilding p) where
    push-facts :
        (length (p.cycles ++ x ∷ []) ≡ length p.cycles + 1)
        × (last_written pushed ≡ x)
        × (is_open pushed ≡ true)
    push-facts =
        let size = length-append p.cycles (x ∷ []) in
        (
          omega (arith, size),
          get_or-append_last p.cycles x (length (p.cycles ++ x ∷ []) - 1) 0 (omega (arith, size)),
          ground (arith, size, h.limit),
        )

    closed-IsBuilding : is_open p ≡ false → IsBuilding pushed
    closed-IsBuilding closed = record {
      limit = omega (arith, push-facts, h.limit);
      inverse_image = h.inverse_image;
      image_inverse = h.image_inverse;
      has_image =
          λ e. ground (arith, h.has_image e, contains-append p.cycles (x ∷ []) e, push-facts);
      has_inverse = λ i. ground (
        arith,
        h.has_inverse i,
        contains-append p.cycles (x ∷ []) i,
        push-facts,
        get_or-append_last p.cycles x (back_or_zero p.cycles_lim) 0,
      );
    }

    open-IsBuilding : is_open p ≡ true → IsBuilding (link (last_written p) x pushed)
    open-IsBuilding opened =
        let last_in = contains-get_or p.cycles (length p.cycles - 1) 0 (ground (arith, h.limit)) in
        let both =
          link-Inverted (last_written p) x pushed (ground (arith, h.has_image (last_written p)))
            (ground (arith, h.has_inverse x)) (h.inverse_image, h.image_inverse) in
        record {
          limit = omega (arith, push-facts, h.limit);
          inverse_image = both.0;
          image_inverse = both.1;
          has_image = λ e. ground (
            arith,
            h.has_image e,
            contains-append p.cycles (x ∷ []) e,
            push-facts,
            last_in,
            has_key-insert (last_written p) e x p.image,
          );
          has_inverse = λ i. ground (
            arith,
            h.has_inverse i,
            contains-append p.cycles (x ∷ []) i,
            push-facts,
            has_key-insert x i (last_written p) p.inverse,
            get_or-append_left p.cycles (x ∷ []) (back_or_zero p.cycles_lim) 0,
            contains-get_or p.cycles (back_or_zero p.cycles_lim) 0,
          );
        }

    -- A literal that was not written yet may be added.
    pub add-IsBuilding : IsBuilding (add_to_current_cycle x p)
    add-IsBuilding = elim (Bool-cases (is_open p)) [
      | inl opened ↦ rw (add_lem h.limit, opened) (open-IsBuilding opened)
      | inr closed ↦ rw (add_lem h.limit, closed) (closed-IsBuilding closed)
    ]
