-- ===== src/Space/Count.antt =====
-- How often page tables map a page: the `pagemap` of src/process.js, counted.
use noopsys.Base.{
  ℕ, zero, suc, ◌+◌, ◌≤◌, ◌<◌, ◌≡◌, ◌≢◌, refl, Bool, true, false, arith, ◌==◌, update,
}

abbrev pub one_if : Bool → ℕ
one_if true = 1
one_if false = 0

-- The number of `i < n` with `f i ≡ p`.
unfoldable pub mapped : ℕ → (ℕ → ℕ) → ℕ → ℕ
mapped zero f p = 0
mapped (suc n) f p = one_if (f n == p) + mapped n f p

pub mapped-update_above :
    (n : ℕ) (f : ℕ → ℕ) (k q p : ℕ) → n ≤ k → mapped n (update f k q) p ≡ mapped n f p
unfolding mapped
mapped-update_above zero f k q p h = refl
mapped-update_above (suc n) f k q p h = ground (arith, mapped-update_above n f k q p)

-- Remapping one entry moves one reference.
pub mapped-update :
    (n : ℕ) (f : ℕ → ℕ) (k q p : ℕ)
    → k < n
    → mapped n (update f k q) p + one_if (f k == p) ≡ mapped n f p + one_if (q == p)
unfolding mapped
mapped-update zero f k q p h = absurd (omega arith)
mapped-update (suc n) f k q p h =
    ground (arith, mapped-update n f k q p, mapped-update_above n f k q p)

pub mapped-pos : (n : ℕ) (f : ℕ → ℕ) (i : ℕ) → i < n → 1 ≤ mapped n f (f i)
unfolding mapped
mapped-pos zero f i h = absurd (omega arith)
mapped-pos (suc n) f i h = ground (arith, mapped-pos n f i)

-- Two entries that map one page count twice.
pub mapped_two :
    (n : ℕ) (f : ℕ → ℕ) (i j : ℕ) → i < n → j < n → i ≢ j → f i ≡ f j → 2 ≤ mapped n f (f i)
unfolding mapped
mapped_two zero f i j hi hj ne e = absurd (omega arith)
mapped_two (suc n) f i j hi hj ne e =
    ground (arith, mapped_two n f i j, mapped-pos n f i, mapped-pos n f j)

pub mapped-none : (n p : ℕ) → p ≢ 0 → mapped n (λ _. 0) p ≡ 0
unfolding mapped
mapped-none zero p h = refl
mapped-none (suc n) p h = ground (arith, mapped-none n p h)

-- What lies behind the entries of a table does not count.
pub mapped-beyond :
    (n k : ℕ) (f : ℕ → ℕ) (o : ℕ)
    → o ≢ 0
    → ((i : ℕ) → n ≤ i → f i ≡ 0)
    → mapped (k + n) f o ≡ mapped n f o
unfolding mapped
mapped-beyond n zero f o some_o tidy = let e : 0 + n ≡ n = omega arith in rw e refl
mapped-beyond n (suc k) f o some_o tidy =
    let e : suc k + n ≡ suc (k + n) = omega arith in
    let last : f (k + n) ≡ 0 = tidy (k + n) (omega arith) in
    rw e (ground (arith, mapped-beyond n k f o some_o tidy))
