-- ===== src/Descriptors/Refs.antt =====
-- The reference counters of pipes (`refs` of src/noopfs.js), counted up and down.
use noopsys.Base.{ℕ, ◌+◌, ◌-◌, ◌≤◌, ◌≡◌, ◌≢◌, refl, arith, ◌==◌, inl, inr, Bool-cases, update}
use noopsys.Base.Result.{ok}
use noopsys.Space.Count.{one_if}
use noopsys.Descriptors.{
  Kind, writer, reader, terminal, file, Objects, set_kind, add_object, counted_up, add_ref,
  close_kind, close_object,
}
use noopsys.Descriptors.Count.{IsCounted}

counted_up-writer :
    (k : Kind) (refs : ℕ) → counted_up k ≡ writer refs → (r : ℕ) × (k ≡ writer r) × (refs ≡ r + 1)
unfolding counted_up
counted_up-writer (writer r) refs e = (r, refl, ground arith)
counted_up-writer reader refs e = absurd (cc)
counted_up-writer terminal refs e = absurd (cc)
counted_up-writer (file n p) refs e = absurd (cc)

pub add_ref-IsCounted :
    (os : Objects) (held held' : ℕ → ℕ) (o : ℕ)
    → o ≢ 0
    → 1 ≤ held o
    → ((x : ℕ) → x ≢ 0 → held' x ≡ held x + one_if (o == x))
    → IsCounted os held
    → IsCounted (add_ref o os) held'
unfolding add_ref set_kind
add_ref-IsCounted os held held' o some_o used more c = record {
  counted = λ x refs some_x is_writer. elim (Bool-cases (x == o)) [
    | inl e ↦
        let same : x ≡ o = ground arith in
        let (r, was, is_more) = counted_up-writer (os.kinds o) refs (ground arith) in
        ground (arith, more x some_x, c.counted o r some_o was)
    | inr e ↦ ground (arith, more x some_x, c.counted x refs some_x)
  ];
  fresh = λ x h. ground (arith, more x, c.fresh x h, c.fresh o, c.some_next);
  some_next = c.some_next;
}

-- A descriptor's object can be closed: its counter is not 0.
pub close_object-IsCounted :
    (os : Objects) (held held' : ℕ → ℕ) (o : ℕ)
    → o ≢ 0
    → ((x : ℕ) → x ≢ 0 → held' x + one_if (o == x) ≡ held x)
    → IsCounted os held
    → (os' : Objects) × (close_object o os ≡ ok os') × IsCounted os' held'
unfolding close_object set_kind
close_object-IsCounted os held held' o some_o less c = go (os.kinds o) refl
  where
    kept :
        (k k' : Kind)
        → os.kinds o ≡ k
        → ((refs : ℕ) → k' ≡ writer refs → refs ≡ held' o)
        → IsCounted (record os { kinds = update os.kinds o k' }) held'
    kept k k' e value = record {
      counted = λ x refs some_x is_writer. elim (Bool-cases (x == o)) [
        | inl same ↦ let s : x ≡ o = ground arith in ground (arith, value refs)
        | inr other ↦ ground (arith, less x some_x, c.counted x refs some_x)
      ];
      fresh = λ x h. ground (arith, less x, c.fresh x h, c.some_next);
      some_next = c.some_next;
    }

    closed :
        (k k' : Kind)
        → os.kinds o ≡ k
        → close_kind k ≡ ok k'
        → close_object o os ≡ ok (record os { kinds = update os.kinds o k' })
    closed k k' e h = let h' : close_kind (os.kinds o) ≡ ok k' = rw e h in ground arith

    go :
        (k : Kind)
        → os.kinds o ≡ k
        → (os' : Objects) × (close_object o os ≡ ok os') × IsCounted os' held'
    go (writer r) e =
        let one : held' o + 1 ≡ held o = ground (arith, less o some_o) in
        let is_r : r ≡ held o = c.counted o r some_o e in
        (
          _,
          closed (writer r) (writer (r - 1)) e (unfold close_kind in ground arith),
          kept (writer r) (writer (r - 1)) e (λ refs h. ground arith),
        )
    go reader e = (
      _,
      closed reader reader e (unfold close_kind in refl),
      kept reader reader e (λ refs h. absurd (cc)),
    )
    go terminal e = (
      _,
      closed terminal terminal e (unfold close_kind in refl),
      kept terminal terminal e (λ refs h. absurd (cc)),
    )
    go (file n p) e = (
      _,
      closed (file n p) (file n p) e (unfold close_kind in refl),
      kept (file n p) (file n p) e (λ refs h. absurd (cc)),
    )

-- A new object of a kind without a counter, or a writer whose counter is right.
pub add_object-IsCounted :
    (os : Objects) (held held' : ℕ → ℕ) (k : Kind)
    → ((refs : ℕ) → k ≡ writer refs → refs ≡ held' os.next)
    → ((x : ℕ) → x ≢ 0 → x ≢ os.next → held' x ≡ held x)
    → IsCounted os held
    → IsCounted (add_object k os) held'
unfolding add_object
add_object-IsCounted os held held' k right same c = record {
  counted = λ x refs some_x is_writer. elim (Bool-cases (x == os.next)) [
    | inl e ↦ let s : x ≡ os.next = ground arith in ground (arith, right refs)
    | inr e ↦ ground (arith, same x some_x, c.counted x refs some_x)
  ];
  fresh = λ x h. omega (
    arith,
    same x (λ z. ground (arith, c.some_next)) (λ z. ground arith),
    c.fresh x (omega arith),
  );
  some_next = omega arith;
}
