-- ===== src/Space/Kept.antt =====
-- The accessors of src/process.js as steps of one process, and what they keep for the others.
use noopsys.Base.{
  ℕ, ◌/◌, ◌%◌, ◌<◌, ◌≡◌, ◌≢◌, refl, ◌∙◌, Bool, true, false, some, List, [], ◌∷◌, arith, get_elem?,
  ◌==◌, inl, inr, Bool-cases,
}
use noopsys.Base.Int.{ℤ, pos, ◌+ℤ◌, to_uint32}
use noopsys.Base.Word.{◌>>>◌}
use noopsys.Base.Result.{Result, ok, err}
use noopsys.Base.Seal.{
  Keeps, ◌>>=◌, ◌>>◌, modify, Keeps-pure, Keeps-gets, Keeps-if, Keeps->>=, Keeps->>,
}
use noopsys.Space.{Vm, Space, Access, read, write}
use noopsys.Space.Translate.{translate}
use noopsys.Space.Accessors.{
  read8, read16, read32, write8, write16, write32, store32, stored, stored_word, copy_to_user,
}
use noopsys.Space.Safe.{local_pages, IsSafe, view}
use noopsys.Space.Coherent.{IsTranslated, translate-IsTranslated}
use noopsys.Space.Isolation.{
  IsSole, open_page-IsSole, write8-IsByteStore, stored-IsSafe, stored-other, stored_word-IsSafe,
  stored_word-other,
}

module _ (others : List Vm) where
  -- What a process does to its space leaves the others alone.
  pub record Kept (s s' : Space) : Type 0 where
    pub safe : IsSafe s'.phys (s'.vm ∷ others)
    pub other :
        (k : ℕ) (vm : Vm) (a : ℕ)
        → get_elem? others k ≡ some vm
        → a / 65536 < local_pages
        → vm.pagemap (a / 65536) ≢ 0
        → view s'.phys vm a ≡ view s.phys vm a

  abbrev pub IsolatedFrom : Space → Space → Type 0
  IsolatedFrom s s' = IsSafe s.phys (s.vm ∷ others) → Kept s s'

  pub isolated_refl : (s : Space) → IsolatedFrom s s
  isolated_refl s safe = record { safe = safe; other = λ k vm a g r m. refl }

  pub isolated_trans : (s t u : Space) → IsolatedFrom s t → IsolatedFrom t u → IsolatedFrom s u
  isolated_trans s t u first then_rest safe =
      let f = first safe in
      let g = then_rest f.safe in
      record { safe = g.safe; other = λ k vm a e r m. g.other k vm a e r m ∙ f.other k vm a e r m }

  pub translate-Kept : (addr : ℤ) (access : Access) → Keeps IsolatedFrom (translate addr access)
  translate-Kept addr access = record {
    holds = λ s s' at h safe.
        let d = translate-IsTranslated others access addr at s s' safe h in
        record { safe = d.safe; other = λ k vm a e r m. (d.other k vm e a r m).1 };
  }

  pub read8-Kept : (addr : ℤ) → Keeps IsolatedFrom (read8 addr)
  unfolding read8
  read8-Kept addr =
      Keeps->>= IsolatedFrom isolated_refl isolated_trans (translate-Kept addr read)
        (λ at. Keeps-gets IsolatedFrom isolated_refl isolated_trans (λ s. s.phys.mem at))

  pub write8-Kept : (addr : ℤ) (v : ℕ) → Keeps IsolatedFrom (write8 addr v)
  write8-Kept addr v = record {
    holds = λ s s' u h safe.
        let b = write8-IsByteStore others addr v s s' safe h in
        record { safe = b.safe; other = b.other };
  }

  pub read16-Kept : (addr : ℤ) → Keeps IsolatedFrom (read16 addr)
  unfolding read16
  read16-Kept addr =
      search (Keeps->>=, Keeps-pure, isolated_refl, isolated_trans, read8-Kept) depth 8

  pub read32-Kept : (addr : ℤ) → Keeps IsolatedFrom (read32 addr)
  unfolding read32
  read32-Kept addr =
      search
        (
          Keeps->>=, Keeps-pure, Keeps-gets, Keeps-if, isolated_refl, isolated_trans, read8-Kept,
          translate-Kept,
        )
        depth 12

  pub write16-Kept : (addr : ℤ) (v : ℕ) → Keeps IsolatedFrom (write16 addr v)
  unfolding write16
  write16-Kept addr v = search (Keeps->>, isolated_refl, isolated_trans, write8-Kept) depth 8

  -- The three bytes that an unaligned word store leaves to `write8`.
  tail_bytes-Kept :
      (a b c : ℤ) (u v w : ℕ) → Keeps IsolatedFrom (write8 a u >> (write8 b v >> write8 c w))
  tail_bytes-Kept a b c u v w =
      search (Keeps->>, isolated_refl, isolated_trans, write8-Kept) depth 8

  module _ (n at : ℕ) (s t : Space) (d : IsTranslated others write n at s t) where
    only : IsSole others t (t.vm.pagemap (n / 65536))
    only = open_page-IsSole others (t.vm.pagemap (n / 65536)) t d.safe d.present (d.writable refl)

    stored-Kept : (v : ℕ) → Kept t (stored at v t)
    stored-Kept v = record {
      safe = stored-IsSafe others n at v t d.safe d.in_range d.present d.address only;
      other = λ k vm a e r m.
          stored-other others n at v t d.safe d.in_range d.present d.address only k vm a e r;
    }

    stored_word-Kept : (w : ℕ) → Kept t (stored_word (at / 4) w t)
    stored_word-Kept w = record {
      safe = stored_word-IsSafe others n at w t d.safe d.in_range d.present d.address only w;
      other = λ k vm a e r m.
          stored_word-other others n at w t d.safe d.in_range d.present d.address only w k vm a e r;
    }

  store32-Kept :
      (addr : ℤ) (v at : ℕ) (s t u : Space)
      → IsTranslated others write (to_uint32 addr) at s t
      → store32 addr v at t ≡ ok (tt, u)
      → IsolatedFrom t u
  unfolding store32 modify ◌>>◌
  store32-Kept addr v at s t u d h = elim (Bool-cases (to_uint32 addr % 4 == 0)) [
    | inl one_word ↦ λ safe.
        let e : stored_word (at / 4) v t ≡ u = ground arith in
        rw (← e) (stored_word-Kept (to_uint32 addr) at s t d v)
    | inr bytes ↦
        isolated_trans t (stored at (v % 256) t) u
          (λ safe. stored-Kept (to_uint32 addr) at s t d (v % 256))
          ((tail_bytes-Kept (addr +ℤ pos 1) (addr +ℤ pos 2) (addr +ℤ pos 3) (v >>> 8) (v >>> 16)
              (v >>> 24)).holds
            (stored at (v % 256) t) u tt (ground arith))
  ]

  pub write32-Kept : (addr : ℤ) (v : ℕ) → Keeps IsolatedFrom (write32 addr v)
  unfolding write32 ◌>>=◌
  write32-Kept addr v = record {
    holds = λ s u x h safe. go s u safe (translate addr write s) refl h;
  }
    where
      go :
          (s u : Space)
          → IsSafe s.phys (s.vm ∷ others)
          → (r : Result (ℕ × Space)) → translate addr write s ≡ r
          → write32 addr v s ≡ ok (tt, u)
          → Kept s u
      go s u safe (ok (at, t)) e h =
          let d = translate-IsTranslated others write addr at s t safe e in
          isolated_trans s t u ((translate-Kept addr write).holds s t at e)
            (store32-Kept addr v at s t u d (ground arith)) safe
      go s u safe (err x) e h = absurd (ground arith)

  pub copy_to_user-Kept :
      (cs : List ℕ) (addr : ℤ) (is_string : Bool)
      → Keeps IsolatedFrom (copy_to_user addr cs is_string)
  unfolding copy_to_user
  copy_to_user-Kept [] addr true = write8-Kept addr 0
  copy_to_user-Kept [] addr false = Keeps-pure IsolatedFrom isolated_refl isolated_trans tt
  copy_to_user-Kept (c ∷ cs) addr is_string =
      Keeps->> IsolatedFrom isolated_refl isolated_trans (write8-Kept addr c)
        (copy_to_user-Kept cs (addr +ℤ pos 1) is_string)
