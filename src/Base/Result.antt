-- ===== src/Base/Result.antt =====
-- Code that reads and writes a state and may throw. An error that the program throws is caught
-- nowhere: it ends the emulator, so the state is not kept beside it.
use mathlib.Core.Bool.{Bool, true, false}
use mathlib.Core.Path.{◌≡◌, ap}

-- The `throw` statements, one constructor for each message.
pub data Error : Type 0 where
  out_of_memory not_in_use zero_page_unreferenced no_refs refs_not_one too_many_processes : Error
  negative_address bad_address fault unmapped unhandled_fault : Error
  breakpoint trap bad_instruction coprocessor unhandled_rdhwr not_implemented fpu_error : Error
  elf_overlap bad_elf bad_regimm pipe_closed memfs_write unaligned_mmap : Error
  bad_magic bad_version compressed_block wrong_block_size out_of_range bad_inode_id : Error
  high_word unknown_block bad_inode_type bad_directory bad_root : Error
  no_group no_slice no_method bad_path no_action append_mode array_length no_node : Error

pub data Result {ℓ} (A : Type ℓ) : Type ℓ where
  ok : A → Result A
  err : Error → Result A

abbrev pub Action : Type 0 → Type 0 → Type 0
Action S A = S → Result (A × S)

module _ {S : Type 0} where
  infixl 5 ◌>>=◌ ◌>>◌
  abbrev pub pure : {A : Type 0} → A → S → Result (A × S)
  pure a s = ok (a, s)

  abbrev pub throw : {A : Type 0} → Error → S → Result (A × S)
  throw e s = err e

  abbrev pub ◌>>=◌ :
      {A B : Type 0} → (S → Result (A × S)) → (A → S → Result (B × S)) → S → Result (B × S)
  ◌>>=◌ m f s = elim (m s) [ ok (a, s') ↦ f a s' | err e ↦ err e ]

  abbrev pub ◌>>◌ :
      {A B : Type 0} → (S → Result (A × S)) → (S → Result (B × S)) → S → Result (B × S)
  m >> k = m >>= λ _. k

  abbrev pub gets : {A : Type 0} → (S → A) → S → Result (A × S)
  gets f s = ok (f s, s)

  abbrev pub modify : (S → S) → S → Result (Unit {0} × S)
  modify f s = ok (tt, f s)

  abbrev pub throw_if : Bool → Error → S → Result (Unit {0} × S)
  throw_if true e s = err e
  throw_if false e s = ok (tt, s)

  -- The first action of a chain, run.
  pub >>=-ok :
      {A B : Type 0} (m : S → Result (A × S)) (f : A → S → Result (B × S)) (s t : S) (a : A)
      → m s ≡ ok (a, t)
      → (m >>= f) s ≡ f a t
  >>=-ok m f s t a e = ap (λ r. (elim r [ ok (x, u) ↦ f x u | err x ↦ err x ])) e
