-- ===== src/Stat/Filled.antt =====
-- The layout of the structures that `sys_fstat` and `sys_fstat64` of src/syscalls.js fill.
use noopsys.Base.{
  ℕ, ◌+◌, ◌%◌, ◌^◌, ◌≤◌, ◌<◌, ◌≡◌, refl, Bool, true, false, some, List, [], ◌∷◌, arith,
  if◌then◌else◌, Bool-cases, inl, inr,
}
use noopsys.Base.Word.{meets}
use noopsys.Base.Result.{Result, ok, err, Action}
use noopsys.Base.Seal.{pure, ◌>>◌}
use noopsys.Constants.{s_ifchr}
use noopsys.Space.{Vm, Space}
use noopsys.Space.Safe.{IsSafe}
use noopsys.Space.Fields.{
  put_fields, AreFields, no_fields, field, AreBelow, nothing, under, IsFilled, put_fields-IsFilled,
}
use noopsys.Stat.{Node, do_stat_core, do_stat64_core, Outcome, done, sys_fstat}

-- The number of the device, for what has one.
abbrev pub rdev : Node → ℕ
rdev node = if meets node.mode s_ifchr then node.data_word else 0

-- The fields of both structures, each with its offset.
unfoldable pub layout : (wide : Bool) → Node → List (ℕ × ℕ)
layout true node =
    (0, 1)
    ∷ (16, node.inode)
    ∷ (20, 0)
    ∷ (24, node.mode)
    ∷ (28, 1)
    ∷ (32, 0)
    ∷ (36, 0)
    ∷ (40, rdev node)
    ∷ (56, node.size)
    ∷ (60, 0)
    ∷ (64, 0)
    ∷ (72, 0)
    ∷ (80, 0)
    ∷ (88, 0)
    ∷ (96, 0)
    ∷ (100, 0)
    ∷ []
layout false node =
    (0, 1)
    ∷ (16, node.inode)
    ∷ (20, node.mode)
    ∷ (24, 1)
    ∷ (28, 0)
    ∷ (32, 0)
    ∷ (36, rdev node)
    ∷ (48, node.size)
    ∷ (52, 0)
    ∷ (56, 0)
    ∷ (64, 0)
    ∷ (72, 0)
    ∷ (80, 0)
    ∷ (84, 0)
    ∷ []

-- The numbers of a node fit their words.
pub record IsNode (node : Node) : Type 0 where
  pub inode : node.inode < 2 ^ 32
  pub mode : node.mode < 2 ^ 32
  pub data_word : node.data_word < 2 ^ 32
  pub size : node.size < 2 ^ 32

do_stat_core-put_fields :
    (buf : ℕ) (node : Node) → do_stat_core buf node ≡ put_fields buf (layout false node)
unfolding do_stat_core put_fields layout
do_stat_core-put_fields buf node = elim (Bool-cases (meets node.mode s_ifchr)) [
  | inl e ↦ rw e refl
  | inr e ↦ rw e refl
]

do_stat64_core-put_fields :
    (buf : ℕ) (node : Node) → do_stat64_core buf node ≡ put_fields buf (layout true node)
unfolding do_stat64_core put_fields layout
do_stat64_core-put_fields buf node = elim (Bool-cases (meets node.mode s_ifchr)) [
  | inl e ↦ rw e refl
  | inr e ↦ rw e refl
]

module _ (node : Node) (fits : IsNode node) where
  rdev_fits : rdev node < 2 ^ 32
  rdev_fits = elim (Bool-cases (meets node.mode s_ifchr)) [
    | inl e ↦ rw e fits.data_word
    | inr e ↦ rw e (omega arith)
  ]

  layout-AreFields : (wide : Bool) → AreFields 0 (layout wide node)
  unfolding layout
  layout-AreFields true =
      let z : 0 < 2 ^ 32 = omega arith in
      let o : 1 < 2 ^ 32 = omega arith in
      field 0 0 1 _ (omega arith) refl o (
        field _ 16 _ _ (omega arith) refl fits.inode (
          field _ 20 _ _ (omega arith) refl z (
            field _ 24 _ _ (omega arith) refl fits.mode (
              field _ 28 _ _ (omega arith) refl o (
                field _ 32 _ _ (omega arith) refl z (
                  field _ 36 _ _ (omega arith) refl z (
                    field _ 40 _ _ (omega arith) refl rdev_fits (
                      field _ 56 _ _ (omega arith) refl fits.size (
                        field _ 60 _ _ (omega arith) refl z (
                          field _ 64 _ _ (omega arith) refl z (
                            field _ 72 _ _ (omega arith) refl z (
                              field _ 80 _ _ (omega arith) refl z (
                                field _ 88 _ _ (omega arith) refl z (
                                  field _ 96 _ _ (omega arith) refl z (
                                    field _ 100 _ _ (omega arith) refl z
                                      (no_fields _))))))))))))))))
  layout-AreFields false =
      let z : 0 < 2 ^ 32 = omega arith in
      let o : 1 < 2 ^ 32 = omega arith in
      field 0 0 1 _ (omega arith) refl o (
        field _ 16 _ _ (omega arith) refl fits.inode (
          field _ 20 _ _ (omega arith) refl fits.mode (
            field _ 24 _ _ (omega arith) refl o (
              field _ 28 _ _ (omega arith) refl z (
                field _ 32 _ _ (omega arith) refl z (
                  field _ 36 _ _ (omega arith) refl rdev_fits (
                    field _ 48 _ _ (omega arith) refl fits.size (
                      field _ 52 _ _ (omega arith) refl z (
                        field _ 56 _ _ (omega arith) refl z (
                          field _ 64 _ _ (omega arith) refl z (
                            field _ 72 _ _ (omega arith) refl z (
                              field _ 80 _ _ (omega arith) refl z
                                (field _ 84 _ _ (omega arith) refl z (no_fields _))))))))))))))

-- The bytes that are filled, from the beginning of the buffer on.
unfoldable pub filled_size : (wide : Bool) → ℕ
filled_size wide = if wide then 104 else 88

layout-AreBelow : (wide : Bool) (node : Node) → AreBelow (filled_size wide) (layout wide node)
unfolding layout filled_size
layout-AreBelow true node = under _ _ _ (omega arith) (
    under _ _ _ (omega arith) (
      under _ _ _ (omega arith) (
        under _ _ _ (omega arith) (
          under _ _ _ (omega arith) (
            under _ _ _ (omega arith) (
              under _ _ _ (omega arith) (
                under _ _ _ (omega arith) (
                  under _ _ _ (omega arith) (
                    under _ _ _ (omega arith) (
                      under _ _ _ (omega arith) (
                        under _ _ _ (omega arith) (
                          under _ _ _ (omega arith) (
                            under _ _ _ (omega arith) (
                              under _ _ _ (omega arith)
                                (under _ _ _ (omega arith) (nothing))))))))))))))))
layout-AreBelow false node = under _ _ _ (omega arith) (
    under _ _ _ (omega arith) (
      under _ _ _ (omega arith) (
        under _ _ _ (omega arith) (
          under _ _ _ (omega arith) (
            under _ _ _ (omega arith) (
              under _ _ _ (omega arith) (
                under _ _ _ (omega arith) (
                  under _ _ _ (omega arith) (
                    under _ _ _ (omega arith) (
                      under _ _ _ (omega arith) (
                        under _ _ _ (omega arith) (
                          under _ _ _ (omega arith)
                            (under _ _ _ (omega arith) (nothing))))))))))))))

done_step :
    (m : Action Space (Unit {0})) (outcome : Outcome) (s s' : Space)
    → (m >> pure done) s ≡ ok (outcome, s')
    → (outcome ≡ done) × (m s ≡ ok (tt, s'))
unfolding ◌>>◌ pure
done_step m outcome s s' h = go (m s) refl
  where
    go : (r : Result (Unit {0} × Space)) → m s ≡ r → (outcome ≡ done) × (m s ≡ ok (tt, s'))
    go (ok (tt, t)) e = (ground arith, ground arith)
    go (err x) e = absurd (ground arith)

sys_fstat_step :
    (wide : Bool) (node : Node) (buf : ℕ) (outcome : Outcome) (s s' : Space)
    → sys_fstat wide (some node) buf s ≡ ok (outcome, s')
    → (outcome ≡ done) × (put_fields buf (layout wide node) s ≡ ok (tt, s'))
unfolding sys_fstat
sys_fstat_step true node buf outcome s s' h =
    rw (← do_stat64_core-put_fields buf node) (done_step (do_stat64_core buf node) outcome s s' h)
sys_fstat_step false node buf outcome s s' h =
    rw (← do_stat_core-put_fields buf node) (done_step (do_stat_core buf node) outcome s s' h)

-- When the description of a node whose numbers fit 32 bits is put into an aligned buffer below
-- 2 ^ 32, the answer is 0, every field is at its offset of the structure, with the device's number
-- 0 for what is no device, the rest of the process's memory is as before and the invariant holds.
pub sys_fstat-IsFilled :
    (wide : Bool) (others : List Vm) (node : Node) (buf : ℕ) (outcome : Outcome) (s s' : Space)
    → IsNode node
    → buf % 4 ≡ 0
    → buf + filled_size wide ≤ 2 ^ 32
    → IsSafe s.phys (s.vm ∷ others)
    → sys_fstat wide (some node) buf s ≡ ok (outcome, s')
    → (outcome ≡ done) × IsFilled others buf 0 (filled_size wide) (layout wide node) s s'
sys_fstat-IsFilled wide others node buf outcome s s' fits aligned room safe h =
    let (is_done, filled) = sys_fstat_step wide node buf outcome s s' h in
    (
      is_done,
      put_fields-IsFilled others buf 0 (filled_size wide) (layout wide node) s s' aligned refl
          (layout-AreFields node fits wide) (layout-AreBelow wide node) room safe filled,
    )
