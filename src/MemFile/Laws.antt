-- ===== src/MemFile/Laws.antt =====
-- A file of src/noopfs.js against the abstract file: a size, and a byte at every place below it.
use noopsys.Base.{
  ℕ, zero, suc, ◌+◌, ◌-◌, ◌≤◌, ◌<◌, ◌≡◌, refl, sym, ap, ◌∙◌, true, false, List, [], ◌∷◌, ◌++◌,
  length, take, drop, replicate, get_or, inl, inr, Bool-cases, max, ltb, ◌==◌, if◌then◌else◌, arith,
  append_assoc, append-nil,
}
use mathlib.Core.Path.{ap₂}
use noopsys.Base.Int.{pos}
use noopsys.Base.Result.{memfs_write, ok, err}
use noopsys.MemFile.Splice.{
  splice, byte_after, length-splice, get_or-splice, get_or-padding, splice-end, padded_size,
  splice-read,
}
use noopsys.MemFile.{
  Node, File, text, count, opened, seek_set, seek_place, s_isdir, add_data, as_string, fetch, read,
  pad, converted, write_before_end, write_at_end, write, do_lseek,
}

pad-text :
    (n mode size : ℕ) (cs : List ℕ)
    → pad n (record { mode = mode; size = size; contents = text cs })
      ≡ record { mode = mode; size = size + n; contents = text (cs ++ replicate n 0) }
unfolding pad add_data as_string
pad-text zero mode size cs =
    let same : size ≡ size + 0 = omega arith in
    ap₂ (λ k xs. record { mode = mode; size = k; contents = text xs }) same (sym (append-nil cs))
pad-text (suc n) mode size cs =
    let more : size + 1 + n ≡ size + suc n = omega arith in
    pad-text n mode (size + 1) (cs ++ (0 ∷ []))
    ∙ ap₂ (λ k xs. record { mode = mode; size = k; contents = text xs }) more
        (append_assoc cs (0 ∷ []) (replicate n 0))

-- A file with a string, and the file that a write to it leaves when it begins within the string.
text_file : (mode at : ℕ) → List ℕ → List ℕ → File
text_file mode at cs fetched = record {
  node = record { mode = mode; size = length cs; contents = text cs };
  pos_in_file = at;
  fetched = fetched;
}

write-end :
    (cs old fetched : List ℕ) (mode : ℕ)
    → write cs (text_file mode (length old) old fetched)
      ≡ ok (
        count (length cs),
        text_file mode (length old + length cs) (splice (length old) cs old) fetched,
      )
unfolding write pad text_file write_at_end add_data as_string
write-end cs old fetched mode =
    let no_padding : length old - length old ≡ 0 = omega arith in
    let after : ltb (length old) (length old) ≡ false = ground arith in
    let same : (length old == length old) ≡ true = ground arith in
    rw (no_padding, after, same)
      (ap (λ xs. ok (count (length cs), text_file mode (length old + length cs) xs fetched))
        (splice-end cs old))

write-inside :
    (cs old fetched : List ℕ) (mode at : ℕ)
    → at < length old
    → write cs (text_file mode at old fetched)
      ≡ ok (count (length cs), text_file mode (at + length cs) (splice at cs old) fetched)
unfolding write pad text_file write_before_end converted splice
write-inside cs old fetched mode at lt =
    let no_padding : at - length old ≡ 0 = omega arith in
    let before : ltb at (length old) ≡ true = ground arith in
    let size = length-splice at cs old (omega arith) in
    let larger : (if ltb (length old) (at + length cs) then at + length cs else length old)
        ≡ length (splice at cs old) =
      ground (arith, size) in
    rw (no_padding, before)
      (ap
        (λ k. ok (
          count (length cs),
          record {
            node = record { mode = mode; size = k; contents = text (splice at cs old) };
            pos_in_file = at + length cs;
            fetched = fetched;
          },
        ))
        larger)

pad-none : (node : Node) → pad 0 node ≡ node
unfolding pad
pad-none node = refl

write-padding :
    (cs old fetched : List ℕ) (mode at : ℕ)
    → write cs (text_file mode at old fetched)
      ≡ write cs (text_file mode at (old ++ replicate (at - length old) 0) fetched)
unfolding write text_file
write-padding cs old fetched mode at =
    let gap = at - length old in
    let whole = old ++ replicate gap 0 in
    let sizes = padded_size old gap in
    let full : at - length whole ≡ 0 = omega (arith, sizes) in
    let padded : pad gap (record { mode = mode; size = length old; contents = text old })
        ≡ pad (at - length whole)
            (record { mode = mode; size = length whole; contents = text whole }) =
      pad-text gap mode (length old) old
      ∙ ap (λ k. record { mode = mode; size = k; contents = text whole }) sizes
      ∙ sym (
          ap (λ n. pad n (record { mode = mode; size = length whole; contents = text whole })) full
          ∙ pad-none _) in
    ap
      (λ nd.
        if ltb at nd.size
        then write_before_end cs (record { node = nd; pos_in_file = at; fetched = fetched })
        else if at == nd.size
        then ok (write_at_end cs (record { node = nd; pos_in_file = at; fetched = fetched }))
        else err memfs_write)
      padded

-- A write anywhere, from the node's string and what the padding adds to it.
write-text :
    (cs old fetched : List ℕ) (mode at : ℕ)
    → write cs (text_file mode at old fetched)
      ≡ ok (
        count (length cs),
        text_file mode
            (at + length cs)
            (splice at cs (old ++ replicate (at - length old) 0))
            fetched,
      )
write-text cs old fetched mode at =
    let gap = at - length old in
    let whole = old ++ replicate gap 0 in
    let sizes = padded_size old gap in
    write-padding cs old fetched mode at ∙ elim (Bool-cases (ltb at (length whole))) [
      | inl before ↦ write-inside cs whole fetched mode at (ground arith)
      | inr after ↦
          let at_end : at ≡ length whole = ground (arith, sizes) in
          let e = write-end cs whole fetched mode in
          ap (λ k. write cs (text_file mode k whole fetched)) at_end
          ∙ e
          ∙ ap
              (λ k.
                ok (count (length cs), text_file mode (k + length cs) (splice k cs whole) fetched))
              (sym at_end)
    ]

text_file-eta :
    (file : File) (old : List ℕ)
    → file.node.contents ≡ text old
    → file.node.size ≡ length old
    → file ≡ text_file file.node.mode file.pos_in_file old file.fetched
unfolding text_file
text_file-eta file old held sized =
    ap₂
      (λ k c. record {
        node = record { mode = file.node.mode; size = k; contents = c };
        pos_in_file = file.pos_in_file;
        fetched = file.fetched;
      })
      sized held

-- A write to a file with a string of the node's size: it answers the number of bytes, moves the place
-- behind them, and leaves a string of the node's new size, which is the old one or reaches to the end
-- of the write. Its bytes are the new ones where the write was, the old ones elsewhere, and 0 between
-- the old end and the place of the write.
pub write-bytes :
    (cs old : List ℕ) (file : File)
    → file.node.contents ≡ text old
    → file.node.size ≡ length old
    → (after : File) × (new : List ℕ) × (write cs file ≡ ok (count (length cs), after))
      × (after.node.contents ≡ text new)
      × (after.node.size ≡ length new)
      × (length new ≡ max (length old) (file.pos_in_file + length cs))
      × (after.pos_in_file ≡ file.pos_in_file + length cs)
      × ((i : ℕ) → get_or new i 0 ≡ byte_after file.pos_in_file cs old i)
unfolding text_file
write-bytes cs old file held sized =
    let at = file.pos_in_file in
    let gap = at - length old in
    let whole = old ++ replicate gap 0 in
    let new = splice at cs whole in
    let sizes = padded_size old gap in
    let fits : at ≤ length whole = omega (arith, sizes) in
    (
      text_file file.node.mode (at + length cs) new file.fetched,
      new,
      ap (write cs) (text_file-eta file old held sized)
          ∙ write-text cs old file.fetched file.node.mode at,
      refl,
      refl,
      length-splice at cs whole fits ∙ omega (arith, sizes),
      refl,
      λ i.
          get_or-splice at cs whole i fits
          ∙ ap
              (λ b.
                if ltb i at then b else if ltb i (at + length cs) then get_or cs (i - at) 0 else b)
              (get_or-padding old gap i),
    )

read-text :
    (n mode at : ℕ) (cs fetched : List ℕ)
    → s_isdir mode ≡ false
    → read n (text_file mode at cs fetched)
      ≡ ok (fetch (take n (drop at cs)) (text_file mode at cs fetched))
unfolding read text_file
read-text n mode at cs fetched plain = rw (plain) refl

-- What is written is read back: after a write to a file with a string of the node's size, which is not
-- a directory, a seek to the place of the write and a read of as many bytes answers their number and
-- fetches the same bytes.
pub write-read :
    (cs old : List ℕ) (file : File)
    → file.node.contents ≡ text old
    → file.node.size ≡ length old
    → s_isdir file.node.mode ≡ false
    → (after sought end : File) × (write cs file ≡ ok (count (length cs), after))
      × (do_lseek (opened after) seek_set (pos file.pos_in_file)
          ≡ (count file.pos_in_file, opened sought))
      × (read (length cs) sought ≡ ok (count (length cs), end))
      × (end.fetched ≡ cs)
unfolding do_lseek seek_place text_file
write-read cs old file held sized plain =
    let at = file.pos_in_file in
    let gap = at - length old in
    let whole = old ++ replicate gap 0 in
    let new = splice at cs whole in
    let sizes = padded_size old gap in
    let back = splice-read at cs whole (omega (arith, sizes)) in
    let mode = file.node.mode in
    (
      text_file mode (at + length cs) new file.fetched,
      text_file mode at new file.fetched,
      record (text_file mode at new file.fetched) { pos_in_file = at + length cs; fetched = cs },
      ap (write cs) (text_file-eta file old held sized) ∙ write-text cs old file.fetched mode at,
      refl,
      read-text (length cs) mode at new file.fetched plain
          ∙ ap (λ xs. ok (fetch xs (text_file mode at new file.fetched))) back
          ∙ unfold fetch in refl,
      refl,
    )
