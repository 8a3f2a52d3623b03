-- ===== src/LogFile/Writes.antt =====
-- What a log file holds after its writes.
use linux_cpp_file_server.Base.{
  ℕ, zero, suc, ◌+◌, ◌-◌, ◌≤◌, ◌<◌, ◌≡◌, refl, sym, ap, ◌∙◌, true, List, [], ◌∷◌, ◌++◌,
  append_assoc, append-nil, some, arith, ltb, ◌==◌, if◌then◌else◌, length, length-append,
  length-drop, take, drop, take-append-drop, Bool-cases, inl, inr, All,
}
use linux_cpp_file_server.Base.Bytes.{Bytes}
use linux_cpp_file_server.LogFile.{
  LogFile, flush_interval, flush, after_write, write_loop, ended, write, write_all,
}

-- What the documentation of `fwrite` promises where no error occurs: it takes some of the bytes.
abbrev pub Progresses : (ℕ → Bytes → ℕ) → Type 0
Progresses fwrite =
    (calls : ℕ) (s : Bytes) → 0 < length s → (0 < fwrite calls s) × (fwrite calls s ≤ length s)

-- All that was given has been flushed, or the last flush is not long past.
pub data IsFresh (now : ℕ) (f : LogFile) : Type 0 where
  all_flushed : f.flushed ≡ f.given → IsFresh now f
  flushed_lately : now ≤ f.last_flush + flush_interval → IsFresh now f

abbrev pub joined : List (Bytes × ℕ) → Bytes
joined [] = []
joined (l ∷ ls) = l.0 ++ joined ls

module _ (fwrite : ℕ → Bytes → ℕ) (progresses : Progresses fwrite) where
  write_loop_lem :
      (fuel calls : ℕ) (s : Bytes) (f : LogFile)
      → length s ≤ fuel
      → write_loop fwrite fuel calls s f ≡ some (record f { given = f.given ++ s })
  unfolding write_loop
  write_loop_lem fuel calls [] f h =
      ap (λ t. some (record f { given = t })) (sym (append-nil f.given))
  write_loop_lem zero calls (b ∷ s) f h = absurd (omega (arith, h))
  write_loop_lem (suc fuel) calls (b ∷ s) f h =
      let (some_taken, inside) = progresses calls (b ∷ s) (omega arith) in
      let n = fwrite calls (b ∷ s) in
      write_loop_lem fuel (suc calls) (drop n (b ∷ s))
        (record f { given = f.given ++ take n (b ∷ s) })
        (omega (arith, h, some_taken, inside, length-drop n (b ∷ s)))
      ∙ ap (λ t. some (record f { given = t }))
          (append_assoc f.given (take n (b ∷ s)) (drop n (b ∷ s))
            ∙ ap (◌++◌ f.given) (take-append-drop n (b ∷ s)))

  -- What a write leaves.
  pub record Written (s : Bytes) (now : ℕ) (f f' : LogFile) : Type 0 where
    pub given : f'.given ≡ f.given ++ s
    pub counted : f'.written_bytes ≡ f.written_bytes + length s
    pub fresh : IsFresh now f'

  -- The count and the time of a write of `s`.
  counted_write : ℕ → ℕ → LogFile → LogFile
  counted_write len now f =
      if len == 0 then f else record f { last_write = now; written_bytes = f.written_bytes + len }

  counted_write-given : (len now : ℕ) (f : LogFile) → (counted_write len now f).given ≡ f.given
  unfolding counted_write
  counted_write-given len now f = elim (Bool-cases (len == 0)) [
    | inl e ↦ rw e refl
    | inr e ↦ rw e refl
  ]

  counted_write_bytes :
      (len now : ℕ) (f : LogFile) → (counted_write len now f).written_bytes ≡ f.written_bytes + len
  unfolding counted_write
  counted_write_bytes len now f = elim (Bool-cases (len == 0)) [
    | inl e ↦ rw e (omega (arith, zero_of len e))
    | inr e ↦ rw e refl
  ]
    where
      zero_of : (n : ℕ) → (n == 0) ≡ true → n ≡ 0
      zero_of n e = ground (arith, e)

  after_write-Written :
      (s : Bytes) (now : ℕ) (f : LogFile)
      → Written s now f (after_write (length s) now (record f { given = f.given ++ s }))
  unfolding after_write flush counted_write
  after_write-Written s now f =
      let g : LogFile = record f { given = f.given ++ s } in
      let c = counted_write (length s) now g in
      elim (Bool-cases (ltb flush_interval (now - c.last_flush))) [
        | inl e ↦ rw e (record {
          given = counted_write-given (length s) now g;
          counted = counted_write_bytes (length s) now g;
          fresh = all_flushed refl;
        })
        | inr e ↦ rw e (record {
          given = counted_write-given (length s) now g;
          counted = counted_write_bytes (length s) now g;
          fresh = flushed_lately (ground (arith, e));
        })
      ]

  -- Where `fwrite` makes progress, `Write` ends and the whole line follows what was written before,
  -- however many calls it takes; its bytes are counted; and at its end all is flushed, or there was
  -- a flush within the interval.
  pub write_lem :
      (fuel : ℕ) (s : Bytes) (now : ℕ) (f : LogFile)
      → length s ≤ fuel
      → (f' : LogFile) × (write fwrite fuel s now f ≡ some f') × Written s now f f'
  unfolding write
  write_lem fuel s now f h = (
    after_write (length s) now (record f { given = f.given ++ s }),
    ap (ended fwrite (length s) now) (write_loop_lem fuel 0 s f h),
    after_write-Written s now f,
  )

  -- The same of any number of lines: the file is what it was, and then the lines in their order.
  pub write_all-joined :
      (fuel : ℕ) (ls : List (Bytes × ℕ)) (f : LogFile)
      → All (λ l. length l.0 ≤ fuel) ls
      → (f' : LogFile) × (write_all fwrite fuel ls (some f) ≡ some f')
        × (f'.given ≡ f.given ++ joined ls)
        × (f'.written_bytes ≡ f.written_bytes + length (joined ls))
  unfolding write_all
  write_all-joined fuel [] f h = (f, refl, sym (append-nil f.given), omega arith)
  write_all-joined fuel (l ∷ ls) f (h, hs) =
      let (g, run, w) = write_lem fuel l.0 l.1 f h in
      let (f', runs, given, counted) = write_all-joined fuel ls g hs in
      (
        f',
        ap (write_all fwrite fuel ls) run ∙ runs,
        given ∙ ap (λ t. t ++ joined ls) w.given ∙ append_assoc f.given l.0 (joined ls),
        omega (arith, counted, w.counted, length-append l.0 (joined ls)),
      )
