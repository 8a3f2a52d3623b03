-- ===== src/FileHandler/Laws.antt =====
-- Names without slashes, and the laws of the store.
use linux_cpp_file_server.Base.{
  ℕ, suc, ◌+◌, ◌≡◌, subst, refl, ap, ◌∙◌, true, [], ◌∷◌, none, some, arith, if◌then◌else◌, drop,
  Option-cases, inl, inr,
}
use linux_cpp_file_server.Base.Bytes.{
  Bytes, bytes_eq, bytes_eq_iff, find_last, Lacks, lookup, insert, lookup-insert,
}
use linux_cpp_file_server.Base.Outcome.{ok}
use linux_cpp_file_server.FileHandler.{Store, after_last, remove, move_file}

find_last-none : (b : ℕ) (s : Bytes) → find_last b s ≡ none → Lacks b s
unfolding find_last
find_last-none b [] e = tt
find_last-none b (c ∷ s) e = elim (Option-cases (find_last b s)) [
  | inl f ↦ (ground arith, find_last-none b s f)
  | inr (i, f) ↦ absurd (ground arith)
]

find_last-behind : (b : ℕ) (s : Bytes) (i : ℕ) → find_last b s ≡ some i → Lacks b (drop (suc i) s)
unfolding find_last
find_last-behind b [] i e = absurd (none≢some e)
  where
    none≢some : none ≡ some i → ⊥
    none≢some x = cc
find_last-behind b (c ∷ s) i e = elim (Option-cases (find_last b s)) [
  | inl f ↦
      let first : 0 ≡ i = ground arith in
      subst (λ k. Lacks b (drop (suc k) (c ∷ s))) first (find_last-none b s f)
  | inr (j, f) ↦
      let later : suc j ≡ i = ground arith in
      subst (λ k. Lacks b (drop (suc k) (c ∷ s))) later (find_last-behind b s j f)
]

-- What follows the last slash of a path has no slash.
pub after_last-Lacks : (b : ℕ) (s : Bytes) → Lacks b (after_last b s)
unfolding after_last
after_last-Lacks b s = elim (Option-cases (find_last b s)) [
  | inl f ↦ rw (f, after_last) (find_last-none b s f)
  | inr (i, f) ↦
      rw (f, after_last)
        (subst (λ k. Lacks b (drop k s)) {x = suc i} {y = i + 1} (omega arith)
          (find_last-behind b s i f))
]

-- A removed file is gone, and every other file is as it was.
pub lookup-remove :
    (p q : Bytes) (files : Store)
    → lookup q (remove p files) ≡ (if bytes_eq p q then none else lookup q files)
unfolding lookup remove
lookup-remove p q [] = ground arith
lookup-remove p q ((r, c) ∷ files) =
    ground (arith, bytes_eq_iff p q, bytes_eq_iff r p, bytes_eq_iff r q, lookup-remove p q files)

-- A file that exists is moved: its target has its content, its path is free unless it is the target,
-- and every other file is as it was.
pub move_file_lem :
    (source target other content : Bytes) (files : Store)
    → lookup source files ≡ some content
    → (files' : Store) × (move_file source target files ≡ ok (true, files'))
      × (lookup other files' ≡ (
          if bytes_eq target other
          then some content
          else if bytes_eq source other
          then none
          else lookup other files))
unfolding move_file
move_file_lem source target other content files e = (
  insert target content (remove source files),
  rw (e, move_file) refl,
  lookup-insert target other content (remove source files)
      ∙ ap (λ o. if bytes_eq target other then some content else o)
          (lookup-remove source other files),
)
