-- ===== src/Buffer/Blit.antt =====
-- Copies into the vector of a buffer: what they keep and what they write.
use linux_cpp_file_server.Base.{
  ℕ, ◌+◌, ◌-◌, ◌≤◌, ◌≡◌, sym, ap, ◌∙◌, ◌≡⟨◌⟩◌, ◌∎, ◌++◌, append_assoc, arith, length, take, drop,
  replicate, length-append, length-take, length-drop, length-replicate, take-append_le,
  drop-append_le, take_all, drop-take, take-append_self,
}
use linux_cpp_file_server.Base.Bytes.{Bytes}
use linux_cpp_file_server.Buffer.{blit, resize}

pub length-blit :
    (xs : Bytes) (at : ℕ) (s : Bytes)
    → at + length s ≤ length xs
    → length (blit xs at s) ≡ length xs
unfolding blit
length-blit xs at s h = omega (
  arith,
  length-append (take at xs) (s ++ drop (at + length s) xs),
  length-append s (drop (at + length s) xs),
  length-take at xs,
  length-drop (at + length s) xs,
)

pub length-resize : (n : ℕ) (xs : Bytes) → length xs ≤ n → length (resize n xs) ≡ n
unfolding resize
length-resize n xs h = omega (
  arith,
  length-append (take n xs) (replicate (n - length xs) 0),
  length-take n xs,
  length-replicate {A = ℕ} (n - length xs) 0,
)

-- Two parts of a text of three.
take_two :
    (a s rest : Bytes) (n : ℕ) → n ≡ length a → take (n + length s) (a ++ (s ++ rest)) ≡ a ++ s
take_two a s rest n e =
    take (n + length s) (a ++ (s ++ rest))
    ≡⟨ ap (take (n + length s)) (sym (append_assoc a s rest)) ⟩
      take (n + length s) ((a ++ s) ++ rest)
    ≡⟨ ap (λ k. take k ((a ++ s) ++ rest)) (omega (arith, length-append a s)) ⟩
      take (length (a ++ s)) ((a ++ s) ++ rest)
    ≡⟨ take-append_self (a ++ s) rest ⟩ a ++ s ∎

-- The window up to the copy, extended by it.
pub window-blit :
    (xs : Bytes) (from at : ℕ) (s : Bytes)
    → from ≤ at
    → at ≤ length xs
    → take (at - from + length s) (drop from (blit xs at s)) ≡ take (at - from) (drop from xs) ++ s
unfolding blit
window-blit xs from at s h k =
    rw (drop-append_le from (take at xs) (s ++ drop (at + length s) xs) inside, window)
      (take_two kept s (drop (at + length s) xs) (at - from) size)
  where
    kept : Bytes
    kept = take (at - from) (drop from xs)

    inside : from ≤ length (take at xs)
    inside = omega (arith, length-take at xs)

    window : drop from (take at xs) ≡ kept
    window =
        ap (λ k. drop from (take k xs)) {x = at} {y = from + (at - from)} (omega arith)
        ∙ drop-take from (at - from) xs

    size : at - from ≡ length kept
    size = omega (arith, length-take (at - from) (drop from xs), length-drop from xs)

-- A copy to a place below the window's start gives the window of the copy.
pub window-blit_self :
    (xs : Bytes) (at : ℕ) (s : Bytes)
    → at ≤ length xs
    → take (length s) (drop at (blit xs at s)) ≡ s
window-blit_self xs at s h =
    ap (λ n. take n (drop at (blit xs at s))) {x = length s} {y = at - at + length s} (omega arith)
    ∙ window-blit xs at at s (omega arith) h
    ∙ ap (λ n. take n (drop at xs) ++ s) {x = at - at} {y = 0} (omega arith)

-- Growing the vector keeps a window inside it.
pub window-resize :
    (n : ℕ) (xs : Bytes) (from len : ℕ)
    → length xs ≤ n
    → from + len ≤ length xs
    → take len (drop from (resize n xs)) ≡ take len (drop from xs)
unfolding resize
window-resize n xs from len h k =
    rw (take_all n xs h, drop-append_le from xs (replicate (n - length xs) 0) (omega arith))
      (take-append_le len (drop from xs) (replicate (n - length xs) 0)
        (omega (arith, length-drop from xs)))
