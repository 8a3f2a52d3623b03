-- ===== src/Buffer/Contents.antt =====
-- A buffer as a queue of bytes, `peek_all`.
use linux_cpp_file_server.Base.{
  ℕ, suc, ◌+◌, ◌-◌, ◌≤◌, ◌<◌, ◌≡◌, refl, sym, ap, ◌∙◌, ◌≡⟨◌⟩◌, ◌∎, ◌++◌, some, arith, ltb, length,
  take, drop, drop-drop, drop-take, take-take, take-add, Bool-cases, inl, inr,
}
use linux_cpp_file_server.Base.Bytes.{Bytes}
use linux_cpp_file_server.Base.Integers.{pos, negsuc}
use linux_cpp_file_server.Buffer.{
  Buffer, prepend_index, readable_bytes, peek, peek_all, blit, compact, ensure_writable, put,
  append, retrieve, advance, retrieve_as_string,
}
use linux_cpp_file_server.Buffer.Blit.{window-blit, window-blit_self, window-resize}
use linux_cpp_file_server.Buffer.Invariant.{
  IsValid, length-peek_all, ensure_writable-IsValid, append-IsValid, retrieve-IsValid,
}

pub peek_all-compact : (b : Buffer) → IsValid b → peek_all (compact b) ≡ peek_all b
unfolding compact peek_all
peek_all-compact b v =
    ap (λ n. take n (drop prepend_index moved))
      {x = prepend_index + readable_bytes b - prepend_index} {y = length (peek_all b)}
      (omega (arith, length-peek_all b v))
    ∙ window-blit_self b.bytes prepend_index (peek_all b) (omega arith)
  where
    moved : Bytes
    moved = blit b.bytes prepend_index (peek_all b)

pub peek_all-ensure_writable :
    (n : ℕ) (b : Buffer) → IsValid b → peek_all (ensure_writable n b) ≡ peek_all b
unfolding ensure_writable peek_all
peek_all-ensure_writable n b v = ground (
  arith,
  peek_all-compact b v,
  window-resize (b.write_index + n) b.bytes b.read_index (b.write_index - b.read_index),
)

pub peek_all-put : (s : Bytes) (b : Buffer) → IsValid b → peek_all (put s b) ≡ peek_all b ++ s
unfolding put peek_all
peek_all-put s b v =
    ap (λ n. take n (drop b.read_index (blit b.bytes b.write_index s)))
      {x = b.write_index + length s - b.read_index} {y = b.write_index - b.read_index + length s}
      (omega arith)
    ∙ window-blit b.bytes b.read_index b.write_index s v.ordered v.inside

pub peek_all-append : (s : Bytes) (b : Buffer) → IsValid b → peek_all (append s b) ≡ peek_all b ++ s
unfolding append
peek_all-append s b v =
    peek_all-put s (ensure_writable (length s) b) (ensure_writable-IsValid (length s) b v)
    ∙ ap (λ t. t ++ s) (peek_all-ensure_writable (length s) b v)

-- Appending keeps a valid buffer valid, and its readable bytes are the old ones followed by the
-- new, whether the vector had room, was compacted or grew.
pub append_refines :
    (s : Bytes) (b : Buffer)
    → IsValid b
    → IsValid (append s b) × (peek_all (append s b) ≡ peek_all b ++ s)
append_refines s b v = (append-IsValid s b v, peek_all-append s b v)

-- What is left of the readable bytes behind the first `n`.
drop-peek_all :
    (n : ℕ) (b : Buffer)
    → IsValid b
    → n ≤ readable_bytes b
    → drop n (peek_all b)
      ≡ take (b.write_index - (n + b.read_index)) (drop (n + b.read_index) b.bytes)
unfolding peek_all
drop-peek_all n b v h =
    drop n (take (b.write_index - b.read_index) (drop b.read_index b.bytes))
    ≡⟨ ap (λ k. drop n (take k (drop b.read_index b.bytes))) {x = b.write_index - b.read_index}
        {y = n + (b.write_index - (n + b.read_index))} (omega arith) ⟩
      drop n (take (n + (b.write_index - (n + b.read_index))) (drop b.read_index b.bytes))
    ≡⟨ drop-take n (b.write_index - (n + b.read_index)) (drop b.read_index b.bytes) ⟩
      take (b.write_index - (n + b.read_index)) (drop n (drop b.read_index b.bytes))
    ≡⟨ ap (take (b.write_index - (n + b.read_index))) (
        drop-drop n b.read_index b.bytes
        ∙ ap (λ k. drop k b.bytes) {x = b.read_index + n} {y = n + b.read_index} (omega arith)) ⟩
      take (b.write_index - (n + b.read_index)) (drop (n + b.read_index) b.bytes) ∎

pub peek_all-advance :
    (n : ℕ) (b : Buffer)
    → IsValid b
    → n ≤ readable_bytes b
    → peek_all (advance (n + b.read_index) b) ≡ drop n (peek_all b)
unfolding advance
peek_all-advance n b v h = elim (Bool-cases (ltb (n + b.read_index) b.write_index)) [
  | inl e ↦ rw (e, drop-peek_all n b v h) (unfold peek_all in refl)
  | inr e ↦
      rw (e, drop-peek_all n b v h)
        (unfold peek_all in
          ap (λ k. take k (drop (n + b.read_index) b.bytes)) {x = 0}
            {y = b.write_index - (n + b.read_index)} (ground arith))
]

-- `Retrieve(len)` of at most the readable bytes succeeds, keeps the buffer valid, and drops exactly
-- `len` bytes from the front.
pub retrieve_refines :
    (n : ℕ) (b : Buffer)
    → IsValid b
    → n ≤ readable_bytes b
    → (b' : Buffer) × (retrieve (pos n) b ≡ some b')
      × IsValid b'
      × (peek_all b' ≡ drop n (peek_all b))
unfolding retrieve
retrieve_refines n b v h =
    (advance (n + b.read_index) b, ground arith, advanced, peek_all-advance n b v h)
  where
    advanced : IsValid (advance (n + b.read_index) b)
    advanced = retrieve-IsValid n b v (ground arith)

pub peek-peek_all : (n : ℕ) (b : Buffer) → n ≤ readable_bytes b → peek n b ≡ take n (peek_all b)
unfolding peek_all peek
peek-peek_all n b h = sym (take-take n (readable_bytes b) (drop b.read_index b.bytes) h)

-- `RetrieveAsString(len)` of at most the readable bytes returns the first `len` of them, and leaves
-- the others, in a valid buffer.
pub retrieve_as_string_refines :
    (n : ℕ) (b : Buffer)
    → IsValid b
    → n ≤ readable_bytes b
    → (b' : Buffer) × (retrieve_as_string n b ≡ some (take n (peek_all b), b'))
      × IsValid b'
      × (peek_all b' ≡ drop n (peek_all b))
unfolding retrieve_as_string
retrieve_as_string_refines n b v h =
    let (b', e, v', c) = retrieve_refines n b v h in
    (b', ground (arith, peek-peek_all n b h, e), v', c)

-- `Retrieve(-(n + 1))`, which a failed `write` leads to, passes the assertion and puts `n + 1` bytes
-- that were already retrieved back before the readable ones.
pub retrieve_negative :
    (n : ℕ) (b : Buffer)
    → IsValid b
    → n < b.read_index
    → b.read_index < b.write_index
    → (b' : Buffer) × (retrieve (negsuc n) b ≡ some b')
      × (peek_all b' ≡ take (suc n) (drop (b.read_index - suc n) b.bytes) ++ peek_all b)
unfolding retrieve advance peek_all peek
retrieve_negative n b v h k = (
  record b { read_index = b.read_index - suc n },
  ground arith,
  ap (λ k. take k (drop from b.bytes)) {x = b.write_index - from}
        {y = suc n + (b.write_index - b.read_index)} (omega arith)
      ∙ take-add (suc n) (b.write_index - b.read_index) (drop from b.bytes)
      ∙ ap (λ t. take (suc n) (drop from b.bytes) ++ take (b.write_index - b.read_index) t)
          (drop-drop (suc n) from b.bytes
            ∙ ap (λ k. drop k b.bytes) {x = from + suc n} {y = b.read_index} (omega arith)),
)
  where
    from : ℕ
    from = b.read_index - suc n
