-- ===== src/Tcp/ThreadPool/Fairness.antt =====
-- The order in which `GetNextLoop` hands out the loops.
use native.Mathlib.Nat.{mod-eq_of_lt, mod-add-mod}
use linux_cpp_file_server.Base.{
  ℕ, zero, suc, ◌+◌, ◌%◌, ◌<◌, ◌≡◌, refl, sym, ap, ◌∙◌, List, [], ◌∷◌, Option, none, some, arith,
  length, get_elem?,
}
use linux_cpp_file_server.Tcp.ThreadPool.{EventLoopThreadPool, chosen, next_of, get_next_loop}

-- The index is inside the list, once there are loops.
abbrev pub InRange : EventLoopThreadPool → Type 0
InRange p = p.next < length p.loops

get_elem?_in {ℓ} :
    {A : Type ℓ} (xs : List A) (i : ℕ) → i < length xs → (a : A) × (get_elem? xs i ≡ some a)
get_elem?_in [] i h = absurd (omega arith)
get_elem?_in (x ∷ xs) zero h = (x, refl)
get_elem?_in (x ∷ xs) (suc i) h = get_elem?_in xs i (omega arith)

next_of-found :
    (ls : List ℕ) (p : EventLoopThreadPool) (l : ℕ)
    → get_elem? ls p.next ≡ some l
    → next_of ls p ≡ chosen (some l) p
next_of-found [] p l e = absurd (none≢some e)
  where
    none≢some : none ≡ some l → ⊥
    none≢some x = cc
next_of-found (x ∷ xs) p l e = ap (λ o. chosen o p) e

moved : ℕ → EventLoopThreadPool → EventLoopThreadPool
moved k p = record p { next = (p.next + k) % length p.loops }

-- The pool after a number of calls of `GetNextLoop`.
pub calls : ℕ → EventLoopThreadPool → Option EventLoopThreadPool
calls zero p = some p
calls (suc k) p = elim (get_next_loop p) [ none ↦ none | some (l, q) ↦ calls k q ]

pub get_next_loop-InRange :
    (p : EventLoopThreadPool)
    → InRange p
    → (l : ℕ) × (get_elem? p.loops p.next ≡ some l)
      × (get_next_loop p ≡ some (l, record p { next = (p.next + 1) % length p.loops }))
unfolding get_next_loop
get_next_loop-InRange p h =
    let (l, e) = get_elem?_in p.loops p.next h in (l, e, next_of-found p.loops p l e)

calls-moved : (k : ℕ) (p : EventLoopThreadPool) → InRange p → calls k p ≡ some (moved k p)
unfolding calls moved
calls-moved zero p h =
    ap (λ n. some (record p { next = n }))
      (sym
        (ap (λ n. n % length p.loops) {x = p.next + 0} {y = p.next} (omega arith) ∙ mod-eq_of_lt h))
calls-moved (suc k) p h =
    let (l, _, e) = get_next_loop-InRange p h in
    rw (e, calls)
      (calls-moved k (record p { next = (p.next + 1) % length p.loops }) (omega arith)
        ∙ ap (λ n. some (record p { next = n }))
            (mod-add-mod (p.next + 1) (length p.loops) k
              ∙ ap (λ n. n % length p.loops) {x = p.next + 1 + k} {y = p.next + suc k}
                  (omega arith)))

-- Once there are loops, no call fails, and the call after `k` others hands out the loop `k` places
-- on from the first, round the list: every loop gets its turn.
pub get_next_loop_turn :
    (k : ℕ) (p : EventLoopThreadPool)
    → InRange p
    → (l : ℕ) × (q q' : EventLoopThreadPool) × (calls k p ≡ some q)
      × (get_next_loop q ≡ some (l, q'))
      × (get_elem? p.loops ((p.next + k) % length p.loops) ≡ some l)
unfolding moved
get_next_loop_turn k p h =
    let inside : (p.next + k) % length p.loops < length p.loops = omega arith in
    let (l, e, r) = get_next_loop-InRange (moved k p) inside in
    (l, moved k p, _, calls-moved k p h, r, e)
