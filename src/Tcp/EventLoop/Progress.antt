-- ===== src/Tcp/EventLoop/Progress.antt =====
-- The loop's thread, left to itself.
use linux_cpp_file_server.Base.{
  ℕ, zero, suc, ◌+◌, ◌≤◌, ◌≡◌, refl, sym, ap, ◌∙◌, Bool, true, false, List, [], ◌∷◌, ◌++◌,
  append-nil, append_assoc, if◌then◌else◌, none, some, length, arith, subst,
}
use linux_cpp_file_server.Tcp.EventLoop.{
  EventFd, Place, polling, handling, running, EventLoop, handle_read, swap_functors, run_functor,
  end_functors, functor, finish, Reach, next, advance_at, stay, run_loop,
}
use linux_cpp_file_server.Tcp.EventLoop.Order.{taken, queued_order}
use linux_cpp_file_server.Tcp.EventLoop.Wakeup.{no_task, is_readable, to_be_written, no_lost_wakeup}

module _ (fd : EventFd) where
  run_loop_add :
      (m n : ℕ) (s : EventLoop fd) → run_loop fd (m + n) s ≡ run_loop fd n (run_loop fd m s)
  unfolding run_loop
  run_loop_add zero n s = ap (λ k. run_loop fd k s) {x = 0 + n} {y = n} (omega arith)
  run_loop_add (suc m) n s =
      ap (λ k. run_loop fd k s) {x = suc m + n} {y = suc (m + n)} (omega arith)
      ∙ run_loop_add m n (stay fd s (advance_at fd s.place s))

  -- The functors are run to the last, and `DoToDoList` returns.
  abbrev ran : List ℕ → EventLoop fd → EventLoop fd
  ran rest s = record s { place = polling; calling_functors = false; executed = s.executed ++ rest }

  advance :
      {p : Place} (s : EventLoop fd)
      → s.place ≡ p
      → (n : ℕ) → run_loop fd (suc n) s ≡ run_loop fd n (stay fd s (advance_at fd p s))
  unfolding run_loop
  advance s e n = ap (λ p. run_loop fd n (stay fd s (advance_at fd p s))) e

  run_loop-running :
      (rest : List ℕ) (s : EventLoop fd)
      → s.place ≡ running rest
      → run_loop fd (suc (length rest)) s ≡ ran rest s
  unfolding run_loop end_functors run_functor
  run_loop-running [] s e =
      advance s e 0
      ∙ ap (λ l. record s { place = polling; calling_functors = false; executed = l })
          (sym (append-nil s.executed))
  run_loop-running (f ∷ rest) s e =
      advance s e (suc (length rest))
      ∙ run_loop-running rest (run_functor fd f rest s) refl
      ∙ ap (λ l. record s { place = polling; calling_functors = false; executed = l })
          (append_assoc s.executed (f ∷ []) rest)

  -- What the handlers leave.
  abbrev handled : Bool → EventLoop fd → EventLoop fd
  handled b s = if b then handle_read fd s else s

  run_loop-swap :
      (b : Bool) (s : EventLoop fd)
      → run_loop fd (suc (length s.to_do_list)) (swap_functors fd (handled b s))
        ≡ ran s.to_do_list (swap_functors fd (handled b s))
  unfolding swap_functors handle_read
  run_loop-swap false s = run_loop-running s.to_do_list (swap_functors fd s) refl
  run_loop-swap true s = run_loop-running s.to_do_list (swap_functors fd (handle_read fd s)) refl

  swap_executed :
      (b : Bool) (s : EventLoop fd) → (swap_functors fd (handled b s)).executed ≡ s.executed
  unfolding swap_functors handle_read
  swap_executed false s = refl
  swap_executed true s = refl

  -- From the handlers, all that was queued before `DoToDoList` took it is run.
  run_loop-handling :
      (s : EventLoop fd)
      → s.place ≡ handling
      → (run_loop fd (suc (suc (length s.to_do_list))) s).executed ≡ s.executed ++ s.to_do_list
  run_loop-handling s e =
      ap (λ t. t.executed)
        (advance s e (suc (length s.to_do_list)) ∙ run_loop-swap (fd.readable s.wakeup) s)
      ∙ ap (λ l. l ++ s.to_do_list) (swap_executed (fd.readable s.wakeup) s)

  -- The same from `Poll`, which returns since the descriptor is readable.
  run_loop-polling :
      (s : EventLoop fd)
      → s.place ≡ polling
      → fd.readable s.wakeup ≡ true
      → (run_loop fd (suc (suc (suc (length s.to_do_list)))) s).executed
        ≡ s.executed ++ s.to_do_list
  run_loop-polling s e h =
      ap (λ t. t.executed)
        (advance s e (suc (suc (length s.to_do_list)))
          ∙ ap
              (λ b.
                run_loop fd (suc (suc (length s.to_do_list)))
                  (stay fd s (if b then some (record s { place = handling }) else none)))
              h)
      ∙ run_loop-handling (record s { place = handling }) refl

  Reach-ran :
      (rest : List ℕ) (s : EventLoop fd)
      → s.place ≡ running rest
      → Reach fd s
      → Reach fd (ran rest s)
  unfolding end_functors run_functor
  Reach-ran [] s e r =
      subst (λ l. Reach fd (record s { place = polling; calling_functors = false; executed = l }))
        (sym (append-nil s.executed)) (next r (finish s e))
  Reach-ran (f ∷ rest) s e r =
      subst (λ l. Reach fd (record s { place = polling; calling_functors = false; executed = l }))
        (append_assoc s.executed (f ∷ []) rest)
        (Reach-ran rest (run_functor fd f rest s) refl (next r (functor s f rest e)))

  -- All that was queued has been run, after a number of steps that is bounded.
  abbrev Settles : ℕ → EventLoop fd → Type 0
  Settles bound s = (n : ℕ) × (n ≤ bound) × ((run_loop fd n s).executed ≡ s.queued)

  polling-Settles :
      (s : EventLoop fd)
      → s.place ≡ polling
      → s.waking ≡ 0
      → Reach fd s
      → Settles (length s.to_do_list + 3) s
  unfolding run_loop
  polling-Settles s e w r =
      let all : s.executed ++ s.to_do_list ≡ s.queued =
        ap (λ p. s.executed ++ (taken p ++ s.to_do_list)) (sym e) ∙ queued_order fd r in
      elim (no_lost_wakeup fd r e) [
        | no_task none_left ↦ (
          0,
          omega arith,
          sym (append-nil s.executed) ∙ ap (◌++◌ s.executed) (sym none_left) ∙ all,
        )
        | is_readable h ↦
            (suc (suc (suc (length s.to_do_list))), omega arith, run_loop-polling s e h ∙ all)
        | to_be_written h ↦ absurd (omega (arith, w))
      ]

  place-Settles :
      (p : Place) (s : EventLoop fd)
      → s.place ≡ p
      → s.waking ≡ 0
      → Reach fd s
      → Settles (length (taken p) + length s.to_do_list + 4) s
  place-Settles polling s e w r =
      let (n, small, done) = polling-Settles s e w r in (n, omega arith, done)
  place-Settles handling s e w r = (
    suc (suc (length s.to_do_list)),
    omega arith,
    run_loop-handling s e
        ∙ ap (λ p. s.executed ++ (taken p ++ s.to_do_list)) (sym e)
        ∙ queued_order fd r,
  )
  place-Settles (running rest) s e w r =
      let (n, small, done) = polling-Settles (ran rest s) refl w (Reach-ran rest s e r) in
      (
        suc (length rest) + n,
        omega arith,
        ap (λ t. t.executed)
              (run_loop_add (suc (length rest)) n s
                ∙ ap (run_loop fd n) (run_loop-running rest s e))
            ∙ done,
      )

  -- From every state that can be reached in which no thread is still to write to the event
  -- descriptor: the loop's thread alone, whose tasks queue no others, has run all queued tasks, in the
  -- order they were queued, after at most four steps more than there are tasks left.
  pub run_loop_settles :
      {s : EventLoop fd}
      → Reach fd s
      → s.waking ≡ 0
      → (n : ℕ) × (n ≤ length (taken s.place) + length s.to_do_list + 4)
        × ((run_loop fd n s).executed ≡ s.queued)
  run_loop_settles {s} r w = place-Settles s.place s refl w r
