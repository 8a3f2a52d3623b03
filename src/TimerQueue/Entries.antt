-- ===== src/TimerQueue/Entries.antt =====
-- Which timers `HandleRead` runs, and which are in the queue afterwards.
use linux_cpp_file_server.Base.{
  ℕ, suc, none, ◌⊎◌, ◌+◌, ◌≤◌, ◌<◌, ◌≡◌, refl, sym, subst, Bool, true, false, List, [], ◌∷◌, ◌++◌,
  arith, All, if◌then◌else◌, Bool-cases, inl, inr,
}
use linux_cpp_file_server.TimerQueue.{
  Timer, restart, less, before, emplace, TimerQueue, add_timer, expired, unexpired, add_timers,
  run_timers, put_back, handle_read,
}
use linux_cpp_file_server.TimerQueue.Order.{
  NotBefore, IsSorted, IsPointer, IsSplit, emplace-All, add_timer_timers, expired-IsSplit,
  handle_read_queue,
}

-- The set has the entry of a timer: its time and its address.
abbrev pub HasEntry : Timer → List Timer → Type 0
HasEntry t [] = ⊥
HasEntry t (u ∷ us) = ((u.expire_time ≡ t.expire_time) × (u.address ≡ t.address)) ⊎ HasEntry t us

not_before :
    (t u : Timer)
    → before t u ≡ false
    → before u t ≡ false
    → (u.expire_time ≡ t.expire_time) × (u.address ≡ t.address)
unfolding before less
not_before t u e f = (ground (arith, e, f), ground (arith, e, f))

HasEntry-new : (t : Timer) (ts : List Timer) → HasEntry t (emplace t ts)
unfolding emplace
HasEntry-new t [] = inl (refl, refl)
HasEntry-new t (u ∷ us) = elim (Bool-cases (before t u)) [
  | inl e ↦ rw e (inl (refl, refl))
  | inr e ↦ elim (Bool-cases (before u t)) [
    | inl f ↦ rw (e, f) (inr (HasEntry-new t us))
    | inr f ↦ rw (e, f) (inl (not_before t u e f))
  ]
]

HasEntry-emplace : (x t : Timer) (ts : List Timer) → HasEntry x ts → HasEntry x (emplace t ts)
unfolding emplace
HasEntry-emplace x t [] h = absurd h
HasEntry-emplace x t (u ∷ us) h = elim (Bool-cases (before t u)) [
  | inl e ↦ rw e (inr h)
  | inr e ↦ elim (Bool-cases (before u t)) [
    | inl f ↦ rw (e, f) (elim h [ inl a ↦ inl a | inr b ↦ inr (HasEntry-emplace x t us b) ])
    | inr f ↦ rw (e, f) h
  ]
]

HasEntry-add_timers :
    (x : Timer) (ts : List (ℕ × Timer)) (q : TimerQueue)
    → HasEntry x q.timers
    → HasEntry x (add_timers ts q).timers
unfolding add_timers
HasEntry-add_timers x [] q h = h
HasEntry-add_timers x ((now, t) ∷ ts) q h =
    HasEntry-add_timers x ts (add_timer now t q)
      (rw (add_timer_timers now t q) (HasEntry-emplace x t q.timers h))

HasEntry-run_timers :
    (added : Timer → List (ℕ × Timer)) (x : Timer) (ts : List Timer) (q : TimerQueue)
    → HasEntry x q.timers
    → HasEntry x (run_timers added ts q).timers
unfolding run_timers
HasEntry-run_timers added x [] q h = h
HasEntry-run_timers added x (t ∷ ts) q h =
    HasEntry-run_timers added x ts _
      (HasEntry-add_timers x (added t) (record q { ran = q.ran ++ t ∷ [] }) h)

HasEntry-emplace_if :
    (b : Bool) (x t : Timer) (ts : List Timer)
    → HasEntry x ts
    → HasEntry x (if b then emplace t ts else ts)
HasEntry-emplace_if true x t ts h = HasEntry-emplace x t ts h
HasEntry-emplace_if false x t ts h = h

HasEntry-put_back :
    (restarted : Timer → ℕ) (x : Timer) (active timers : List Timer)
    → HasEntry x timers
    → HasEntry x (put_back restarted active timers)
unfolding put_back
HasEntry-put_back restarted x [] timers h = h
HasEntry-put_back restarted x (t ∷ ts) timers h =
    HasEntry-put_back restarted x ts _
      (HasEntry-emplace_if t.repeat x (restart (restarted t) t) timers h)

-- A timer that repeats is in the queue again, restarted.
abbrev pub Returns : (Timer → ℕ) → List Timer → Timer → Type 0
Returns restarted ts t = if t.repeat then HasEntry (restart (restarted t) t) ts else Unit

new_entry :
    (restarted : Timer → ℕ) (b : Bool) (t : Timer) (ts timers : List Timer)
    → if b
      then HasEntry t (put_back restarted ts (if b then emplace t timers else timers))
      else Unit {0}
new_entry restarted true t ts timers =
    HasEntry-put_back restarted t ts (emplace t timers) (HasEntry-new t timers)
new_entry restarted false t ts timers = tt

put_back-Returns :
    (restarted : Timer → ℕ) (active timers : List Timer)
    → All (Returns restarted (put_back restarted active timers)) active
unfolding put_back
put_back-Returns restarted [] timers = tt
put_back-Returns restarted (t ∷ ts) timers = (
  new_entry restarted t.repeat (restart (restarted t) t) ts timers,
  put_back-Returns restarted ts
      (if t.repeat then emplace (restart (restarted t) t) timers else timers),
)

kept_entries :
    (added : Timer → List (ℕ × Timer)) (restarted : Timer → ℕ) (active all left : List Timer)
    (q : TimerQueue)
    → ((x : Timer) → HasEntry x left → HasEntry x q.timers)
    → All (λ x. HasEntry x (put_back restarted active (run_timers added all q).timers)) left
kept_entries added restarted active all [] q f = tt
kept_entries added restarted active all (t ∷ ts) q f = (
  HasEntry-put_back restarted t active _
      (HasEntry-run_timers added t all q (f t (inl (refl, refl)))),
  kept_entries added restarted active all ts q (λ x h. f x (inr h)),
)

add_timers-All :
    (m : ℕ) (ts : List (ℕ × Timer)) (q : TimerQueue)
    → All (λ p. m ≤ p.1.expire_time) ts
    → All (NotBefore m) q.timers
    → All (NotBefore m) (add_timers ts q).timers
unfolding add_timers
add_timers-All m [] q a h = h
add_timers-All m ((now, t) ∷ ts) q a h =
    add_timers-All m ts (add_timer now t q) a.1
      (rw (add_timer_timers now t q) (emplace-All m t q.timers a.0 h))

run_timers-All :
    (added : Timer → List (ℕ × Timer)) (m : ℕ) (ts : List Timer) (q : TimerQueue)
    → ((t : Timer) → All (λ p. m ≤ p.1.expire_time) (added t))
    → All (NotBefore m) q.timers
    → All (NotBefore m) (run_timers added ts q).timers
unfolding run_timers
run_timers-All added m [] q a h = h
run_timers-All added m (t ∷ ts) q a h =
    run_timers-All added m ts _ a
      (add_timers-All m (added t) (record q { ran = q.ran ++ t ∷ [] }) (a t) h)

restarted-All :
    (m later : ℕ) (b : Bool) (t : Timer) (ts : List Timer)
    → t.repeat ≡ b
    → m ≤ later + t.interval
    → All (NotBefore m) ts
    → All (NotBefore m) (if b then emplace (restart later t) ts else ts)
unfolding restart
restarted-All m later true t ts e h a =
    emplace-All m (restart later t) ts (unfold restart in rw e h) a
restarted-All m later false t ts e h a = a

put_back-All :
    (restarted : Timer → ℕ) (m : ℕ) (active timers : List Timer)
    → ((t : Timer) → m ≤ restarted t + t.interval)
    → All (NotBefore m) timers
    → All (NotBefore m) (put_back restarted active timers)
unfolding put_back
put_back-All restarted m [] timers a h = h
put_back-All restarted m (t ∷ ts) timers a h =
    put_back-All restarted m ts _ a (restarted-All m (restarted t) t.repeat t timers refl (a t) h)

-- `HandleRead` of an ordered queue at `now`: it runs the timers in front, each once and in order,
-- which are exactly those that expire at `now` or before; afterwards no timer of the queue expires
-- at `now` or before, every timer that was not due is there still, and every one that was due and
-- repeats is there again, restarted. The timers that the callbacks add, and those that are restarted,
-- expire after `now`.
pub handle_read_ran :
    (added : Timer → List (ℕ × Timer)) (restarted : Timer → ℕ) (now later : ℕ) (q : TimerQueue)
    → IsSorted q.timers
    → All IsPointer q.timers
    → ((t : Timer) → All (λ p. now < p.1.expire_time) (added t))
    → ((t : Timer) → now < restarted t + t.interval)
    → let q' = handle_read added restarted now later q in
      (q'.ran ≡ q.ran ++ expired now q.timers)
      × IsSplit now q.timers
      × All (λ t. now < t.expire_time) q'.timers
      × All (λ t. HasEntry t q'.timers) (unexpired now q.timers)
      × All (Returns restarted q'.timers) (expired now q.timers)
handle_read_ran added restarted now later q s p a b =
    let (queue, ran) = handle_read_queue added restarted now later q in
    let split = expired-IsSplit now q.timers s p in
    let left : TimerQueue = record q { timers = unexpired now q.timers; armed = none } in
    let after = run_timers added (expired now q.timers) left in
    (
      ran,
      split,
      subst (All (NotBefore (suc now))) (sym queue) (
          put_back-All restarted (suc now) (expired now q.timers) after.timers b
            (run_timers-All added (suc now) (expired now q.timers) left a split.later)),
      subst (λ ts. All (λ t. HasEntry t ts) (unexpired now q.timers)) (sym queue)
          (kept_entries added restarted (expired now q.timers) (expired now q.timers)
            (unexpired now q.timers) left (λ x h. h)),
      subst (λ ts. All (Returns restarted ts) (expired now q.timers)) (sym queue)
          (put_back-Returns restarted (expired now q.timers) after.timers),
    )
