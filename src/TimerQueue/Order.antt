-- ===== src/TimerQueue/Order.antt =====
-- The order of the timers, and those that are due.
use linux_cpp_file_server.Base.{
  ℕ, ◌-◌, ◌^◌, ◌≤◌, ◌<◌, ◌≡◌, refl, sym, ap, ◌∙◌, Bool, true, false, List, [], ◌∷◌, ◌++◌, none,
  append-nil, append_assoc, arith, All, if◌then◌else◌, Bool-cases, inl, inr,
}
use linux_cpp_file_server.TimerQueue.{
  Timer, restart, less, before, emplace, TimerQueue, insert, reset_timer_fd, add_timer, is_due,
  expired, unexpired, add_timers, run_timers, put_back, arm_first, reset_timers, handle_read,
}

abbrev pub NotBefore : ℕ → Timer → Type 0
NotBefore time t = time ≤ t.expire_time

-- Each timer expires no later than those behind it.
abbrev pub IsSorted : List Timer → Type 0
IsSorted [] = Unit
IsSorted (t ∷ ts) = All (NotBefore t.expire_time) ts × IsSorted ts

All-NotBefore : (m n : ℕ) (ts : List Timer) → m ≤ n → All (NotBefore n) ts → All (NotBefore m) ts
All-NotBefore m n [] h a = tt
All-NotBefore m n (t ∷ ts) h a = (omega (arith, a.0), All-NotBefore m n ts h a.1)

pub emplace-All :
    (m : ℕ) (t : Timer) (ts : List Timer)
    → m ≤ t.expire_time
    → All (NotBefore m) ts
    → All (NotBefore m) (emplace t ts)
unfolding emplace
emplace-All m t [] h a = (h, tt)
emplace-All m t (u ∷ us) h a = elim (Bool-cases (before t u)) [
  | inl e ↦ rw e (h, a)
  | inr e ↦ elim (Bool-cases (before u t)) [
    | inl f ↦ rw (e, f) (a.0, emplace-All m t us h a.1)
    | inr f ↦ rw (e, f) a
  ]
]

before-le : (t u : Timer) → before t u ≡ true → t.expire_time ≤ u.expire_time
unfolding before less
before-le t u h = ground (arith, h)

pub emplace-IsSorted : (t : Timer) (ts : List Timer) → IsSorted ts → IsSorted (emplace t ts)
unfolding emplace
emplace-IsSorted t [] s = (tt, tt)
emplace-IsSorted t (u ∷ us) s = elim (Bool-cases (before t u)) [
  | inl e ↦
      let below : t.expire_time ≤ u.expire_time = before-le t u e in
      rw e ((below, All-NotBefore t.expire_time u.expire_time us below s.0), s)
  | inr e ↦ elim (Bool-cases (before u t)) [
    | inl f ↦
        let below : u.expire_time ≤ t.expire_time = before-le u t f in
        rw (e, f) (emplace-All u.expire_time t us below s.0, emplace-IsSorted t us s.1)
    | inr f ↦ rw (e, f) s
  ]
]

pub add_timer_timers :
    (now : ℕ) (t : Timer) (q : TimerQueue) → (add_timer now t q).timers ≡ emplace t q.timers
unfolding add_timer insert reset_timer_fd
add_timer_timers now t q = ground arith

add_timer_ran : (now : ℕ) (t : Timer) (q : TimerQueue) → (add_timer now t q).ran ≡ q.ran
unfolding add_timer insert reset_timer_fd
add_timer_ran now t q = ground arith

add_timers_ran : (ts : List (ℕ × Timer)) (q : TimerQueue) → (add_timers ts q).ran ≡ q.ran
unfolding add_timers
add_timers_ran [] q = refl
add_timers_ran ((now, t) ∷ ts) q = add_timers_ran ts (add_timer now t q) ∙ add_timer_ran now t q

add_timers-IsSorted :
    (ts : List (ℕ × Timer)) (q : TimerQueue) → IsSorted q.timers → IsSorted (add_timers ts q).timers
unfolding add_timers
add_timers-IsSorted [] q s = s
add_timers-IsSorted ((now, t) ∷ ts) q s =
    add_timers-IsSorted ts (add_timer now t q)
      (rw (add_timer_timers now t q) (emplace-IsSorted t q.timers s))

run_timers_ran :
    (added : Timer → List (ℕ × Timer)) (ts : List Timer) (q : TimerQueue)
    → (run_timers added ts q).ran ≡ q.ran ++ ts
unfolding run_timers
run_timers_ran added [] q = sym (append-nil q.ran)
run_timers_ran added (t ∷ ts) q =
    run_timers_ran added ts (add_timers (added t) (record q { ran = q.ran ++ t ∷ [] }))
    ∙ ap (λ l. l ++ ts) (add_timers_ran (added t) (record q { ran = q.ran ++ t ∷ [] }))
    ∙ append_assoc q.ran (t ∷ []) ts

pub run_timers-IsSorted :
    (added : Timer → List (ℕ × Timer)) (ts : List Timer) (q : TimerQueue)
    → IsSorted q.timers
    → IsSorted (run_timers added ts q).timers
unfolding run_timers
run_timers-IsSorted added [] q s = s
run_timers-IsSorted added (t ∷ ts) q s =
    run_timers-IsSorted added ts (add_timers (added t) (record q { ran = q.ran ++ t ∷ [] }))
      (add_timers-IsSorted (added t) (record q { ran = q.ran ++ t ∷ [] }) s)

emplace_if-IsSorted :
    (b : Bool) (t : Timer) (ts : List Timer)
    → IsSorted ts
    → IsSorted (if b then emplace t ts else ts)
emplace_if-IsSorted true t ts s = emplace-IsSorted t ts s
emplace_if-IsSorted false t ts s = s

pub put_back-IsSorted :
    (restarted : Timer → ℕ) (active timers : List Timer)
    → IsSorted timers
    → IsSorted (put_back restarted active timers)
unfolding put_back
put_back-IsSorted restarted [] timers s = s
put_back-IsSorted restarted (t ∷ ts) timers s =
    put_back-IsSorted restarted ts _
      (emplace_if-IsSorted t.repeat (restart (restarted t) t) timers s)

pub unexpired-IsSorted : (now : ℕ) (ts : List Timer) → IsSorted ts → IsSorted (unexpired now ts)
unfolding unexpired
unexpired-IsSorted now [] s = tt
unexpired-IsSorted now (t ∷ ts) s = elim (Bool-cases (is_due now t)) [
  | inl e ↦ rw e (unexpired-IsSorted now ts s.1)
  | inr e ↦ rw e s
]

-- Objects do not lie at the last address.
abbrev pub IsPointer : Timer → Type 0
IsPointer t = t.address < 2 ^ 64 - 1

-- The split of the timers at the time `now`.
pub record IsSplit (now : ℕ) (ts : List Timer) : Type 0 where
  pub whole : expired now ts ++ unexpired now ts ≡ ts
  pub due : All (λ t. t.expire_time ≤ now) (expired now ts)
  pub later : All (λ t. now < t.expire_time) (unexpired now ts)

All-later :
    (now : ℕ) (time : ℕ) (ts : List Timer)
    → now < time
    → All (NotBefore time) ts
    → All (λ t. now < t.expire_time) ts
All-later now time [] h a = tt
All-later now time (t ∷ ts) h a = (omega (arith, a.0), All-later now time ts h a.1)

pub expired-IsSplit : (now : ℕ) (ts : List Timer) → IsSorted ts → All IsPointer ts → IsSplit now ts
unfolding expired unexpired
expired-IsSplit now [] s p = record { whole = refl; due = tt; later = tt }
expired-IsSplit now (t ∷ ts) s p = elim (Bool-cases (is_due now t)) [
  | inl e ↦
      let rest : IsSplit now ts = expired-IsSplit now ts s.1 p.1 in
      record {
        whole = rw e (ap (λ l. t ∷ l) rest.whole);
        due = rw e (unfold is_due less in ground (arith, e), rest.due);
        later = rw e rest.later;
      }
  | inr e ↦
      let below : now < t.expire_time = unfold is_due less in ground (arith, e, p.0) in
      record {
        whole = rw e refl;
        due = rw e tt;
        later = rw e (below, All-later now t.expire_time ts below s.0);
      }
]

arm_first_ran : (now : ℕ) (ts : List Timer) (q : TimerQueue) → (arm_first now ts q).ran ≡ q.ran
unfolding reset_timer_fd
arm_first_ran now [] q = refl
arm_first_ran now (t ∷ ts) q = refl

pub arm_first_timers :
    (now : ℕ) (ts : List Timer) (q : TimerQueue) → (arm_first now ts q).timers ≡ q.timers
unfolding reset_timer_fd
arm_first_timers now [] q = refl
arm_first_timers now (t ∷ ts) q = refl

pub handle_read_queue :
    (added : Timer → List (ℕ × Timer)) (restarted : Timer → ℕ) (now later : ℕ) (q : TimerQueue)
    → let ran =
        run_timers added
          (expired now q.timers)
          (record q { timers = unexpired now q.timers; armed = none }) in
      ((handle_read added restarted now later q).timers
        ≡ put_back restarted (expired now q.timers) ran.timers)
      × ((handle_read added restarted now later q).ran ≡ q.ran ++ expired now q.timers)
unfolding handle_read reset_timers
handle_read_queue added restarted now later q = (
  arm_first_timers later _ _,
  arm_first_ran later _ _ ∙ run_timers_ran added (expired now q.timers) _,
)
