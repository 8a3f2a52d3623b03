-- ===== src/Tcp/LoopThread/Handshake.antt =====
-- What `StartLoop` waits for.
use linux_cpp_file_server.Base.{◌≡◌, refl, sym, subst, Bool, true, false}
use linux_cpp_file_server.Tcp.LoopThread.{
  Caller, starting, testing, waiting, returned, Worker, not_created, constructing, looping,
  EventLoopThread, notified, create, publish, Step, creating, publishing, returning, sleeping,
  Wakeup, spurious, Reach, start, next, woken, Run, stop, then,
}

-- The states of the two threads and of `loop_` that go together.
abbrev Together : Caller → Worker → Bool → Type 0
Together starting not_created false = Unit
Together starting not_created true = ⊥
Together starting constructing b = ⊥
Together starting looping b = ⊥
Together testing not_created b = ⊥
Together testing constructing false = Unit
Together testing constructing true = ⊥
Together testing looping true = Unit
Together testing looping false = ⊥
Together waiting not_created b = ⊥
Together waiting constructing false = Unit
Together waiting constructing true = ⊥
Together waiting looping b = ⊥
Together returned not_created b = ⊥
Together returned constructing b = ⊥
Together returned looping true = Unit
Together returned looping false = ⊥

abbrev Fits : EventLoopThread → Type 0
Fits s = Together s.caller s.worker s.has_loop

create-Fits :
    (c : Caller) (w : Worker) (b : Bool)
    → c ≡ starting
    → Together c w b
    → Together testing constructing b
create-Fits c w b e h = go w b (subst (λ x. Together x w b) e h)
  where
    go : (w : Worker) (b : Bool) → Together starting w b → Together testing constructing b
    go not_created false h = tt
    go not_created true h = h
    go constructing b h = absurd h
    go looping b h = absurd h

publish-Fits :
    (c : Caller) (w : Worker) (b : Bool)
    → w ≡ constructing
    → Together c w b
    → Together (notified c) looping true
publish-Fits c w b e h = go c b (subst (λ x. Together c x b) e h)
  where
    go : (c : Caller) (b : Bool) → Together c constructing b → Together (notified c) looping true
    go starting b h = absurd h
    go testing b h = tt
    go waiting b h = tt
    go returned b h = absurd h

return-Fits : (w : Worker) → Together testing w true → Together returned w true
return-Fits not_created h = h
return-Fits constructing h = h
return-Fits looping h = tt

sleep-Fits : (w : Worker) → Together testing w false → Together waiting w false
sleep-Fits not_created h = h
sleep-Fits constructing h = tt
sleep-Fits looping h = h

wake-Fits : (w : Worker) (b : Bool) → Together waiting w b → Together testing w b
wake-Fits not_created b h = h
wake-Fits constructing false h = tt
wake-Fits constructing true h = h
wake-Fits looping b h = absurd h

seen-Fits :
    {c : Caller} {b : Bool} (s : EventLoopThread)
    → s.caller ≡ c
    → s.has_loop ≡ b
    → Fits s
    → Together c s.worker b
seen-Fits {c} s e f h =
    subst (λ x. Together c s.worker x) f (subst (λ x. Together x s.worker s.has_loop) e h)

Step-Fits : {s t : EventLoopThread} → Step s t → Fits s → Fits t
unfolding create publish
Step-Fits (creating s e) h = create-Fits s.caller s.worker s.has_loop e h
Step-Fits (publishing s e) h = publish-Fits s.caller s.worker s.has_loop e h
Step-Fits (returning s e f) h =
    subst (λ x. Together returned s.worker x) (sym f) (return-Fits s.worker (seen-Fits s e f h))
Step-Fits (sleeping s e f) h =
    subst (λ x. Together waiting s.worker x) (sym f) (sleep-Fits s.worker (seen-Fits s e f h))

Wakeup-Fits : {s t : EventLoopThread} → Wakeup s t → Fits s → Fits t
Wakeup-Fits (spurious s e) h =
    wake-Fits s.worker s.has_loop (subst (λ x. Together x s.worker s.has_loop) e h)

Reach-Fits : {s : EventLoopThread} → Reach s → Fits s
Reach-Fits start = tt
Reach-Fits (next r st) = Step-Fits st (Reach-Fits r)
Reach-Fits (woken r w) = Wakeup-Fits w (Reach-Fits r)

has_both : (w : Worker) (b : Bool) → Together returned w b → (b ≡ true) × (w ≡ looping)
has_both not_created b h = absurd h
has_both constructing b h = absurd h
has_both looping true h = (refl, refl)
has_both looping false h = absurd h

abbrev at : Caller → Worker → Bool → EventLoopThread
at c w b = record { caller = c; worker = w; has_loop = b }

abbrev Returns : EventLoopThread → Type 0
Returns s = (t : EventLoopThread) × Run s t × (t.caller ≡ returned)

after : {s t : EventLoopThread} → Step s t → Returns t → Returns s
after st (t, run, e) = (t, then st run, e)

from_looping : Returns (at testing looping true)
from_looping =
    after (returning (at testing looping true) refl refl) (at returned looping true, stop _, refl)

from_testing : Returns (at testing constructing false)
unfolding publish
from_testing = after (publishing (at testing constructing false) refl) from_looping

from_waiting : Returns (at waiting constructing false)
unfolding publish
from_waiting = after (publishing (at waiting constructing false) refl) from_looping

returns : (c : Caller) (w : Worker) (b : Bool) → Together c w b → Returns (at c w b)
unfolding create
returns starting not_created false h =
    after (creating (at starting not_created false) refl) from_testing
returns starting not_created true h = absurd h
returns starting constructing b h = absurd h
returns starting looping b h = absurd h
returns testing not_created b h = absurd h
returns testing constructing false h = from_testing
returns testing constructing true h = absurd h
returns testing looping true h = from_looping
returns testing looping false h = absurd h
returns waiting not_created b h = absurd h
returns waiting constructing false h = from_waiting
returns waiting constructing true h = absurd h
returns waiting looping b h = absurd h
returns returned w b h = (at returned w b, stop (at returned w b), refl)

-- Whatever the interleaving of the two threads, spurious wake-ups included: when `StartLoop` has
-- returned, `loop_` is set and the thread is in `Loop`; and from every state it can return, without
-- a spurious wake-up.
pub start_loop_lem :
    {s : EventLoopThread}
    → Reach s
    → (s.caller ≡ returned → (s.has_loop ≡ true) × (s.worker ≡ looping))
      × ((t : EventLoopThread) × Run s t × (t.caller ≡ returned))
start_loop_lem {s} r = (
  λ e. has_both s.worker s.has_loop (subst (λ x. Together x s.worker s.has_loop) e (Reach-Fits r)),
  returns s.caller s.worker s.has_loop (Reach-Fits r),
)
