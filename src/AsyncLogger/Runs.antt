-- ===== src/AsyncLogger/Runs.antt =====
-- The log of any sequence of events.
use mathlib.Core.List.Sublist
use mathlib.Core.List.{Sublist}
use linux_cpp_file_server.Base.{
  ℕ, ◌≡◌, refl, sym, ap, ap₂, subst, ◌∙◌, Bool, true, List, [], ◌∷◌, ◌++◌, append_assoc, append-nil,
  some, All, Option-cases, inl, inr,
}
use linux_cpp_file_server.Base.Bytes.{Bytes}
use linux_cpp_file_server.AsyncLogger.{AsyncLogger, texts}
use linux_cpp_file_server.AsyncLogger.Kept.{text, IsGood, added, IsShort, none-ne-some, some_inj}
use linux_cpp_file_server.AsyncLogger.Steps.{step-Keeps}
use linux_cpp_file_server.AsyncLogger.Thread.{
  Service, Event, logs, enters, takes, stops, leaves, flushes, writes, finishes, started, step,
  then_run, run, logged,
}
use linux_cpp_file_server.LogFile.Writes.{Progresses}

-- What one event logs.
abbrev pub lead : Event → List Bytes
lead (logs line) = line ∷ []
lead enters = []
lead takes = []
lead stops = []
lead leaves = []
lead flushes = []
lead (writes clock time later) = []
lead (finishes clock) = []

pub logged-cons : (e : Event) (es : List Event) → logged (e ∷ es) ≡ lead e ++ logged es
logged-cons (logs line) es = refl
logged-cons enters es = refl
logged-cons takes es = refl
logged-cons stops es = refl
logged-cons leaves es = refl
logged-cons flushes es = refl
logged-cons (writes clock time later) es = refl
logged-cons (finishes clock) es = refl

-- The bytes of some pieces of text.
abbrev pub joined : List Bytes → Bytes
joined [] = []
joined (p ∷ ps) = p ++ joined ps

joined-append : (ps qs : List Bytes) → joined (ps ++ qs) ≡ joined ps ++ joined qs
joined-append [] qs = refl
joined-append (p ∷ ps) qs =
    ap (λ t. p ++ t) (joined-append ps qs) ∙ sym (append_assoc p (joined ps) (joined qs))

-- A text is made of pieces, and the lines are among these, each whole, once and in their order.
pub record HasLines (lines : List Bytes) (t : Bytes) : Type 0 where
  pub pieces : List Bytes
  pub whole : t ≡ joined pieces
  pub found : Sublist lines pieces

added-HasLines : (e : Event) (s : AsyncLogger) → HasLines (lead e) (added e s)
added-HasLines (logs line) s = record {
  pieces = line ∷ [];
  whole = sym (append-nil line);
  found = Sublist.refl (line ∷ []);
}
added-HasLines takes s = record {
  pieces = texts s.active_buffers ∷ [];
  whole = sym (append-nil (texts s.active_buffers));
  found = Sublist.cons (texts s.active_buffers) (Sublist.refl []);
}
added-HasLines enters s = record { pieces = []; whole = refl; found = Sublist.refl [] }
added-HasLines stops s = record { pieces = []; whole = refl; found = Sublist.refl [] }
added-HasLines leaves s = record { pieces = []; whole = refl; found = Sublist.refl [] }
added-HasLines flushes s = record { pieces = []; whole = refl; found = Sublist.refl [] }
added-HasLines (writes clock time later) s = record {
  pieces = [];
  whole = refl;
  found = Sublist.refl [];
}
added-HasLines (finishes clock) s = record { pieces = []; whole = refl; found = Sublist.refl [] }

HasLines-append :
    (ls ms : List Bytes) (t u : Bytes)
    → HasLines ls t
    → HasLines ms u
    → HasLines (ls ++ ms) (t ++ u)
HasLines-append ls ms t u h k = record {
  pieces = h.pieces ++ k.pieces;
  whole = ap₂ (λ x y. x ++ y) h.whole k.whole ∙ sym (joined-append h.pieces k.pieces);
  found = Sublist.append h.found k.found;
}

-- What a sequence of events leaves.
pub record Grows (es : List Event) (s s' : Service) : Type 0 where
  pub more : Bytes
  pub good : IsGood s'
  pub grown : text s' ≡ text s ++ more
  pub nothing_lost : HasLines (logged es) more

pub started-IsGood : (size : ℕ) (path : Bytes) → IsGood (started size path)
started-IsGood size path = record {
  sized = record {
    all_buffers = tt;
    all_active = tt;
    front = refl;
    reserve = (refl, refl);
    current = refl;
    next = refl;
  };
  same_file = refl;
  flushed = tt;
}

module _ (fwrite : ℕ → Bytes → ℕ) (fopen : Bytes → Bool) where
  run-cons :
      (e : Event) (es : List Event) (s : Service)
      → run fwrite fopen (e ∷ es) s
        ≡ then_run fwrite fopen (run fwrite fopen es) (step fwrite fopen e s)
  unfolding run
  run-cons e es s = refl

  pub run-append :
      (es fs : List Event) (s s' : Service)
      → run fwrite fopen es s ≡ some s'
      → run fwrite fopen (es ++ fs) s ≡ run fwrite fopen fs s'
  unfolding run
  run-append [] fs s s' h = ap (run fwrite fopen fs) (some_inj h)
  run-append (e ∷ es) fs s s' h = elim (Option-cases (step fwrite fopen e s)) [
    | inl n ↦ absurd (none-ne-some (rw (n, run) at h))
    | inr (t, f) ↦ rw f (run-append es fs t s' (rw (f, run) at h))
  ]

module _ (fwrite : ℕ → Bytes → ℕ) (fopen : Bytes → Bool) (progresses : Progresses fwrite)
    (opens : (p : Bytes) → fopen p ≡ true) where
  pub run-Grows :
      (es : List Event) (s s' : Service) (n : ℕ)
      → s.log.size ≡ n
      → IsGood s
      → All (IsShort n) es
      → run fwrite fopen es s ≡ some s'
      → Grows es s s'
  unfolding run
  run-Grows [] s s' n z g h e = record {
    more = [];
    good = subst IsGood (some_inj e) g;
    grown = ap text (sym (some_inj e)) ∙ sym (append-nil (text s));
    nothing_lost = record { pieces = []; whole = refl; found = Sublist.refl [] };
  }
  run-Grows (e ∷ es) s s' n z g h r = elim (Option-cases (step fwrite fopen e s)) [
    | inl f ↦ absurd (none-ne-some (rw (f, run) at r))
    | inr (t, f) ↦
        let k =
          step-Keeps fwrite fopen progresses opens e s t g (subst (λ m. IsShort m e) (sym z) h.0)
            f in
        let w = run-Grows es t s' n (k.same_size ∙ z) k.good h.1 (rw (f, run) at r) in
        record {
          more = added e s.log ++ w.more;
          good = w.good;
          grown =
              w.grown
              ∙ ap (λ x. x ++ w.more) k.grown
              ∙ append_assoc (text s) (added e s.log) w.more;
          nothing_lost =
              subst (λ x. HasLines x (added e s.log ++ w.more)) (sym (logged-cons e es))
                (HasLines-append (lead e) (logged es) (added e s.log) w.more
                  (added-HasLines e s.log) w.nothing_lost);
        }
  ]
