-- ===== src/AsyncLogger/Kept.antt =====
-- What each event does to the text of the log, written and waiting.
use linux_cpp_file_server.Base.{
  ℕ, suc, ◌≤◌, ◌<◌, ◌≡◌, refl, sym, ap, ap₂, subst, ◌∙◌, Bool, true, false, List, [], ◌∷◌, ◌++◌,
  append_assoc, append-nil, none, some, arith, All, length, length-append, map,
}
use linux_cpp_file_server.Base.Bytes.{Bytes}
use linux_cpp_file_server.FixedBuffer
use linux_cpp_file_server.FixedBuffer.{FixedBuffer}
use linux_cpp_file_server.AsyncLogger.{AsyncLogger, append, take_buffers, texts}
use linux_cpp_file_server.AsyncLogger.Files.{all_given, IsFlushed}
use linux_cpp_file_server.AsyncLogger.Lines.{held, held-append, texts-append}
use linux_cpp_file_server.AsyncLogger.Sizes.{IsSized, append-IsSized, take_buffers-IsSized}
use linux_cpp_file_server.AsyncLogger.Thread.{
  Phase, checking, waiting, writing, finishing, ended, Service, Event, logs, enters, takes, stops,
  leaves, flushes, log_in, leave_in, writes, finishes, timed, enter_in, take_in,
}
use linux_cpp_file_server.LogFile.Writes.{joined}

-- The buffers that are being written.
abbrev pub in_flight : Phase → AsyncLogger → Bytes
in_flight checking s = []
in_flight waiting s = []
in_flight writing s = texts s.active_buffers
in_flight finishing s = []
in_flight ended s = []

-- All that the files were given, what is being written, and what waits.
abbrev pub text : Service → Bytes
text s = s.log.file ++ (in_flight s.phase s.log ++ held s.log)

-- The buffers are of one size, the files hold what was written, and those that were rolled away are
-- flushed.
pub record IsGood (s : Service) : Type 0 where
  pub sized : IsSized s.log
  pub same_file : all_given s.files ≡ s.log.file
  pub flushed : All IsFlushed s.files.left

-- What an event puts behind the text: its line, or the buffers that an earlier round left in
-- `active_buffers`.
abbrev pub added : Event → AsyncLogger → Bytes
added (logs line) s = line
added takes s = texts s.active_buffers
added enters s = []
added stops s = []
added leaves s = []
added flushes s = []
added (writes clock time later) s = []
added (finishes clock) s = []

-- A line is shorter than a buffer.
abbrev pub IsShort : ℕ → Event → Type 0
IsShort n (logs line) = length line < n
IsShort n enters = Unit
IsShort n takes = Unit
IsShort n stops = Unit
IsShort n leaves = Unit
IsShort n flushes = Unit
IsShort n (writes clock time later) = Unit
IsShort n (finishes clock) = Unit

pub record Keeps (more : Bytes) (s s' : Service) : Type 0 where
  pub good : IsGood s'
  pub same_size : s'.log.size ≡ s.log.size
  pub grown : text s' ≡ text s ++ more

pub joined-timed : (clock : ℕ → ℕ) (bs : List FixedBuffer) → joined (timed clock bs) ≡ texts bs
unfolding texts
joined-timed clock [] = refl
joined-timed clock (b ∷ bs) = ap (λ t. b.written ++ t) (joined-timed (λ n. clock (suc n)) bs)

-- Fuel for all is enough for each.
pub timed_fuel :
    (fuel : ℕ) (clock : ℕ → ℕ) (bs : List FixedBuffer)
    → length (texts bs) ≤ fuel
    → All (λ b. length b.0 ≤ fuel) (timed clock bs)
unfolding texts
timed_fuel fuel clock [] h = tt
timed_fuel fuel clock (b ∷ bs) h = (
  omega (arith, length-append b.written (texts bs)),
  timed_fuel fuel (λ n. clock (suc n)) bs (omega (arith, length-append b.written (texts bs))),
)

pub some_inj {ℓ} : {A : Type ℓ} {a b : A} → some a ≡ some b → a ≡ b
some_inj e = cc

pub none-ne-some : {A : Type 0} {a : A} → none ≡ some a → ⊥
none-ne-some e = cc

append-file : (line : Bytes) (s : AsyncLogger) → (append line s).file ≡ s.file
unfolding append
append-file line s = ground arith

append-active : (line : Bytes) (s : AsyncLogger) → (append line s).active_buffers ≡ s.active_buffers
unfolding append
append-active line s = ground arith

append-size : (line : Bytes) (s : AsyncLogger) → (append line s).size ≡ s.size
unfolding append
append-size line s = ground arith

in_flight-append :
    (p : Phase) (line : Bytes) (s : AsyncLogger) → in_flight p (append line s) ≡ in_flight p s
in_flight-append checking line s = refl
in_flight-append waiting line s = refl
in_flight-append writing line s = ap texts (append-active line s)
in_flight-append finishing line s = refl
in_flight-append ended line s = refl

pub logs-Keeps :
    (line : Bytes) (s : Service)
    → IsGood s
    → length line < s.log.size
    → Keeps line s (record s { log = append line s.log })
logs-Keeps line s g h = record {
  good = record {
    sized = append-IsSized line s.log g.sized;
    same_file = g.same_file ∙ sym (append-file line s.log);
    flushed = g.flushed;
  };
  same_size = append-size line s.log;
  grown =
      ap₂ (λ x y. x ++ (y ++ held (append line s.log))) (append-file line s.log)
        (in_flight-append s.phase line s.log)
      ∙ ap (λ t. s.log.file ++ (in_flight s.phase s.log ++ t))
          (held-append line s.log h g.sized.reserve)
      ∙ simp append_assoc;
}

-- Nothing changes but what the text does not show.
pub still :
    (s s' : Service)
    → IsGood s'
    → s'.log ≡ s.log
    → in_flight s'.phase s'.log ≡ in_flight s.phase s.log
    → Keeps [] s s'
still s s' g l p = record {
  good = g;
  same_size = ap (λ x. x.size) l;
  grown = ap₂ (λ x y. x.file ++ (y ++ held x)) l p ∙ sym (append-nil (text s));
}

-- A state with the same log, buffers and files.
pub same-IsGood :
    (s : Service) (b : Bool) (p : Phase) → IsGood s → IsGood (record s { running = b; phase = p })
same-IsGood s b p g = record { sized = g.sized; same_file = g.same_file; flushed = g.flushed }

pub enter_in-Keeps :
    (p : Phase) (b : Bool) (s s' : Service)
    → IsGood s
    → s.phase ≡ p
    → enter_in p b s ≡ some s'
    → Keeps [] s s'
unfolding enter_in
enter_in-Keeps waiting b s s' g p e = absurd (none-ne-some e)
enter_in-Keeps writing b s s' g p e = absurd (none-ne-some e)
enter_in-Keeps finishing b s s' g p e = absurd (none-ne-some e)
enter_in-Keeps ended b s s' g p e = absurd (none-ne-some e)
enter_in-Keeps checking false s s' g p e = absurd (none-ne-some e)
enter_in-Keeps checking true s s' g p e = subst (Keeps [] s) (some_inj e) (
    still s (record s { phase = waiting }) (same-IsGood s s.running waiting g) refl
      (ap (λ q. in_flight q s.log) (sym p)))

pub log_in-Keeps :
    (p : Phase) (line : Bytes) (s s' : Service)
    → IsGood s
    → length line < s.log.size
    → log_in p line s ≡ some s'
    → Keeps line s s'
unfolding log_in
log_in-Keeps finishing line s s' g h e = absurd (none-ne-some e)
log_in-Keeps checking line s s' g h e = subst (Keeps line s) (some_inj e) (logs-Keeps line s g h)
log_in-Keeps waiting line s s' g h e = subst (Keeps line s) (some_inj e) (logs-Keeps line s g h)
log_in-Keeps writing line s s' g h e = subst (Keeps line s) (some_inj e) (logs-Keeps line s g h)
log_in-Keeps ended line s s' g h e = subst (Keeps line s) (some_inj e) (logs-Keeps line s g h)

pub leave_in-Keeps :
    (p : Phase) (b : Bool) (s s' : Service)
    → IsGood s
    → s.phase ≡ p
    → leave_in p b s ≡ some s'
    → Keeps [] s s'
unfolding leave_in
leave_in-Keeps waiting b s s' g p e = absurd (none-ne-some e)
leave_in-Keeps writing b s s' g p e = absurd (none-ne-some e)
leave_in-Keeps finishing b s s' g p e = absurd (none-ne-some e)
leave_in-Keeps ended b s s' g p e = absurd (none-ne-some e)
leave_in-Keeps checking true s s' g p e = absurd (none-ne-some e)
leave_in-Keeps checking false s s' g p e = subst (Keeps [] s) (some_inj e) (
    still s (record s { phase = finishing }) (same-IsGood s s.running finishing g) refl
      (ap (λ q. in_flight q s.log) (sym p)))

pub take_in-Keeps :
    (p : Phase) (s s' : Service)
    → IsGood s
    → s.phase ≡ p
    → take_in p s ≡ some s'
    → Keeps (texts s.log.active_buffers) s s'
unfolding take_in take_buffers FixedBuffer.reset
take_in-Keeps checking s s' g p e = absurd (none-ne-some e)
take_in-Keeps writing s s' g p e = absurd (none-ne-some e)
take_in-Keeps finishing s s' g p e = absurd (none-ne-some e)
take_in-Keeps ended s s' g p e = absurd (none-ne-some e)
take_in-Keeps waiting s s' g p e =
    subst (Keeps (texts s.log.active_buffers) s) (some_inj e) (record {
      good = record {
        sized = take_buffers-IsSized s.log g.sized;
        same_file = g.same_file;
        flushed = g.flushed;
      };
      same_size = refl;
      grown =
          ap (λ t. s.log.file ++ (t ++ (texts s.log.active_buffers ++ [])))
            (texts-append s.log.buffers s.log.buffer)
          ∙ (simp (append_assoc, append-nil))
          ∙ ap
              (λ q. (s.log.file ++ (in_flight q s.log ++ held s.log)) ++ texts s.log.active_buffers)
              (sym p);
    })

pub texts-reset : (bs : List FixedBuffer) → texts (map FixedBuffer.reset bs) ≡ []
unfolding texts FixedBuffer.reset
texts-reset [] = refl
texts-reset (b ∷ bs) = texts-reset bs
