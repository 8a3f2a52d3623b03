-- ===== src/Logger/Globals.antt =====
-- `g_output`, `g_flush` and `g_logLevel` of utils/Logger.cpp: where the lines go. `S` is what the two
-- functions act on.
use linux_cpp_file_server.Base.{
  ℕ, ◌≡◌, refl, Bool, true, false, [], ◌∷◌, ◌++◌, some, ◌==◌, if◌then◌else◌, Bool-cases, inl, inr,
}
use linux_cpp_file_server.Base.Bytes.{Bytes}
use linux_cpp_file_server.FixedBuffer.{FixedBuffer}
use linux_cpp_file_server.Logger.{LogLevel, debug, fatal, level_number, Log, logged}

pub record Globals (S : Type 0) : Type 0 where
  pub g_output : Bytes → S → S
  pub g_flush : S → S
  pub g_log_level : LogLevel

-- Whether `abort` was called, and what the program has done until then.
pub record Program (S : Type 0) : Type 0 where
  pub state : S
  pub aborted : Bool

-- The initial values; `fwrite` and `fflush` act on the standard output.
abbrev pub new_globals : {S : Type 0} → (Bytes → S → S) → (S → S) → Globals S
new_globals fwrite fflush = record { g_output = fwrite; g_flush = fflush; g_log_level = debug }

-- `setOutput`
unfoldable pub set_output : {S : Type 0} → (Bytes → S → S) → Globals S → Globals S
set_output f g = record g { g_output = f }

-- `setFlush`
unfoldable pub set_flush : {S : Type 0} → (S → S) → Globals S → Globals S
set_flush f g = record g { g_flush = f }

-- `setLogLevel`
unfoldable pub set_log_level : {S : Type 0} → LogLevel → Globals S → Globals S
set_log_level level g = record g { g_log_level = level }

-- The destructor of a `Logger`, after `Finish`: only a fatal line is flushed, and ends the program.
unfoldable pub destroy_logger : {S : Type 0} → Globals S → LogLevel → FixedBuffer → S → Program S
destroy_logger g level b s =
    let written = g.g_output b.written s in
    if level_number level == level_number fatal
    then record { state = g.g_flush written; aborted = true }
    else record { state = written; aborted = false }

-- With an output that keeps the lines, the destructor does what `logged` says of a line: it writes
-- the whole line before it flushes, and aborts for a fatal line only.
pub logged-destroy_logger :
    (date micros : ℕ → Bytes) (tid : Bytes) (g : Globals Log) (level : LogLevel) (b : FixedBuffer)
    (l : Log)
    → let kept =
        set_flush
          (λ m. m)
          (set_output (λ line m. record m { outputs = m.outputs ++ line ∷ [] }) g) in
      let p = destroy_logger kept level b l in
      logged date micros tid level (some b) l ≡ some (record p.state { aborted = p.aborted })
unfolding destroy_logger set_flush set_output
logged-destroy_logger date micros tid g level b l =
    elim (Bool-cases (level_number level == level_number fatal)) [
      | inl e ↦ rw e refl
      | inr e ↦ rw e refl
    ]
