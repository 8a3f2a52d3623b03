-- ===== src/Logger/Dates.antt =====
-- The date of a line.
use linux_cpp_file_server.Base.{
  ℕ, ◌/◌, ◌<◌, ◌≡◌, refl, ap, subst, ◌∙◌, List, [], ◌∷◌, Option, none, some, arith, ◌==◌,
  Bool-cases, Option-cases, inl, inr,
}
use linux_cpp_file_server.Base.Bytes.{Bytes}
use linux_cpp_file_server.Logger.{
  LogLevel, Cache, new_cache, million, Log, Statement, is_logged, update_cache, log_line, log,
  log_all,
}

module _ (date : ℕ → Bytes) (micros : ℕ → Bytes) (tid : Bytes) where
  -- The cached text is the date of the cached second, or no date was ever cached.
  IsDated : Cache → Type 0
  IsDated c = 0 < c.t_lastsecond → c.t_time ≡ date c.t_lastsecond

  update_cache-IsDated :
      (seconds : ℕ) (c : Cache) → IsDated c → IsDated (update_cache date micros tid seconds c)
  unfolding update_cache IsDated
  update_cache-IsDated seconds c h = elim (Bool-cases (c.t_lastsecond == seconds)) [
    | inl e ↦ rw e h
    | inr e ↦ rw e (λ _. refl)
  ]

  update_cache_second :
      (seconds : ℕ) (c : Cache) → (update_cache date micros tid seconds c).t_lastsecond ≡ seconds
  unfolding update_cache
  update_cache_second seconds c = elim (Bool-cases (c.t_lastsecond == seconds)) [
    | inl e ↦ rw e (ground (arith, e))
    | inr e ↦ rw e refl
  ]

  abbrev Dated : Option (Cache × Log) → Type 0
  Dated none = Unit
  Dated (some p) = IsDated p.0

  log-Dated :
      (g : LogLevel) (s : Statement) (c : Cache) (l : Log)
      → IsDated c
      → Dated (log date micros tid g s.level s.file s.line s.items s.now (c, l))
  unfolding log
  log-Dated g s c l h =
      let c' = update_cache date micros tid (s.now / million) c in
      elim (Bool-cases (is_logged s.level g)) [
        | inr e ↦ rw e h
        | inl e ↦
            elim (Option-cases
              (log_line date micros tid s.level s.file s.line s.items s.now c' l)) [
                | inl f ↦ rw (e, f) tt
                | inr (l', f) ↦ rw (e, f) (update_cache-IsDated (s.now / million) c h)
              ]
      ]

  log_all-Dated :
      (g : LogLevel) (ss : List Statement) (o : Option (Cache × Log))
      → Dated o
      → Dated (log_all date micros tid g ss o)
  unfolding log_all
  log_all-Dated g [] o h = h
  log_all-Dated g (s ∷ ss) none h = tt
  log_all-Dated g (s ∷ ss) (some (c, l)) h =
      log_all-Dated g ss (log date micros tid g s.level s.file s.line s.items s.now (c, l))
        (log-Dated g s c l h)

  -- Whatever a thread has logged since its start, at whatever times: the date that its next line at
  -- `now` takes from the cache is the date of that second, unless it is second 0.
  pub cached_date :
      (g : LogLevel) (ss : List Statement) (l : Log) (c : Cache) (l' : Log) (now : ℕ)
      → log_all date micros tid g ss (some (new_cache, l)) ≡ some (c, l')
      → 0 < now / million
      → (update_cache date micros tid (now / million) c).t_time ≡ date (now / million)
  unfolding IsDated
  cached_date g ss l c l' now e h =
      let dated : IsDated c =
        subst Dated e (log_all-Dated g ss (some (new_cache, l)) (λ z. absurd (omega (arith, z)))) in
      let second = update_cache_second (now / million) c in
      update_cache-IsDated (now / million) c dated (omega (arith, second, h)) ∙ ap date second
