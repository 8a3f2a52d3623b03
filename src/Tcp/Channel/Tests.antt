-- ===== src/Tcp/Channel/Tests.antt =====
-- A channel and a table of registrations.
use linux_cpp_file_server.Base.{
  ℕ, ◌+◌, ◌≡◌, ◌≢◌, refl, ap, true, false, [], ◌∷◌, Option, none, some, ◌==◌, if◌then◌else◌, arith,
}
use linux_cpp_file_server.Tcp.Channel.{
  Epoll, Channel, new_channel, call, handle_event, set_ready_events,
}
use linux_cpp_file_server.Tcp.Channel.Interest.{
  reading, writing, edge_triggered, not_writing, asked_all, no_interest, apply_all, Implements,
  registered_interest,
}
use linux_cpp_file_server.Tcp.Channel.Dispatch.{Report, report_events, handle_event_lem}

abbrev registered : ℕ → Option ℕ → (ℕ → Option ℕ) → ℕ → Option ℕ
registered fd ev k other = if other == fd then ev else k other

registered_same : (fd : ℕ) (ev : Option ℕ) (k : ℕ → Option ℕ) → registered fd ev k fd ≡ ev
registered_same fd ev k = ap (λ b. if b then ev else k fd) {x = fd == fd} {y = true} (ground arith)

registered_other :
    (fd : ℕ) (ev : Option ℕ) (other : ℕ) (k : ℕ → Option ℕ)
    → other ≢ fd
    → registered fd ev k other ≡ k other
registered_other fd ev other k h =
    ap (λ b. if b then ev else k other) {x = other == fd} {y = false} (ground arith)

abbrev table : Epoll
table = record {
  Kernel = ℕ → Option ℕ;
  interest = λ k. k;
  ctl_add = λ fd ev. registered fd (some ev);
  ctl_mod = λ fd ev. registered fd (some ev);
  ctl_del = λ fd. registered fd none;
  added = λ fd ev k _. registered_same fd (some ev) k;
  modified = λ fd ev _ k _. registered_same fd (some ev) k;
  deleted = λ fd k. registered_same fd none k;
  added_others = λ fd ev other k h. registered_other fd (some ev) other k h;
  modified_others = λ fd ev other k h. registered_other fd (some ev) other k h;
  deleted_others = λ fd other k h. registered_other fd none other k h;
}

registered_interest_example :
    Implements {S = ℕ} table 5
      (λ _. none)
      (asked_all (reading ∷ edge_triggered ∷ writing ∷ not_writing ∷ []) no_interest)
      (apply_all table
        (reading ∷ edge_triggered ∷ writing ∷ not_writing ∷ [])
        (new_channel 5 false, λ _. none))
registered_interest_example =
    registered_interest table (reading ∷ edge_triggered ∷ writing ∷ not_writing ∷ []) 5 false
      (λ _. none) refl

abbrev counting : Channel ℕ
counting = record (new_channel 5 true) { read_callback = some (λ n. n + 1); write_callback = none }

abbrev hung_up_report : Report
hung_up_report = record {
  readable = false;
  urgent = false;
  writable = true;
  failed = false;
  hung_up = true;
  peer_closed = true;
}

handle_event_lem_example :
    handle_event (set_ready_events (report_events hung_up_report) counting) 7
    ≡ call true none (call true (some (λ n. n + 1)) 7)
handle_event_lem_example = handle_event_lem hung_up_report counting 7
