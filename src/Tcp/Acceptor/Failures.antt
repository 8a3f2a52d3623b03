-- ===== src/Tcp/Acceptor/Failures.antt =====
-- What failures of the socket calls come to.
use linux_cpp_file_server.Base.{
  ℕ, ◌≡◌, refl, ap, ◌∙◌, Bool, List, [], ◌∷◌, ◌++◌, none, some, Option-cases, inl, inr,
}
use linux_cpp_file_server.Tcp.Acceptor.{
  Acceptor, create, bind, listen, new_acceptor, accept_connection, call, next, accept_all,
}
use linux_cpp_file_server.Tcp.Server.{Accepted, accept_failed, TcpServer, handle_new_connection}

-- A failing `socket` ends the program; whether `bind` and `listen` succeed, the acceptor is there.
pub new_acceptor_lem :
    (bound listening : Bool)
    → (new_acceptor none bound listening ≡ none)
      × ((fd : ℕ)
          → (a : Acceptor) × (new_acceptor (some fd) bound listening ≡ some a)
            × (a.listenfd ≡ some fd)
            × (a.bound ≡ bound)
            × (a.listening ≡ listening))
unfolding new_acceptor create bind listen
new_acceptor_lem bound listening = (
  refl,
  λ fd.
      (record { listenfd = some fd; bound = bound; listening = listening }, refl, refl, refl, refl),
)

accept_failing :
    (a : Acceptor) (s : TcpServer)
    → accept_connection (some handle_new_connection) accept_failed a s ≡ none
unfolding accept_connection handle_new_connection
accept_failing a s = elim (Option-cases a.listenfd) [
  | inl e ↦
      ap (λ o. elim o [ none ↦ none | some _ ↦ call (some handle_new_connection) accept_failed s ])
        e
  | inr (fd, e) ↦
      ap (λ o. elim o [ none ↦ none | some _ ↦ call (some handle_new_connection) accept_failed s ])
        e
]

-- Whatever the server has accepted before and whatever would come after, one `accept4` that fails
-- ends the program: its -1 reaches the assertion of `HandleNewConnection`.
pub accept_all_failing :
    (a : Acceptor) (before after : List Accepted) (s : TcpServer)
    → accept_all a (before ++ accept_failed ∷ after) s ≡ none
unfolding accept_all
accept_all_failing a [] after s = ap (next (accept_all a after)) (accept_failing a s)
accept_all_failing a (r ∷ before) after s =
    elim (Option-cases (accept_connection (some handle_new_connection) r a s)) [
      | inl e ↦ ap (next (accept_all a (before ++ accept_failed ∷ after))) e
      | inr (s', e) ↦
          ap (next (accept_all a (before ++ accept_failed ∷ after))) e
          ∙ accept_all_failing a before after s'
    ]
