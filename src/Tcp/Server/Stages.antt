-- ===== src/Tcp/Server/Stages.antt =====
-- The stages of a connection's life, descriptor by descriptor.
use linux_cpp_file_server.Base.{
  ℕ, ◌+◌, ◌≡◌, refl, ◌∙◌, true, false, List, [], ◌∷◌, ◌++◌, Option, none, some, arith, ◌==◌, ==_iff,
  if◌then◌else◌, Bool-cases, Option-cases, inl, inr,
}
use linux_cpp_file_server.Tcp.Connection.{ConnectionState, connected, disconnected}
use linux_cpp_file_server.Tcp.Server.{Connection, find_connection}
use linux_cpp_file_server.Tcp.Server.Lives.{
  Object, System, Result, impossible, goes_on, at, without,
}
use linux_cpp_file_server.Tcp.Server.Table.{IsServer}

-- The calls for a descriptor in a queue.
abbrev pub count : ℕ → List Connection → ℕ
count fd [] = 0
count fd (c ∷ cs) = (if c.fd == fd then 1 else 0) + count fd cs

-- An object of a descriptor, in a state.
pub record Is (fd : ℕ) (state : ConnectionState) (x : Object) : Type 0 where
  pub same_fd : x.entry.fd ≡ fd
  pub same_state : x.connection.state ≡ state

-- The object of a descriptor, what the table finds under it, and how many calls of
-- `HandleCloseInLoop` and of `ConnectionDestructor` wait for it.
pub data Stage (fd : ℕ) (o : Option Object) (t : Option Connection) (n m : ℕ) : Type 0 where
  free : o ≡ none → t ≡ none → n ≡ 0 → m ≡ 0 → Stage fd o t n m
  living :
      (x : Object)
      → o ≡ some x
      → Is fd connected x
      → t ≡ some x.entry
      → n ≡ 0
      → m ≡ 0
      → Stage fd o t n m
  closing :
      (x : Object)
      → o ≡ some x
      → Is fd disconnected x
      → t ≡ some x.entry
      → n ≡ 1
      → m ≡ 0
      → Stage fd o t n m
  leaving :
      (x : Object) → o ≡ some x → Is fd disconnected x → t ≡ none → n ≡ 0 → m ≡ 1 → Stage fd o t n m

abbrev pub StageOf : System → ℕ → Type 0
StageOf s fd =
    Stage fd (s.objects fd) (find_connection fd s.server.connections) (count fd s.closings)
      (count fd s.server.destructors)

-- Every descriptor is at one of the stages.
pub record IsSystem (s : System) : Type 0 where
  pub ready : IsServer s.server
  pub stages : (fd : ℕ) → StageOf s fd

-- The same stage, written in another way.
pub moved :
    (fd : ℕ) {o o' : Option Object} {t t' : Option Connection} {n n' m m' : ℕ}
    → o' ≡ o
    → t' ≡ t
    → n' ≡ n
    → m' ≡ m
    → Stage fd o t n m
    → Stage fd o' t' n' m'
moved fd a b c d (free e f g h) = free (a ∙ e) (b ∙ f) (c ∙ g) (d ∙ h)
moved fd a b c d (living x e i f g h) = living x (a ∙ e) i (b ∙ f) (c ∙ g) (d ∙ h)
moved fd a b c d (closing x e i f g h) = closing x (a ∙ e) i (b ∙ f) (c ∙ g) (d ∙ h)
moved fd a b c d (leaving x e i f g h) = leaving x (a ∙ e) i (b ∙ f) (c ∙ g) (d ∙ h)

pub count-append :
    (fd : ℕ) (xs ys : List Connection) → count fd (xs ++ ys) ≡ count fd xs + count fd ys
count-append fd [] ys = omega arith
count-append fd (c ∷ xs) ys = omega (arith, count-append fd xs ys)

pub count_add :
    (fd : ℕ) (xs : List Connection) (c : Connection)
    → count fd (xs ++ c ∷ []) ≡ (if c.fd == fd then 1 else 0) + count fd xs
count_add fd xs c = omega (arith, count-append fd xs (c ∷ []))

pub self : (fd : ℕ) → (fd == fd) ≡ true
self fd = ground arith

pub at_same {ℓ} : {A : Type ℓ} (k : ℕ) (v : A) (f : ℕ → A) → at k v f k ≡ v
at_same k v f = rw (self k) refl

pub at_other {ℓ} : {A : Type ℓ} (k j : ℕ) (v : A) (f : ℕ → A) → (k == j) ≡ false → at k v f j ≡ f j
at_other k j v f e = rw e refl

pub same_of : (a b : ℕ) → (a == b) ≡ true → a ≡ b
same_of a b e = (==_iff a b).0 e

-- What an event leads to: a system again, if it can happen.
pub data Safe : Result → Type 0 where
  cannot : Safe impossible
  goes : {s : System} → IsSystem s → Safe (goes_on s)

pub none-ne-some : {A : Type 0} {a : A} {o : Option A} → o ≡ none → o ≡ some a → ⊥
none-ne-some p q = cc

-- The queue of the loops, with one call taken out.
pub without-count :
    (fd other : ℕ) (cs rest : List Connection)
    → without fd cs ≡ some rest
    → count other cs ≡ (if fd == other then 1 else 0) + count other rest
unfolding without
without-count fd other [] rest e = absurd (none-ne-some refl e)
without-count fd other (c ∷ cs) rest e = elim (Bool-cases (c.fd == fd)) [
  | inl h ↦
      let same : c.fd ≡ fd = same_of c.fd fd h in
      let tail : cs ≡ rest = some_inj (rw (h, without) at e) in rw (← tail) (rw same refl)
  | inr h ↦ elim (Option-cases (without fd cs)) [
    | inl n ↦ absurd (none-ne-some refl (rw (h, n, without) at e))
    | inr (r, f) ↦
        let tail : c ∷ r ≡ rest = some_inj (rw (h, f, without) at e) in
        rw (← tail) (omega (arith, without-count fd other cs r f))
  ]
]
  where
    some_inj : {A : Type 0} {a b : A} → some a ≡ some b → a ≡ b
    some_inj p = cc
