-- ===== src/Http/Reply/Order.antt =====
-- The order in which the headers are walked.
use linux_cpp_file_server.Base.{
  ◌≡◌, ◌≢◌, refl, sym, ◌∙◌, false, [], ◌∷◌, All, arith, Bool-cases, inl, inr,
}
use linux_cpp_file_server.Base.Bytes.{Bytes, bytes_eq, bytes_eq_iff, Dictionary, lookup, insert}
use linux_cpp_file_server.Http.Wire.{Distinct}

-- The same entries in another order: what the standard says of walking an `unordered_map`.
pub data Reordered : Dictionary → Dictionary → Type 0 where
  same : (m : Dictionary) → Reordered m m
  under : (h : Bytes × Bytes) {m n : Dictionary} → Reordered m n → Reordered (h ∷ m) (h ∷ n)
  swapped : (g h : Bytes × Bytes) (m : Dictionary) → Reordered (g ∷ h ∷ m) (h ∷ g ∷ m)
  followed : {l m n : Dictionary} → Reordered l m → Reordered m n → Reordered l n

pub Reordered-All {ℓ} :
    (P : Bytes × Bytes → Type ℓ) {m n : Dictionary} → Reordered m n → All P m → All P n
Reordered-All P (same m) a = a
Reordered-All P (under h r) a = (a.0, Reordered-All P r a.1)
Reordered-All P (swapped g h m) a = (a.1.0, (a.0, a.1.1))
Reordered-All P (followed r s) a = Reordered-All P s (Reordered-All P r a)

pub Reordered-Distinct : {m n : Dictionary} → Reordered m n → Distinct m → Distinct n
Reordered-Distinct (same m) d = d
Reordered-Distinct (under h r) d = (Reordered-All (λ g. g.0 ≢ h.0) r d.0, Reordered-Distinct r d.1)
Reordered-Distinct (swapped g h m) d = (((λ e. d.0.0 (sym e)), d.1.0), (d.0.1, d.1.1))
Reordered-Distinct (followed r s) d = Reordered-Distinct s (Reordered-Distinct r d)

lookup-under :
    (k : Bytes) (h : Bytes × Bytes) (m n : Dictionary)
    → lookup k n ≡ lookup k m
    → lookup k (h ∷ n) ≡ lookup k (h ∷ m)
unfolding lookup
lookup-under k (j, v) m n e = rw e refl

lookup-swapped :
    (k : Bytes) (g h : Bytes × Bytes) (m : Dictionary)
    → h.0 ≢ g.0
    → lookup k (h ∷ g ∷ m) ≡ lookup k (g ∷ h ∷ m)
unfolding lookup
lookup-swapped k (i, v) (j, w) m d = ground (arith, bytes_eq_iff i k, bytes_eq_iff j k)

-- Where no key occurs twice, the order does not matter to a search.
pub lookup-Reordered :
    (k : Bytes) {m n : Dictionary} → Reordered m n → Distinct m → lookup k n ≡ lookup k m
lookup-Reordered k (same m) d = refl
lookup-Reordered k (under h {m} {n} r) d = lookup-under k h m n (lookup-Reordered k r d.1)
lookup-Reordered k (swapped g h m) d = lookup-swapped k g h m d.0.0
lookup-Reordered k (followed r s) d =
    lookup-Reordered k s (Reordered-Distinct r d) ∙ lookup-Reordered k r d

pub All-insert {ℓ} :
    (P : Bytes × Bytes → Type ℓ) (k v : Bytes) (m : Dictionary)
    → P (k, v)
    → All P m
    → All P (insert k v m)
unfolding insert
All-insert P k v [] p a = (p, tt)
All-insert P k v ((j, w) ∷ m) p a = elim (Bool-cases (bytes_eq j k)) [
  | inl e ↦ rw e (p, a.1)
  | inr e ↦ rw e (a.0, All-insert P k v m p a.1)
]

-- Setting a header keeps the keys apart.
pub insert-Distinct : (k v : Bytes) (m : Dictionary) → Distinct m → Distinct (insert k v m)
unfolding insert
insert-Distinct k v [] d = (tt, tt)
insert-Distinct k v ((j, w) ∷ m) d = elim (Bool-cases (bytes_eq j k)) [
  | inl e ↦ let same_key : j ≡ k = (bytes_eq_iff j k).0 e in rw e (rw same_key at d)
  | inr e ↦ rw e (
    All-insert (λ g. g.0 ≢ j) k v m (λ same_key. absurd (differ (sym same_key) e)) d.0,
    insert-Distinct k v m d.1,
  )
]
  where
    differ : j ≡ k → bytes_eq j k ≡ false → ⊥
    differ s f = ground (arith, bytes_eq_iff j k)
