-- ===== src/Client/Introspect/Inspector.antt =====
-- The list of requests: what it holds, and in what order.
use neutun.Base.{ltb, ◌≤◌, List, [], ◌∷◌, arith, Bool-cases, inl, inr}
use mathlib.Core.List.{Perm, Pairwise, Pairwise-singleton, Mem, forall_mem-cons}
use mathlib.Core.List.Perm
use native.Mathlib.Bridge.{le_prop}
use native.Mathlib.Nat.{le_trans}
use neutun.Table
use neutun.Table.{Table}
use neutun.Client.Introspect.{Request, insert_by_completed, sort_by_completed, inspector}

-- The first is completed no earlier than the second.
abbrev pub NoEarlier : Request → Request → Type 0
NoEarlier a b = b.completed ≤ a.completed

abbrev IsNoEarlier : Request → List Request → Type 0
IsNoEarlier a l = (x : Request) → Mem x l → NoEarlier a x

IsNoEarlier-cons :
    (a b : Request) (l : List Request) → NoEarlier a b → IsNoEarlier a l → IsNoEarlier a (b ∷ l)
IsNoEarlier-cons a b l p h = (forall_mem-cons (λ x. le_prop)).1 (p, h)

insert_by_completed-perm : (r : Request) (l : List Request) → Perm (insert_by_completed r l) (r ∷ l)
unfolding insert_by_completed
insert_by_completed-perm r [] = Perm.rfl
insert_by_completed-perm r (q ∷ qs) = elim (Bool-cases (ltb r.completed q.completed)) [
  | inl later ↦
      rw (later, insert_by_completed)
        (Perm.trans (Perm.cons q (insert_by_completed-perm r qs)) (Perm.swap r q qs))
  | inr sooner ↦ rw (sooner, insert_by_completed) Perm.rfl
]

insert_by_completed-Pairwise :
    (r : Request) {l : List Request}
    → Pairwise NoEarlier l
    → Pairwise NoEarlier (insert_by_completed r l)
unfolding insert_by_completed
insert_by_completed-Pairwise r Pairwise.nil = Pairwise-singleton _ r
insert_by_completed-Pairwise r (Pairwise.cons {a = q} {l = qs} below s) =
    elim (Bool-cases (ltb r.completed q.completed)) [
      | inl later ↦
          rw (later, insert_by_completed)
            (Pairwise.cons
              (λ x m.
                IsNoEarlier-cons q r qs (ground arith) below x
                  ((Perm.mem_iff (insert_by_completed-perm r qs)).0 m))
              (insert_by_completed-Pairwise r s))
      | inr sooner ↦
          let order : NoEarlier r q = ground arith in
          rw (sooner, insert_by_completed)
            (Pairwise.cons (IsNoEarlier-cons r q qs order (λ x m. le_trans (below x m) order))
              (Pairwise.cons below s))
    ]

sort_by_completed-perm : (l : List Request) → Perm (sort_by_completed l) l
unfolding sort_by_completed
sort_by_completed-perm [] = Perm.rfl
sort_by_completed-perm (r ∷ rs) =
    Perm.trans (insert_by_completed-perm r (sort_by_completed rs))
      (Perm.cons r (sort_by_completed-perm rs))

sort_by_completed-Pairwise : (l : List Request) → Pairwise NoEarlier (sort_by_completed l)
unfolding sort_by_completed
sort_by_completed-Pairwise [] = Pairwise.nil
sort_by_completed-Pairwise (r ∷ rs) = insert_by_completed-Pairwise r (sort_by_completed-Pairwise rs)

-- The dashboard lists every kept request once, and the one that was completed last comes first.
pub inspector-Pairwise :
    (requests : Table Request)
    → Perm (inspector requests) (Table.values requests) × Pairwise NoEarlier (inspector requests)
unfolding inspector
inspector-Pairwise requests = (
  sort_by_completed-perm (Table.values requests),
  sort_by_completed-Pairwise (Table.values requests),
)
