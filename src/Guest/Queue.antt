-- ===== src/Guest/Queue.antt =====
-- The queue of messages to a guest, kernel/guest.c.
use microkernal.Common.{
  Bool-cases, List, [], ap, arith, count_if, inl, inr, refl, some, sym, ℕ, ◌++◌, ◌==◌, ◌∙◌, ◌∷◌,
  ◌≡◌,
}
use microkernal.Guest.{Message, insert_syscall, next_syscall, query_user_pages}

-- A message goes behind those that wait.
pub insert_syscall-append : (m : Message) (q : List Message) → insert_syscall m q ≡ q ++ (m ∷ [])
unfolding insert_syscall
insert_syscall-append m [] = refl
insert_syscall-append m (x ∷ []) = refl
insert_syscall-append m (x ∷ y ∷ q) = ap (◌∷◌ x) (insert_syscall-append m (y ∷ q))

-- A message that waits first is the next one, however many have come behind it.
pub next_syscall-insert_syscall :
    (m n : Message) (q : List Message)
    → next_syscall (insert_syscall m (n ∷ q)) ≡ some (n, insert_syscall m q)
unfolding next_syscall
next_syscall-insert_syscall m n q =
    ap next_syscall (insert_syscall-append m (n ∷ q))
    ∙ ap (λ l. some (n, l)) (sym (insert_syscall-append m q))

-- The answer of `sys_gquery_user_pages` is the number of pages with status 1, and its map is the guest's.
pub query_user_pages-count : (os : List ℕ) → query_user_pages os ≡ (count_if (λ o. o == 1) os, os)
unfolding query_user_pages count_if
query_user_pages-count [] = refl
query_user_pages-count (o ∷ os) = elim (Bool-cases (o == 1)) [
  | inl e ↦ rw (query_user_pages-count os) (rw e (ap (λ n. (n, o ∷ os)) (omega arith)))
  | inr e ↦ rw (query_user_pages-count os) (rw e (ap (λ n. (n, o ∷ os)) (omega arith)))
]
