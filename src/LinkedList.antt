-- ===== src/LinkedList.antt =====
-- section-02/lab/singly_linked_list.c over a heap of nodes. A function that takes `Node **head`
-- returns the new head; `fresh` is what `malloc` returns.
pub mod Chain
pub mod Insert
pub mod Delete
mod Examples
use zhone_engineering_academ.Common.{
  ℕ, zero, suc, ◌≡◌, Bool, true, false, not, ◌&&◌, Option, none, some, List, [], ◌∷◌, ◌++◌, ℤ, ◌==◌,
  ◌==ℤ◌, if◌then◌else◌,
}

abbrev pub Ptr : Type 0
Ptr = ℕ

abbrev pub null : Ptr
null = 0

-- `struct Node`
pub record Node : Type 0 where
  pub datum : ℤ
  pub next : Ptr

abbrev pub node : ℤ → Ptr → Node
node d q = record { datum = d; next = q }

abbrev pub Heap : Type 0
Heap = Ptr → Option Node

abbrev pub update : Heap → Ptr → Option Node → Heap
update h p c q = if q == p then c else h q

-- A run ends with a value and a heap, or reads or writes where no node is, or has no fuel left.
pub data Run (A : Type 0) : Type 0 where
  done : A → Heap → Run A
  segfault : Run A
  no_fuel : Run A

abbrev pub Cmd : Type 0 → Type 0
Cmd A = Heap → Run A

module _ {A B : Type 0} where
  abbrev pub resume : (A → Cmd B) → Run A → Run B
  resume k (done a h) = k a h
  resume k segfault = segfault
  resume k no_fuel = no_fuel

  infixl 5 ◌>>=◌ ◌>>◌
  abbrev pub ◌>>=◌ : Cmd A → (A → Cmd B) → Cmd B
  m >>= k = λ h. resume k (m h)

  abbrev pub ◌>>◌ : Cmd A → Cmd B → Cmd B
  m >> k = m >>= λ _. k

-- `*p`
unfoldable pub load : Ptr → Cmd Node
load p h = if p == null then segfault else elim (h p) [ none ↦ segfault | some n ↦ done n h ]

-- `p->next = q`
unfoldable pub set_next : Ptr → Ptr → Cmd (Unit {0})
set_next p q = do n ← load p; λ h. done tt (update h p (some (node n.datum q)))

unfoldable pub free : Ptr → Cmd (Unit {0})
free p = do n ← load p; λ h. done tt (update h p none)

-- The result of `malloc` is not tested: at NULL the first write faults.
unfoldable pub create_node : (fresh : Ptr) → ℤ → Cmd Ptr
create_node fresh datum h =
    if fresh == null then segfault else done fresh (update h fresh (some (node datum null)))

unfoldable pub insert_front : (fresh : Ptr) → Ptr → ℤ → Cmd Ptr
unfolding create_node set_next
insert_front fresh head datum = do
  new_node ← create_node fresh datum
  set_next new_node head
  done new_node

-- `while (cur->next != NULL) cur = cur->next;`
unfoldable pub last_node : ℕ → Ptr → Cmd Ptr
last_node zero cur = λ h. no_fuel
last_node (suc k) cur = do n ← load cur; if n.next == null then done cur else last_node k n.next

unfoldable pub insert_back : ℕ → (fresh : Ptr) → Ptr → ℤ → Cmd Ptr
unfolding last_node
insert_back fuel fresh head datum = if head == null then create_node fresh datum else do
  cur ← last_node fuel head
  new_node ← create_node fresh datum
  set_next cur new_node
  done head

-- The loop of `delete_node`: where it stops, as `prev` and `cur`.
unfoldable pub search_node : ℕ → (prev cur : Ptr) → ℤ → Cmd (Ptr × Ptr)
search_node zero prev cur datum = λ h. no_fuel
search_node (suc k) prev cur datum = if cur == null then done (prev, cur) else do
  n ← load cur
  if n.datum ==ℤ datum then done (prev, cur) else search_node k cur n.next datum

-- `if (cur != NULL && cur->data == data) { prev->next = cur->next; free(cur); }`
unfoldable pub unlink_found : ℤ → Ptr × Ptr → Cmd (Unit {0})
unlink_found datum (prev, cur) =
    if cur == null
    then done tt
    else do n ← load cur; if n.datum ==ℤ datum then (do set_next prev n.next; free cur) else done tt

unfoldable pub delete_node : ℕ → Ptr → ℤ → Cmd Ptr
unfolding search_node unlink_found
delete_node fuel head datum = if head == null then done head else do
  n ← load head
  if n.datum ==ℤ datum
      then (do free head; done n.next)
      else do found ← search_node fuel null head datum; unlink_found datum found; done head

-- `traverse_node` with a function that reads the node: the data that `print_node` prints.
unfoldable pub traverse_node : ℕ → Ptr → Cmd (List ℤ)
traverse_node zero cur = λ h. no_fuel
traverse_node (suc k) cur =
    if cur == null
    then done []
    else do n ← load cur; rest ← traverse_node k n.next; done (n.datum ∷ rest)
