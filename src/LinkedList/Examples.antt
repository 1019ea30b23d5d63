-- ===== src/LinkedList/Examples.antt =====
-- `main` of singly_linked_list.c, with `malloc` giving the addresses 1 to 6.
use zhone_engineering_academ.Common.{
  ◌≡◌, refl, Option, none, some, List, [], ◌∷◌, ◌++◌, ℤ, pos, arith,
}
use zhone_engineering_academ.LinkedList.{
  load, free, null, node, Heap, update, Run, done, Cmd, ◌>>=◌, insert_front, insert_back,
  delete_node, traverse_node,
}
use zhone_engineering_academ.LinkedList.Chain.{Cells, Chain, nil, cons, Returns, SameBeyond}
use zhone_engineering_academ.LinkedList.Insert.{insert_back-Chain}
use zhone_engineering_academ.LinkedList.Delete.{Shrunk, delete_node-Shrunk}

abbrev main : Cmd (List ℤ)
main = do
  a ← insert_back 9 1 null (pos 1)
  b ← insert_back 9 2 a (pos 2)
  c ← insert_back 9 3 b (pos 3)
  d ← insert_back 9 4 c (pos 4)
  e ← insert_back 9 5 d (pos 5)
  f ← insert_front 6 e (pos 1000)
  g ← delete_node 9 f (pos 3)
  traverse_node 9 g

abbrev printed : {A : Type 0} → Run A → Option A
printed (done a h) = some a
printed _ = none

main-prints : printed (main (λ a. none)) ≡ some (pos 1000 ∷ pos 1 ∷ pos 2 ∷ pos 4 ∷ pos 5 ∷ [])
unfolding insert_front insert_back delete_node traverse_node load free
main-prints = refl

-- Two nodes, at 7 and 4.
abbrev two_nodes : Heap
two_nodes = update (update (λ a. none) 7 (some (node (pos 1) 4))) 4 (some (node (pos 2) null))

abbrev cells : Cells
cells = (7, pos 1) ∷ (4, pos 2) ∷ []

two_nodes-Chain : Chain two_nodes 7 cells
two_nodes-Chain = cons refl refl refl (cons refl refl refl (nil refl))

insert_back-Chain_example :
    Returns
      (λ p g. Chain g p (cells ++ ((3, pos 0) ∷ [])) × SameBeyond cells 3 two_nodes g)
      (insert_back 2 3 7 (pos 0) two_nodes)
insert_back-Chain_example =
    insert_back-Chain two_nodes 3 (pos 0) refl refl 2 two_nodes-Chain (omega arith)

delete_node-Shrunk_example :
    Returns
      (λ p g. Shrunk cells ((7, pos 1) ∷ []) p two_nodes g)
      (delete_node 3 7 (pos 2) two_nodes)
delete_node-Shrunk_example = delete_node-Shrunk two_nodes 3 (pos 2) two_nodes-Chain (omega arith)
