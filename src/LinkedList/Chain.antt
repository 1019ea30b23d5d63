-- ===== src/LinkedList/Chain.antt =====
-- The nodes that a list of singly_linked_list.c consists of.
use zhone_engineering_academ.Common.{
  ◌≡◌, refl, ◌∙◌, Bool, false, ◌||◌, Option, none, some, List, [], ◌∷◌, ◌++◌, ℤ, ◌==◌, arith, true,
}
use zhone_engineering_academ.LinkedList.{
  Node, Ptr, null, node, Heap, update, load, set_next, free, done, Run,
}

-- The address and the datum of each node, in order.
abbrev pub Cells : Type 0
Cells = List (Ptr × ℤ)

abbrev pub has : Ptr → Cells → Bool
has a [] = false
has a ((p, _) ∷ cs) = p == a || has a cs

-- From `p` the `next` pointers lead through these nodes, no two at one address, to NULL.
pub data Chain (h : Heap) : Ptr → Cells → Type 0 where
  nil : {p : Ptr} → p ≡ null → Chain h p []
  cons :
      {p q : Ptr} {d : ℤ} {cs : Cells}
      → (p == null) ≡ false
      → h p ≡ some (node d q)
      → has p cs ≡ false
      → Chain h q cs
      → Chain h p ((p, d) ∷ cs)

module _ {h : Heap} where
  -- A heap that agrees on the addresses of a chain has the chain too.
  pub Chain-frame :
      {g : Heap} {p : Ptr} {cs : Cells}
      → Chain h p cs
      → ((a : Ptr) → has a cs ≡ true → g a ≡ h a)
      → Chain g p cs
  Chain-frame (nil e) same = nil e
  Chain-frame (cons {p} live holds new rest) same =
      cons live (same p (ground arith) ∙ holds) new
        (Chain-frame rest (λ a inside. same a (ground arith)))

  pub Chain-update :
      {p : Ptr} {cs : Cells} (a : Ptr) (c : Option Node)
      → Chain h p cs
      → has a cs ≡ false
      → Chain (update h a c) p cs
  Chain-update a c ch out = Chain-frame ch (λ b inside. ground (arith))

  -- An address without a node is not in a chain.
  pub not_in_of_none :
      {p : Ptr} {cs : Cells} (a : Ptr) → Chain h p cs → h a ≡ none → has a cs ≡ false
  not_in_of_none a (nil e) unused = refl
  not_in_of_none a (cons {p} live holds new rest) unused =
      ground (arith, not_in_of_none a rest unused)

module _ (h : Heap) (p : Ptr) {d : ℤ} {q : Ptr} (live : (p == null) ≡ false)
    (holds : h p ≡ some (node d q)) where
  pub load-done : load p h ≡ done (node d q) h
  unfolding load
  load-done = rw (live, holds)

  pub set_next-done : (r : Ptr) → set_next p r h ≡ done tt (update h p (some (node d r)))
  unfolding set_next
  set_next-done r = rw load-done

  pub free-done : free p h ≡ done tt (update h p none)
  unfolding free
  free-done = rw load-done

-- The run ends, and with a value and a heap of which `P` holds.
pub data Returns {A : Type 0} (P : A → Heap → Type 0) : Run A → Type 0 where
  returns : {a : A} {h : Heap} → P a h → Returns P (done a h)

pub Returns-mono :
    {A : Type 0} {P Q : A → Heap → Type 0} {r : Run A}
    → Returns P r
    → ((a : A) (h : Heap) → P a h → Q a h)
    → Returns Q r
Returns-mono (returns {a} {h} holds) next = returns (next a h holds)

pub has-append : (a : Ptr) (xs ys : Cells) → has a (xs ++ ys) ≡ (has a xs || has a ys)
has-append a [] ys = refl
has-append a ((p, d) ∷ xs) ys = ground (arith, has-append a xs ys)

-- The two heaps agree on every address that is neither in the cells nor `fresh`.
abbrev pub SameBeyond : Cells → Ptr → Heap → Heap → Type 0
SameBeyond cs fresh h g = (a : Ptr) → has a cs ≡ false → (a == fresh) ≡ false → g a ≡ h a

-- A node and a free address are two addresses.
pub node-apart : (h : Heap) (p a : Ptr) {n : Node} → h p ≡ some n → h a ≡ none → (p == a) ≡ false
node-apart h p a holds unused = ground arith
