-- ===== src/LinkedList/Delete.antt =====
-- What `delete_node` makes of a list, and what `traverse_node` reads in it.
use zhone_engineering_academ.Common.{
  ◌≡◌, refl, ◌∙◌, ap, false, none, some, [], ◌∷◌, ℤ, ◌==◌, arith, true, ℕ, zero, suc, ◌<◌, length,
  map, ◌==ℤ◌, if◌then◌else◌, Bool-cases, inl, inr,
}
use zhone_engineering_academ.LinkedList.{
  Ptr, null, node, Heap, update, done, Cmd, ◌>>◌, resume, search_node, unlink_found, delete_node,
  traverse_node,
}
use zhone_engineering_academ.LinkedList.Chain.{
  Cells, has, Chain, nil, cons, Chain-update, load-done, set_next-done, free-done, Returns, returns,
  Returns-mono,
}

-- The cells without the first that holds the datum.
abbrev pub erase : ℤ → Cells → Cells
erase datum [] = []
erase datum ((p, e) ∷ cs) = if e ==ℤ datum then cs else (p, e) ∷ erase datum cs

-- The list is now `left` in place of `cs`: what left it is free, and all else is as it was.
pub record Shrunk (cs left : Cells) (p : Ptr) (h g : Heap) : Type 0 where
  pub chain : Chain g p left
  pub freed : (a : Ptr) → has a cs ≡ true → has a left ≡ false → g a ≡ none
  pub same : (a : Ptr) → has a cs ≡ false → g a ≡ h a

-- What `delete_node` does where its loop stops.
abbrev finish : Ptr → ℤ → Ptr × Ptr → Cmd Ptr
finish head datum found = do unlink_found datum found; done head

has-erase : (a : Ptr) (datum : ℤ) (cs : Cells) → has a cs ≡ false → has a (erase datum cs) ≡ false
has-erase a datum [] out = refl
has-erase a datum ((p, e) ∷ cs) out = ground (arith, has-erase a datum cs)

module _ (h : Heap) (head : Ptr) (datum : ℤ) where
  -- The node after `p` holds the datum and is unlinked.
  finish-Shrunk :
      {p q r : Ptr} {e e' : ℤ} {cs : Cells}
      → (p == null) ≡ false
      → h p ≡ some (node e q)
      → has p ((q, e') ∷ cs) ≡ false
      → (q == null) ≡ false
      → h q ≡ some (node e' r)
      → has q cs ≡ false
      → Chain h r cs
      → (e' ==ℤ datum) ≡ true
      → Returns
          (λ s g. (s ≡ head) × Shrunk ((p, e) ∷ (q, e') ∷ cs) ((p, e) ∷ cs) p h g)
          (finish head datum (p, q) h)
  unfolding unlink_found
  finish-Shrunk {p} {q} {r} {e} {e'} live holds new live' holds' new' ch hit =
      rw
        (
          live',
          load-done h q live' holds',
          hit,
          set_next-done h p live holds r,
          free-done (update h p (some (node e r))) q {d = e'} {q = r} live' (ground (arith)),
        )
        (returns (
          refl,
          record {
            chain =
                cons live (ground arith) (ground arith)
                  (Chain-update q none (Chain-update p _ ch (ground arith)) new');
            freed = λ a inside outside. ground arith;
            same = λ a outside. ground arith;
          },
        ))

  search_node-Shrunk :
      (k : ℕ) {p q : Ptr} {e : ℤ} {cs : Cells}
      → (p == null) ≡ false
      → h p ≡ some (node e q)
      → has p cs ≡ false
      → Chain h q cs
      → length cs < k
      → Returns
          (λ s g. (s ≡ head) × Shrunk ((p, e) ∷ cs) ((p, e) ∷ erase datum cs) p h g)
          (resume (finish head datum) (search_node k p q datum h))
  unfolding search_node unlink_found
  search_node-Shrunk zero live holds new ch enough = absurd (omega arith)
  search_node-Shrunk (suc k) {e} live holds new (nil z) enough = rw z (
      returns (
        refl,
        record {
          chain = cons live (holds ∙ ap (λ x. some (node e x)) z) refl (nil refl);
          freed = λ a inside outside. ground (arith);
          same = λ a outside. refl;
        },
      ))
  search_node-Shrunk (suc k) {p} {q} {e} live holds new
        (cons {q = r} {d = e'} {cs} live' holds' new' ch) enough =
      rw (live', load-done h q live' holds')
        (elim (Bool-cases (e' ==ℤ datum)) [
          | inl hit ↦ rw hit (finish-Shrunk live holds new live' holds' new' ch hit)
          | inr miss ↦ rw miss (
              Returns-mono (search_node-Shrunk k live' holds' new' ch (omega arith))
                λ s g (is, was). (
                  is,
                  record {
                    chain =
                        cons live (was.same p new ∙ holds) (ground (arith, has-erase p datum cs))
                          was.chain;
                    freed = λ a inside outside. was.freed a (ground (arith)) (ground (arith));
                    same = λ a outside. was.same a (ground (arith));
                  },
                ))
        ])

module _ (h : Heap) where
  -- `delete_node` takes the first node with the datum out of the list, if there is one, and frees
  -- it. No other node's place in the list changes, nothing outside the list does, and with fuel
  -- for each node and one more it returns.
  pub delete_node-Shrunk :
      (fuel : ℕ) {head : Ptr} {cs : Cells} (datum : ℤ)
      → Chain h head cs
      → length cs < fuel
      → Returns (λ p g. Shrunk cs (erase datum cs) p h g) (delete_node fuel head datum h)
  unfolding delete_node
  delete_node-Shrunk fuel datum (nil z) enough = rw z (
      returns (record {
        chain = nil refl;
        freed = λ a inside outside. ground (arith);
        same = λ a outside. refl;
      }))
  delete_node-Shrunk zero datum (cons live holds new ch) enough = absurd (omega arith)
  delete_node-Shrunk (suc k) {head} datum (cons {q} {d = e} {cs} live holds new ch) enough =
      rw (live, load-done h head live holds)
        (elim (Bool-cases (e ==ℤ datum)) [
          | inl hit ↦
              rw (hit, free-done h head live holds)
                (returns (record {
                  chain = Chain-update head none ch new;
                  freed = λ a inside outside. ground (arith);
                  same = λ a outside. ground (arith);
                }))
          | inr miss ↦ rw miss (
              rw (load-done h head live holds, miss)
                (Returns-mono (search_node-Shrunk h head datum k live holds new ch (omega arith))
                  λ s g (is, was). rw is was))
        ])

  -- `traverse_node` visits the nodes in their order, each once, and changes nothing. With fuel for
  -- each node and the end it returns.
  pub traverse_node-Chain :
      (fuel : ℕ) {p : Ptr} {cs : Cells}
      → Chain h p cs
      → length cs < fuel
      → traverse_node fuel p h ≡ done (map (λ (_, e). e) cs) h
  unfolding traverse_node
  traverse_node-Chain zero ch enough = absurd (omega arith)
  traverse_node-Chain (suc k) (nil z) enough = rw z
  traverse_node-Chain (suc k) {p} (cons live holds new ch) enough =
      rw (live, load-done h p live holds, traverse_node-Chain k ch (omega arith))
