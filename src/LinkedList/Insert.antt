-- ===== src/LinkedList/Insert.antt =====
-- What `insert_front` and `insert_back` make of a list.
use zhone_engineering_academ.Common.{
  ◌≡◌, refl, ◌∙◌, ap, false, none, some, [], ◌∷◌, ◌++◌, ℤ, ◌==◌, arith, ℕ, zero, suc, ◌<◌, length,
  ◌≤◌,
}
use zhone_engineering_academ.LinkedList.{
  Ptr, null, node, Heap, update, set_next, done, Cmd, ◌>>=◌, ◌>>◌, resume, create_node,
  insert_front, insert_back, last_node,
}
use zhone_engineering_academ.LinkedList.Chain.{
  Cells, has, Chain, nil, cons, Chain-update, not_in_of_none, load-done, set_next-done, Returns,
  returns, has-append, SameBeyond, Returns-mono, node-apart,
}

-- What `insert_back` does at the node where its loop stops.
abbrev attach : Ptr → Ptr → ℤ → Ptr → Cmd Ptr
attach head fresh d cur = do new_node ← create_node fresh d; set_next cur new_node; done head

module _ (h : Heap) (fresh : Ptr) (d : ℤ) (given : (fresh == null) ≡ false)
    (unused : h fresh ≡ none) where
  -- `insert_front` puts the new node before the others and changes no other node.
  pub insert_front-Chain :
      {head : Ptr} {cs : Cells}
      → Chain h head cs
      → Returns
          (λ p g. Chain g p ((fresh, d) ∷ cs) × SameBeyond [] fresh h g)
          (insert_front fresh head d h)
  unfolding insert_front create_node
  insert_front-Chain {head} {cs} ch =
      let out = not_in_of_none fresh ch unused in
      rw
        (
          given,
          set_next-done (update h fresh (some (node d null))) fresh {d = d} {q = null} given
              (ground arith) head,
        )
        (returns (
          cons given (ground arith) out (Chain-update fresh _ (Chain-update fresh _ ch out) out),
          λ a o n. ground arith,
        ))

  attach-Chain :
      (head p : Ptr) (e : ℤ)
      → (p == null) ≡ false
      → h p ≡ some (node e null)
      → Returns
          (λ r g.
            (r ≡ head) × Chain g p ((p, e) ∷ (fresh, d) ∷ []) × SameBeyond ((p, e) ∷ []) fresh h g)
          (attach head fresh d p h)
  unfolding create_node
  attach-Chain head p e live holds =
      let apart = node-apart h p fresh holds unused in
      rw
        (
          given,
          set_next-done (update h fresh (some (node d null))) p {d = e} {q = null} live
              (rw apart holds) fresh,
        )
        (returns (
          refl,
          cons live (ground arith) (ground arith) (cons given (ground arith) refl (nil refl)),
          λ a o n. ground arith,
        ))

  last_node-attach :
      (head : Ptr) (k : ℕ) {p q : Ptr} {e : ℤ} {cs : Cells}
      → (p == null) ≡ false
      → h p ≡ some (node e q)
      → has p cs ≡ false
      → Chain h q cs
      → length cs < k
      → Returns
          (λ r g.
            (r ≡ head)
            × Chain g p (((p, e) ∷ cs) ++ ((fresh, d) ∷ []))
            × SameBeyond ((p, e) ∷ cs) fresh h g)
          (resume (attach head fresh d) (last_node k p h))
  unfolding last_node
  last_node-attach head zero live holds new ch enough = absurd (omega arith)
  last_node-attach head (suc k) {p} {q} {e} live holds new (nil z) enough =
      rw (load-done h p live holds, z)
        (attach-Chain head p e live (holds ∙ ap (λ x. some (node e x)) z))
  last_node-attach head (suc k) {p} {q} {e} live holds new
        (cons {q = r} {d = d'} {cs} live' holds' new' ch) enough =
      let apart = node-apart h p fresh holds unused in
      rw (load-done h p live holds, live')
        (Returns-mono (last_node-attach head k live' holds' new' ch (omega arith))
          λ s g (is, chain, same). (
            is,
            cons live (same p new apart ∙ holds) (has-append p ((q, d') ∷ cs) _ ∙ ground arith)
                chain,
            λ a o n. same a (ground arith) n,
          ))

  -- `insert_back` puts the new node after the others and changes no node but the last one. With
  -- fuel for each node it returns.
  pub insert_back-Chain :
      (fuel : ℕ) {head : Ptr} {cs : Cells}
      → Chain h head cs
      → length cs ≤ fuel
      → Returns
          (λ p g. Chain g p (cs ++ ((fresh, d) ∷ [])) × SameBeyond cs fresh h g)
          (insert_back fuel fresh head d h)
  unfolding insert_back create_node
  insert_back-Chain fuel (nil z) enough =
      rw (z, given) (returns (cons given (ground arith) refl (nil refl), λ a o n. ground arith))
  insert_back-Chain fuel {head} (cons live holds new ch) enough = rw live (
      Returns-mono (last_node-attach head fuel live holds new ch (omega arith))
        λ r g (is, chain, same). (rw is chain, same))
