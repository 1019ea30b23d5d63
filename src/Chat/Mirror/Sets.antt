-- ===== src/Chat/Mirror/Sets.antt =====
-- `allset` and `maxfd` of server_select.c beside the array of clients.
use zhone_engineering_academ.Common.{
  ℕ, zero, suc, ◌≡◌, refl, subst, true, false, not, ◌||◌, ◌&&◌, some, List, [], ◌∷◌, ℤ, is_neg,
  minus_one, arith, set, get_elem?, ==ℤ_comm, ◌∙◌, sym, ==ℤ_iff, ◌==ℤ◌, ltb_ℤ, if◌then◌else◌,
  Bool-cases, inl, inr, pos, negsuc,
}
use zhone_engineering_academ.Chat.Slots.{neg_ne, has_fd, AreDistinct, IsFresh, has_fd_of_get_elem?}
use zhone_engineering_academ.Chat.Select.{FdSet, fd_clr}

-- The set holds the listening socket and the clients, and nothing else.
abbrev pub Holds : ℤ → List ℤ → FdSet → Type 0
Holds listenfd fs allset = (f : ℤ) → allset f ≡ (f ==ℤ listenfd || (not (is_neg f) && has_fd f fs))

-- No member is above `maxfd`.
abbrev pub IsBounded : FdSet → ℤ → Type 0
IsBounded allset maxfd = (f : ℤ) → allset f ≡ true → ltb_ℤ maxfd f ≡ false

-- Putting a descriptor into a free slot.
has_fd-set_free :
    (fs : List ℤ) (i : ℕ) (f x : ℤ) {g : ℤ}
    → get_elem? fs i ≡ some g
    → is_neg g ≡ true
    → is_neg x ≡ false
    → has_fd x (set fs i f) ≡ (f ==ℤ x || has_fd x fs)
has_fd-set_free [] i f x e free live = cc
has_fd-set_free (h ∷ fs) zero f x {g} e free live =
    let same : h ≡ g = cc in rw (neg_ne h x (rw same free) live)
has_fd-set_free (h ∷ fs) (suc i) f x e free live =
    ground (arith, has_fd-set_free fs i f x e free live)

head_fresh :
    (h : ℤ) (fs : List ℤ) (x : ℤ)
    → IsFresh h fs
    → is_neg x ≡ false
    → has_fd x fs ≡ true
    → (h ==ℤ x) ≡ false
head_fresh h fs x new live inside = elim (Bool-cases (h ==ℤ x)) [
  | inr miss ↦ miss
  | inl hit ↦
      let out : has_fd x fs ≡ false = subst (λ y. IsFresh y fs) ((==ℤ_iff h x).0 hit) new live in cc
]

-- Clearing the slot of a descriptor that no other slot has.
has_fd-set_clear :
    (fs : List ℤ) (i : ℕ) (x : ℤ) {g : ℤ}
    → AreDistinct fs
    → get_elem? fs i ≡ some g
    → is_neg g ≡ false
    → is_neg x ≡ false
    → has_fd x (set fs i minus_one) ≡ (not (x ==ℤ g) && has_fd x fs)
has_fd-set_clear [] i x d e used live = cc
has_fd-set_clear (h ∷ fs) zero x {g} d e used live =
    let same : h ≡ g = cc in
    rw (neg_ne minus_one x refl live) (elim (Bool-cases (x ==ℤ g)) [
      | inl hit ↦
          let here : h ≡ x = same ∙ sym ((==ℤ_iff x g).0 hit) in
          let alone : has_fd x fs ≡ false = subst (λ y. IsFresh y fs) here d.0 live in
          rw (hit, alone)
      | inr miss ↦ let other : (h ==ℤ x) ≡ false = rw same (==ℤ_comm g x ∙ miss) in rw (miss, other)
    ])
has_fd-set_clear (h ∷ fs) (suc i) x {g} d e used live = elim (Bool-cases (x ==ℤ g)) [
  | inr miss ↦ rw miss (ground (arith, miss, has_fd-set_clear fs i x d.1 e used live))
  | inl hit ↦
      let here : g ≡ x = sym ((==ℤ_iff x g).0 hit) in
      let inside : has_fd x fs ≡ true = rw (← here) (has_fd_of_get_elem? fs i e) in
      rw hit (
        ground (
          arith,
          hit,
          inside,
          has_fd-set_clear fs i x d.1 e used live,
          ==ℤ_iff h x,
          head_fresh h fs x d.0 live,
        ))
]

not_member : (fs : List ℤ) (g l : ℤ) → has_fd g fs ≡ true → has_fd l fs ≡ false → (g ==ℤ l) ≡ false
not_member fs g l inside out = elim (Bool-cases (g ==ℤ l)) [
  | inr miss ↦ miss
  | inl hit ↦ let out' : has_fd g fs ≡ false = rw ((==ℤ_iff g l).0 hit) out in cc
]

module _ (listenfd : ℤ) (fs : List ℤ) (allset : FdSet) (i : ℕ) {g : ℤ}
    (holds : Holds listenfd fs allset) (at_i : get_elem? fs i ≡ some g) where
  -- `FD_SET` of a client in a free slot.
  pub Holds-fd_set :
      (f : ℤ)
      → is_neg g ≡ true
      → is_neg f ≡ false
      → Holds listenfd (set fs i f) (λ x. x ==ℤ f || allset x)
  Holds-fd_set f free new x = rw (holds x) (elim (Bool-cases (is_neg x)) [
    | inl absent ↦ rw (absent, neg_ne x f absent new)
    | inr present ↦
        rw (present, has_fd-set_free fs i f x at_i free present, ==ℤ_comm f x) (ground arith)
  ])

  -- `FD_CLR` of a client that goes.
  pub Holds-fd_clr :
      AreDistinct fs
      → is_neg g ≡ false
      → has_fd listenfd fs ≡ false
      → Holds listenfd (set fs i minus_one) (fd_clr g allset)
  unfolding fd_clr
  Holds-fd_clr d used apart x =
      let inside : has_fd g fs ≡ true = has_fd_of_get_elem? fs i at_i in
      rw (holds x) (elim (Bool-cases (is_neg x)) [
        | inl absent ↦ rw (absent, neg_ne x g absent used) refl
        | inr present ↦
            rw (present, has_fd-set_clear fs i x d at_i used present)
              (elim (Bool-cases (x ==ℤ g)) [
                | inr miss ↦ rw miss
                | inl hit ↦
                    let same : x ≡ g = (==ℤ_iff x g).0 hit in
                    let other : (x ==ℤ listenfd) ≡ false =
                      rw same (not_member fs g listenfd inside apart) in
                    rw (hit, other)
              ])
      ])

below_of : (m f x : ℤ) → ltb_ℤ m f ≡ true → ltb_ℤ m x ≡ false → ltb_ℤ f x ≡ false
below_of (pos m) (pos f) (pos x) h k = ground arith
below_of (pos m) (pos f) (negsuc x) h k = refl
below_of (pos m) (negsuc f) x h k = cc
below_of (negsuc m) f (pos x) h k = cc
below_of (negsuc m) (pos f) (negsuc x) h k = refl
below_of (negsuc m) (negsuc f) (negsuc x) h k = ground arith

pub not_below_self : (x : ℤ) → ltb_ℤ x x ≡ false
not_below_self (pos x) = ground arith
not_below_self (negsuc x) = ground arith

pub IsBounded-fd_set :
    (allset : FdSet) (maxfd f : ℤ)
    → IsBounded allset maxfd
    → IsBounded (λ x. x ==ℤ f || allset x) (if ltb_ℤ maxfd f then f else maxfd)
IsBounded-fd_set allset maxfd f b x inside = elim (Bool-cases (x ==ℤ f)) [
  | inl hit ↦
      let same : x ≡ f = (==ℤ_iff x f).0 hit in
      rw same (elim (Bool-cases (ltb_ℤ maxfd f)) [
        | inl more ↦ rw more (not_below_self f)
        | inr less ↦ rw less less
      ])
  | inr miss ↦
      let old : allset x ≡ true = rw miss at inside in
      elim (Bool-cases (ltb_ℤ maxfd f)) [
        | inl more ↦ rw more (below_of maxfd f x more (b x old))
        | inr less ↦ rw less (b x old)
      ]
]

pub IsBounded-fd_clr :
    (allset : FdSet) (maxfd f : ℤ) → IsBounded allset maxfd → IsBounded (fd_clr f allset) maxfd
unfolding fd_clr
IsBounded-fd_clr allset maxfd f b x inside = b x (ground arith)
